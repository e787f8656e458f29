-- ===== src/UserProgram/Syscalls/Transfers.antt =====
-- `SC_READ` of userprog/exception.cc on an open file.
use so_ii.Base.{
  le→leb, ℕ, ◌+◌, ◌-◌, ◌%◌, ◌^◌, ◌≤◌, ◌<◌, ◌==◌, ◌≡◌, refl, ap, ◌∙◌, Bool, true, false, ◌||◌, none,
  some, List, [], length, get_or, set, min, ltb, if◌then◌else◌, Run, ok, fault, assertion, ◌>>=◌,
  read_at-get_or, write_at-set, arith,
}
use so_ii.Base.Int.{pos}
use so_ii.FileHeader.{FileHeader, file_length}
use so_ii.FileSystem.{OpenFile}
use so_ii.OpenFile
use so_ii.OpenFile.{seek}
use so_ii.OpenFile.Sectors.{IsFile, byte_in}
use so_ii.OpenFile.Read.{Gets, read_at-Gets}
use so_ii.Processor.{Machine, Handlers, read_register}
use so_ii.Table.{has_key, get, holds}
use so_ii.UserProgram.Transfer.{write_buffer_to_user}
use so_ii.UserProgram.Syscalls.{Kernel, is_file_id, console_input, set_result, read_file, sys_read}

-- A program asks, in its registers, for a transfer of `size` bytes of an open file, which is `file`.
pub record Asks (s : Kernel) (buffer_addr size file_id : ℕ) (file : OpenFile) : Type 0 where
  pub first : read_register s.machine 4 ≡ ok buffer_addr
  pub second : read_register s.machine 5 ≡ ok size
  pub third : read_register s.machine 6 ≡ ok file_id
  pub not_null : 0 < buffer_addr
  pub some_bytes : 0 < size
  pub is_int : size < 2 ^ 31
  pub past_console : 1 < file_id
  pub is_file : file_id < 2 ^ 31
  pub opened : holds s.opened_files.current s.opened_files.freed (pos (file_id - 2)) ≡ true
  pub slot : file_id - 2 < length s.opened_files.data_items
  pub item : get_or s.opened_files.data_items (file_id - 2) none ≡ some file

-- What becomes of the state when the open file is `file`, and the machine `m`.
abbrev pub with_file : Kernel → ℕ → OpenFile → Machine → Kernel
with_file s file_id file m = record s {
  machine = m;
  opened_files = record s.opened_files {
    data_items = set s.opened_files.data_items (file_id - 2) (some file);
  };
}

-- The end of the call.
abbrev finished : Kernel × Bool → Run Kernel
finished p = if p.1 then ok p.0 else set_result p.0 0

abbrev without_error : (Machine → Kernel) → Machine → Run (Kernel × Bool)
without_error f m = ok (f m, false)

passed :
    (r : Run Machine) (f : Machine → Kernel)
    → ((r >>= without_error f) >>= finished) ≡ (r >>= λ m. set_result (f m) 0)
passed (ok m) f = refl
passed (fault e) f = refl

module _ (handlers : Handlers) (garbage : ℕ → ℕ) (fresh : FileHeader) (s : Kernel)
    (buffer_addr size file_id : ℕ) (file : OpenFile)
    (asks : Asks s buffer_addr size file_id file) where
  not_console : (file_id == console_input) ≡ false
  not_console = ground (arith, asks.past_console)

  file_test : is_file_id file_id ≡ true
  file_test = ground (arith, asks.past_console, asks.is_file)

  no_error : (buffer_addr == 0 || size == 0) ≡ false
  no_error = ground (arith, asks.not_null, asks.some_bytes)

  size_test : ltb size (2 ^ 31) ≡ true
  size_test = ground (arith, asks.is_int)

  -- The call comes down to the transfer from the file.
  pub sys_read-read_file :
      (r : Run (Kernel × Bool))
      → read_file handlers garbage fresh s file_id buffer_addr size ≡ r
      → sys_read handlers garbage fresh s ≡ (r >>= finished)
  unfolding sys_read
  sys_read-read_file r run =
      rw (asks.first, asks.second, asks.third, no_error, size_test, not_console, file_test, run)
        refl

  -- The transfer, for what `Read` gives.
  pub read_file-read :
      (file' : OpenFile) (size_read : ℕ) (bytes : List ℕ)
      → OpenFile.read garbage file s.sectors size ≡ ok (file', size_read, bytes)
      → read_file handlers garbage fresh s file_id buffer_addr size ≡ (
          write_buffer_to_user handlers s.machine bytes buffer_addr size_read
          >>= without_error (λ m. with_file s file_id file' m))
  unfolding read_file has_key get
  read_file-read file' size_read bytes run =
      rw
        (
          asks.opened,
          read_at-get_or s.opened_files.data_items (file_id - 2) none asks.slot,
          asks.item,
          run,
          write_at-set s.opened_files.data_items (file_id - 2) (some file') asks.slot,
        )
        refl

  positive : ltb 0 size ≡ true
  positive = ground (arith, asks.some_bytes)

  read-Gets :
      (g : Gets garbage file.header s.sectors size file.seek_position)
      → file.seek_position + size < 2 ^ 32
      → OpenFile.read garbage file s.sectors size
        ≡ ok (seek file (file.seek_position + length g.bytes), length g.bytes, g.bytes)
  unfolding OpenFile.read
  read-Gets g no_wrap = rw (positive, g.runs, small) refl
    where
      small : (file.seek_position + length g.bytes) % 2 ^ 32 ≡ file.seek_position + length g.bytes
      small = omega (arith, g.count)

  read_past_end :
      file.header.num_bytes ≤ file.seek_position
      → OpenFile.read garbage file s.sectors size
        ≡ ok (seek file (file.seek_position % 2 ^ 32), 0, [])
  unfolding OpenFile.read OpenFile.read_at file_length
  read_past_end past =
      rw (positive, le→leb file.header.num_bytes file.seek_position past)
        (ap (λ p. ok (seek file (p % 2 ^ 32), 0, []))
          (let e : file.seek_position + 0 ≡ file.seek_position = omega arith in e))

  write_nothing : write_buffer_to_user handlers s.machine [] buffer_addr 0 ≡ fault assertion
  unfolding write_buffer_to_user
  write_nothing = rw address refl
    where
      address : (buffer_addr == 0) ≡ false
      address = ground (arith, asks.not_null)

  -- Reading an open file that is not at its end comes down to a transfer to the program of bytes of the
  -- file, as many as were asked for but no more than there are.
  pub sys_read-byte_in :
      IsFile file.header s.sectors
      → file.seek_position < file.header.num_bytes
      → file.seek_position + size < 2 ^ 32
      → (bytes : List ℕ) × (length bytes ≡ min size (file.header.num_bytes - file.seek_position))
        × ((j : ℕ)
            → j < length bytes
            → get_or bytes j 0 ≡ byte_in file.header s.sectors (file.seek_position + j))
        × (sys_read handlers garbage fresh s ≡ (
            write_buffer_to_user handlers s.machine bytes buffer_addr (length bytes) >>= λ m.
            set_result (with_file s file_id (seek file (file.seek_position + length bytes)) m) 0))
  sys_read-byte_in is_file within no_wrap =
      let g =
        read_at-Gets garbage file.header s.sectors is_file size file.seek_position asks.some_bytes
          no_wrap in
      (
        g.bytes,
        g.count,
        g.bytes_in,
        sys_read-read_file _ (
              read_file-read (seek file (file.seek_position + length g.bytes)) (length g.bytes)
                g.bytes (read-Gets g no_wrap))
            ∙ passed (write_buffer_to_user handlers s.machine g.bytes buffer_addr (length g.bytes))
                (λ m. with_file s file_id (seek file (file.seek_position + length g.bytes)) m),
      )

  -- At the end of the file, the assertion of the transfer to the program fails: the kernel stops.
  pub sys_read_stops :
      file.header.num_bytes ≤ file.seek_position
      → sys_read handlers garbage fresh s ≡ fault assertion
  sys_read_stops past = sys_read-read_file (fault assertion) (
      read_file-read (seek file (file.seek_position % 2 ^ 32)) 0 [] (read_past_end past)
      ∙ ap
          (λ r. r >>= without_error (with_file s file_id (seek file (file.seek_position % 2 ^ 32))))
          write_nothing)
