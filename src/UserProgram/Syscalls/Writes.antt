-- ===== src/UserProgram/Syscalls/Writes.antt =====
-- `SC_WRITE` of userprog/exception.cc on an open file.
use so_ii.Base.{
  ℕ, ◌+◌, ◌-◌, ◌%◌, ◌^◌, ◌≤◌, ◌<◌, ◌==◌, ◌≡◌, refl, ap, ◌∙◌, true, false, ◌||◌, none, some, List,
  length, get_or, min, ltb, ok, read_at-get_or, write_at-set, arith,
}
use so_ii.Base.Memory.{new_buffer, length-new_buffer, memcpy-Copies, is_within}
use so_ii.FileHeader.{FileHeader}
use so_ii.FileSystem.{OpenFile}
use so_ii.OpenFile
use so_ii.OpenFile.{seek}
use so_ii.OpenFile.Sectors.{IsFile}
use so_ii.OpenFile.Write.{Puts, write_at-Puts}
use so_ii.Processor.{Machine, Handlers}
use so_ii.Table.{has_key, get}
use so_ii.UserProgram.Transfer.{read_string_from_user}
use so_ii.UserProgram.Syscalls.{
  Kernel, is_file_id, console_output, set_result, write_file, write_buffer, sys_write,
}
use so_ii.UserProgram.Syscalls.Transfers.{Asks, with_file}

module _ (handlers : Handlers) (garbage : ℕ → ℕ) (fresh : FileHeader) (s : Kernel)
    (buffer_addr size file_id : ℕ) (file : OpenFile)
    (asks : Asks s buffer_addr size file_id file) where
  not_output : (file_id == console_output) ≡ false
  not_output = ground (arith, asks.past_console)

  file_test : is_file_id file_id ≡ true
  file_test = ground (arith, asks.past_console, asks.is_file)

  no_error : (buffer_addr == 0 || size == 0) ≡ false
  no_error = ground (arith, asks.not_null, asks.some_bytes)

  size_test : ltb size (2 ^ 31) ≡ true
  size_test = ground (arith, asks.is_int)

  positive : ltb 0 size ≡ true
  positive = ground (arith, asks.some_bytes)

  write-Puts :
      (buffer : List ℕ)
      → (p : Puts garbage file.header s.sectors buffer size file.seek_position)
      → file.seek_position + size < 2 ^ 32
      → OpenFile.write garbage file s.sectors buffer size
        ≡ ok (
          seek file (file.seek_position + min size (file.header.num_bytes - file.seek_position)),
          min size (file.header.num_bytes - file.seek_position),
          p.after,
        )
  unfolding OpenFile.write
  write-Puts buffer p no_wrap = rw (positive, p.runs, small) refl
    where
      small :
          (file.seek_position + min size (file.header.num_bytes - file.seek_position)) % 2 ^ 32
          ≡ file.seek_position + min size (file.header.num_bytes - file.seek_position)
      small = omega arith

  write_file-write :
      (m : Machine) (buffer : List ℕ) (file' : OpenFile) (count : ℕ) (disk : List (List ℕ))
      → OpenFile.write garbage file s.sectors buffer size ≡ ok (file', count, disk)
      → write_file handlers garbage fresh (record s { machine = m }) file_id buffer size
        ≡ ok (record (with_file s file_id file' m) { sectors = disk }, count == 0)
  unfolding write_file has_key get
  write_file-write m buffer file' count disk run =
      rw
        (
          asks.opened,
          read_at-get_or s.opened_files.data_items (file_id - 2) none asks.slot,
          asks.item,
          run,
          write_at-set s.opened_files.data_items (file_id - 2) (some file') asks.slot,
        )
        refl

  -- Writing a string that fits into `size` bytes to an open file that is not at its end: the bytes of a
  -- buffer that begins with the string are put into the file, as many as there is room for, the file moves
  -- on by their number, and the result is 0. The position and the number of bytes do not add up to more
  -- than an `unsigned`.
  pub sys_write-Puts :
      (m : Machine) (bytes : List ℕ)
      → read_string_from_user handlers s.machine buffer_addr 100 ≡ ok (m, bytes, true)
      → length bytes ≤ size
      → IsFile file.header s.sectors
      → file.seek_position < file.header.num_bytes
      → file.seek_position + size < 2 ^ 32
      → (buffer : List ℕ) × (length buffer ≡ size)
        × ((j : ℕ) → j < length bytes → get_or buffer j 0 ≡ get_or bytes j 0)
        × (p : Puts garbage file.header s.sectors buffer size file.seek_position) × (sys_write
              handlers garbage fresh s
            ≡ set_result
                (record (with_file s file_id
                  (seek file
                    (file.seek_position + min size (file.header.num_bytes - file.seek_position)))
                  m) { sectors = p.after })
                0)
  unfolding sys_write write_buffer
  sys_write-Puts m bytes string fits is_file within no_wrap =
      let c =
        memcpy-Copies (new_buffer garbage size) 0 bytes
          (omega (arith, length-new_buffer garbage size)) in
      let full = c.same_length ∙ length-new_buffer garbage size in
      let p =
        write_at-Puts garbage file.header s.sectors is_file c.after size file.seek_position
          asks.some_bytes (omega (arith, full)) no_wrap in
      (
        c.after,
        full,
        λ j less.
            c.bytes_in j
            ∙ rw (first_bytes (length bytes) j less)
                (ap (λ q. get_or bytes q 0) (let e : j - 0 ≡ j = omega arith in e)),
        p,
        rw
            (
              asks.first,
              asks.second,
              asks.third,
              size_test,
              no_error,
              string,
              c.runs,
              not_output,
              file_test,
              write_file-write m c.after _ _ p.after (write-Puts c.after p no_wrap),
              some_written,
            )
            refl,
      )
    where
      first_bytes : (n j : ℕ) → j < n → is_within 0 n j ≡ true
      first_bytes n j h = ground arith

      some_written : (min size (file.header.num_bytes - file.seek_position) == 0) ≡ false
      some_written = ground (arith, asks.some_bytes)
