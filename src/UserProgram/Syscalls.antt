-- ===== src/UserProgram/Syscalls.antt =====
-- The system calls on files of userprog/exception.cc, with the open files of a thread from threads/thread.cc,
-- over the file system, the sectors of the disk, and a console.
pub mod Errors
pub mod Opens
pub mod Transfers
pub mod Delivers
pub mod Writes
mod Examples
use so_ii.Base.{
  ℕ, zero, suc, ◌+◌, ◌-◌, ◌%◌, ◌^◌, ◌==◌, Bool, true, false, not, ◌&&◌, ◌||◌, Option, none, some,
  List, [], ◌∷◌, ◌++◌, ltb, leb, if◌then◌else◌, Run, ok, fault, assertion, out_of_bounds, undefined,
  ◌>>=◌, ◌>>◌, assert, read_at, write_at,
}
use so_ii.Base.Int.{ℤ, pos, negsuc, ◌+ℤ◌, ltb_ℤ}
use so_ii.Base.Memory.{memcpy, new_buffer}
use so_ii.FileHeader.{FileHeader}
use so_ii.FileSystem.{FileSystem, OpenFile, create, open_file}
use so_ii.Interrupts.{from_int}
use so_ii.OpenFile
use so_ii.Processor.{Machine, Handlers, read_register, write_register}
use so_ii.Table
use so_ii.Table.{Table, get, has_key, write_item}
use so_ii.UserProgram.Exception.{increment_pc}
use so_ii.UserProgram.Transfer.{check_end_string, read_string_from_user, write_buffer_to_user}

-- The characters that the console is to give, how many it gave, and those that it was sent.
pub record Console : Type 0 where
  pub incoming : ℕ → ℕ
  pub received : ℕ
  pub sent : List ℕ

-- What threads/system.cc holds, with the open files of `currentThread`. A null pointer is `none`.
pub record Kernel : Type 0 where
  pub machine : Machine
  pub opened_files : Table (Option OpenFile)
  pub file_system : FileSystem
  pub sectors : List (List ℕ)
  pub console : Console

-- The result -1, as an `int`.
abbrev pub minus_one_int : ℕ
minus_one_int = 2 ^ 32 - 1

abbrev pub console_input : ℕ
console_input = 0

abbrev pub console_output : ℕ
console_output = 1

abbrev pub set_result : Kernel → ℕ → Run Kernel
set_result s value = do m ← write_register s.machine 2 value; ok (record s { machine = m })

-- Neither negative nor one of the console's.
abbrev pub is_file_id : ℕ → Bool
is_file_id file_id = ltb console_output file_id && ltb file_id (2 ^ 31)

-- threads/thread.cc
abbrev pub add_open_file : Kernel → OpenFile → Run (ℤ × Kernel)
add_open_file s file = do
  (real_file_id, table) ← Table.add s.opened_files (some file)
  ok (real_file_id +ℤ pos 2, record s { opened_files = table })

abbrev pub close_file : Kernel → ℕ → Run (Option OpenFile × Kernel)
close_file s file_id = do
  (file, table) ← Table.remove none s.opened_files (pos (file_id - 2))
  ok (file, record s { opened_files = table })

abbrev pub is_opened_file : Kernel → ℕ → Run Bool
is_opened_file s file_id = has_key s.opened_files (pos (file_id - 2))

abbrev pub get_file_opened : Kernel → ℕ → Run (Option OpenFile)
get_file_opened s file_id = get none s.opened_files (pos (file_id - 2))

-- An open file that is changed, behind the pointer that the table holds.
abbrev pub change_file : Kernel → ℕ → OpenFile → Run Kernel
change_file s file_id file = do
  items ← write_item s.opened_files.data_items (pos (file_id - 2)) (some file)
  ok (record s { opened_files = record s.opened_files { data_items = items } })

-- A method of a null pointer.
abbrev pub not_null : Option OpenFile → Run OpenFile
not_null none = fault undefined
not_null (some file) = ok file

-- `new char[size]` for an `int`; it throws for a negative one.
abbrev pub new_char : (ℕ → ℕ) → ℕ → Run (List ℕ)
new_char garbage size = if ltb size (2 ^ 31) then ok (new_buffer garbage size) else fault undefined

-- The loop of `Read` over the characters of the console, with the rounds that are left; it gives the
-- index after the last one.
unfoldable pub get_chars : ℕ → ℕ → Console → List ℕ → Run (ℕ × Console × List ℕ)
get_chars zero temp c buffer = ok (temp, c, buffer)
get_chars (suc rounds) temp c buffer =
    let char = c.incoming c.received in
    let c' = record c { received = c.received + 1 } in
    do
      buffer' ← write_at buffer temp char
      let rest = get_chars rounds (temp + 1) c' buffer'
      if check_end_string char then rest else ok (temp + 1, c', buffer')

-- The loop of `Write`.
unfoldable pub put_chars : ℕ → ℕ → Console → List ℕ → Run Console
put_chars zero temp c buffer = ok c
put_chars (suc rounds) temp c buffer = do
  char ← read_at buffer temp
  let c' = record c { sent = c.sent ++ (char ∷ []) }
  let rest = put_chars rounds (temp + 1) c' buffer
  if check_end_string char then rest else ok c'

-- `handlers` are those of the processor, `garbage` and `fresh` what new memory holds.
module _ (handlers : Handlers) (garbage : ℕ → ℕ) (fresh : FileHeader) where
  -- The name is read into an array of `FILE_NAME_MAX_LEN + 1` characters.
  abbrev pub read_name : Kernel → ℕ → Run (Kernel × List ℕ × Bool)
  read_name s filename_addr = do
    (m, bytes, is_read) ← read_string_from_user handlers s.machine filename_addr 10
    filename ← memcpy (new_buffer garbage 10) 0 bytes
    ok (record s { machine = m }, filename, is_read)

  unfoldable pub sys_create : Kernel → Run Kernel
  sys_create s = do
    filename_addr ← read_register s.machine 4
    s₁ ← set_result s minus_one_int
    let named : Run Kernel = (do
      (s₂, filename, is_read) ← read_name s₁ filename_addr
      let created : Run Kernel = (do
        (file_created, fs) ← create fresh s₂.file_system filename 1000
        set_result (record s₂ { file_system = fs }) (if file_created then 1 else 0))
      if not is_read then ok s₂ else created)
    if filename_addr == 0 then ok s₁ else named

  -- What is opened is entered in the table of the thread.
  unfoldable pub enter_file : Kernel → Option OpenFile → Run Kernel
  enter_file s none = ok s
  enter_file s (some file) = do
    (file_id, s') ← add_open_file s file
    if ltb_ℤ file_id (pos 0) then ok s' else set_result s' (from_int file_id)

  unfoldable pub sys_open : Kernel → Run Kernel
  unfolding enter_file
  sys_open s = do
    filename_addr ← read_register s.machine 4
    s₁ ← set_result s minus_one_int
    let named : Run Kernel = (do
      (s₂, filename, is_read) ← read_name s₁ filename_addr
      let opened = open_file s₂.file_system filename >>= enter_file s₂
      if not is_read then ok s₂ else opened)
    if filename_addr == 0 then ok s₁ else named

  unfoldable pub sys_close : Kernel → Run Kernel
  sys_close s = do
    file_id ← read_register s.machine 4
    s₁ ← set_result s minus_one_int
    let closed : Run Kernel = (do
      opened ← is_opened_file s₁ file_id
      let close : Run Kernel = (do (file, s₂) ← close_file s₁ file_id; set_result s₂ 0)
      if not opened then ok s₁ else close)
    if is_file_id file_id then closed else ok s₁

  -- A transfer with its result, and whether an error occurred.
  unfoldable pub read_console : Kernel → List ℕ → ℕ → ℕ → Run (Kernel × Bool)
  unfolding get_chars
  read_console s buffer buffer_addr size = do
    (temp, c, buffer₁) ← get_chars size 0 s.console buffer
    buffer₂ ← write_at buffer₁ temp 0
    m ← write_buffer_to_user handlers s.machine buffer₂ buffer_addr size
    ok (record s { machine = m; console = c }, false)

  unfoldable pub read_file : Kernel → ℕ → ℕ → ℕ → Run (Kernel × Bool)
  read_file s file_id buffer_addr size = do
    opened ← is_opened_file s file_id
    let transfer : Run (Kernel × Bool) = (do
      file ← get_file_opened s file_id >>= not_null
      (file', size_read, bytes) ← OpenFile.read garbage file s.sectors size
      s₁ ← change_file s file_id file'
      m ← write_buffer_to_user handlers s₁.machine bytes buffer_addr size_read
      ok (record s₁ { machine = m }, false))
    if opened then transfer else ok (s, true)

  unfoldable pub sys_read : Kernel → Run Kernel
  unfolding read_console read_file
  sys_read s = do
    buffer_addr ← read_register s.machine 4
    size ← read_register s.machine 5
    file_id ← read_register s.machine 6
    let read : Run (Kernel × Bool) = (do
      buffer ← new_char garbage size
      let by_console = read_console s buffer buffer_addr size
      let by_file = read_file s file_id buffer_addr size
      if file_id == console_input
          then by_console
          else (if is_file_id file_id then by_file else ok (s, true)))
    (s₁, error_occurred) ← if buffer_addr == 0 || size == 0 then ok (s, true) else read
    if error_occurred then ok s₁ else set_result s₁ 0

  unfoldable pub write_file : Kernel → ℕ → List ℕ → ℕ → Run (Kernel × Bool)
  write_file s file_id buffer size = do
    opened ← is_opened_file s file_id
    let transfer : Run (Kernel × Bool) = (do
      file ← get_file_opened s file_id >>= not_null
      (file', num_bytes, disk) ← OpenFile.write garbage file s.sectors buffer size
      s₁ ← change_file s file_id file'
      ok (record s₁ { sectors = disk }, num_bytes == 0))
    if opened then transfer else ok (s, true)

  unfoldable pub write_buffer : Kernel → ℕ → List ℕ → ℕ → Run (Kernel × Bool)
  unfolding write_file put_chars
  write_buffer s file_id buffer size =
      let by_console : Run (Kernel × Bool) = (do
        c ← put_chars size 0 s.console buffer
        ok (record s { console = c }, false)) in
      let by_file = write_file s file_id buffer size in
      if file_id == console_output
      then by_console
      else (if is_file_id file_id then by_file else ok (s, true))

  unfoldable pub sys_write : Kernel → Run Kernel
  unfolding write_buffer
  sys_write s = do
    buffer_addr ← read_register s.machine 4
    size ← read_register s.machine 5
    file_id ← read_register s.machine 6
    buffer ← new_char garbage size
    let write : Run (Kernel × Bool) = (do
      (m, bytes, is_read) ← read_string_from_user handlers s.machine buffer_addr 100
      buffer' ← memcpy buffer 0 bytes
      let s₁ = record s { machine = m }
      let written = write_buffer s₁ file_id buffer' size
      if not is_read then ok (s₁, true) else written)
    (s₂, error_occurred) ← if buffer_addr == 0 || size == 0 then ok (s, true) else write
    set_result s₂ (if error_occurred then minus_one_int else 0)

  -- The switch; the calls that are not on files are `other`.
  unfoldable pub perform_syscall : (ℕ → Kernel → Run Kernel) → Kernel → Run Kernel
  unfolding sys_create sys_open sys_close sys_read sys_write
  perform_syscall other s = do
    scid ← read_register s.machine 2
    let create_call = sys_create s
    let open_call = sys_open s
    let close_call = sys_close s
    let read_call = sys_read s
    let write_call = sys_write s
    let other_call = other scid s
    if scid == 10
        then create_call
        else (if scid == 11
            then ok s
            else (if scid == 12
                then open_call
                else (if scid == 13
                    then close_call
                    else (if scid == 14
                        then read_call
                        else (if scid == 15 then write_call else other_call)))))

  unfoldable pub handle_syscall : (ℕ → Kernel → Run Kernel) → Kernel → Run Kernel
  unfolding perform_syscall increment_pc
  handle_syscall other s = do
    s₁ ← perform_syscall other s
    m ← increment_pc s₁.machine
    ok (record s₁ { machine = m })
