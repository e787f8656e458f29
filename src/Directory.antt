-- ===== src/Directory.antt =====
-- filesys/directory.cc, filesys/raw_directory.hh and filesys/directory_entry.hh: a table of file
-- names. `FetchFrom` and `WriteBack` move the table to and from a file, and stand in FileSystem.
pub mod Table
pub mod Loops
pub mod Create
pub mod Names
mod Examples
use so_ii.Base.{
  ℕ, zero, suc, ◌+◌, ◌-◌, ◌^◌, Bool, true, false, not, ◌&&◌, Option, none, some, List, [], ◌∷◌, ltb,
  ◌==◌, if◌then◌else◌, replicate, Run, ok, ◌>>=◌, ◌>>◌, assert, read_at, write_at,
}
use so_ii.CString.{strn_equal, strncpy}

abbrev pub file_name_max_len : ℕ
file_name_max_len = 9

pub record DirectoryEntry : Type 0 where
  pub in_use : Bool
  pub sector : ℕ
  pub name : List ℕ

pub record Directory : Type 0 where
  pub table_size : ℕ
  pub table : List DirectoryEntry

-- `new DirectoryEntry [size]` leaves the fields unset: `garbage` is what they hold.
pub clear_entries : ℕ → ℕ → List DirectoryEntry → Run (List DirectoryEntry)
clear_entries zero i table = ok table
clear_entries (suc rounds) i table = do
  e ← read_at table i
  table' ← write_at table i (record e { in_use = false })
  clear_entries rounds (i + 1) table'

pub new_directory : ℕ → List DirectoryEntry → Run Directory
unfolding clear_entries
new_directory size garbage = do
  assert (ltb 0 size)
  table ← clear_entries size 0 garbage
  ok (record { table_size = size; table = table })

-- The test in the loop of `FindIndex`.
abbrev pub named : DirectoryEntry → List ℕ → Bool
named e name = e.in_use && strn_equal file_name_max_len e.name name

-- The loop of `FindIndex`, with the rounds left. The result -1 is `none`.
pub find_index_from : ℕ → ℕ → Directory → List ℕ → Run (Option ℕ)
find_index_from zero i d name = ok none
find_index_from (suc rounds) i d name =
    let rest = find_index_from rounds (i + 1) d name in
    do e ← read_at d.table i; if named e name then ok (some i) else rest

unfoldable pub find_index : Directory → List ℕ → Run (Option ℕ)
unfolding find_index_from
find_index d name = find_index_from d.table_size 0 d name

-- An `int` is given as its 32-bit pattern; this is -1.
abbrev pub minus_one : ℕ
minus_one = 2 ^ 32 - 1

abbrev pub found_sector : Directory → Option ℕ → Run ℕ
found_sector d none = ok minus_one
found_sector d (some i) = do e ← read_at d.table i; ok e.sector

unfoldable pub find : Directory → List ℕ → Run ℕ
find d name = find_index d name >>= found_sector d

-- The loop of `Add`, with the rounds left.
pub add_from : ℕ → ℕ → Directory → List ℕ → ℕ → Run (Bool × Directory)
add_from zero i d name new_sector = ok (false, d)
add_from (suc rounds) i d name new_sector =
    let rest = add_from rounds (i + 1) d name new_sector in
    let fill : DirectoryEntry → Run (Bool × Directory) = λ e. (do
      table ← write_at d.table i (record {
        in_use = true;
        sector = new_sector;
        name = strncpy file_name_max_len e.name name;
      })
      ok (true, record d { table = table })) in
    do e ← read_at d.table i; if not e.in_use then fill e else rest

abbrev pub add_unless_found : Directory → List ℕ → ℕ → Option ℕ → Run (Bool × Directory)
add_unless_found d name new_sector (some i) = ok (false, d)
add_unless_found d name new_sector none = add_from d.table_size 0 d name new_sector

unfoldable pub add : Directory → List ℕ → ℕ → Run (Bool × Directory)
unfolding add_from
add d name new_sector = find_index d name >>= add_unless_found d name new_sector

abbrev pub remove_found : Directory → Option ℕ → Run (Bool × Directory)
remove_found d none = ok (false, d)
remove_found d (some i) = do
  e ← read_at d.table i
  table ← write_at d.table i (record e { in_use = false })
  ok (true, record d { table = table })

unfoldable pub remove : Directory → List ℕ → Run (Bool × Directory)
remove d name = find_index d name >>= remove_found d
