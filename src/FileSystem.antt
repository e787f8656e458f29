-- ===== src/FileSystem.antt =====
-- filesys/file_system.cc and filesys/file_system.hh (the real file system, without FILESYS_STUB).
-- The disk is seen through its typed contents: the bitmap and the table that the two files left
-- open hold, and what each sector holds when it is read as a file header. Fetching a bitmap, a
-- directory or a header is a read of these, and `WriteBack` is a write; the bytes in which they
-- are laid out are not modelled. Consistent shows that no sector is in two of these roles.
pub mod Consistent
pub mod Format
pub mod Create
pub mod Refuse
pub mod Remove
pub mod Check
pub mod History
pub mod Fresh
mod Examples
use so_ii.Base.{
  ℕ, zero, suc, ◌+◌, ◌*◌, ◌/◌, ◌^◌, Bool, true, false, not, Option, none, some, List, ltb, ◌==◌,
  if◌then◌else◌, Run, ok, ◌>>=◌, ◌>>◌, assert,
}
use so_ii.Bitmap
use so_ii.Bitmap.{Bitmap, new_bitmap, mark, clear}
use so_ii.FileHeader.{FileHeader, max_file_size, allocate, deallocate}
use so_ii.Directory
use so_ii.Directory.{Directory, DirectoryEntry, minus_one, new_directory}

abbrev pub num_sectors : ℕ
num_sectors = 32 * 32

abbrev pub free_map_sector : ℕ
free_map_sector = 0

abbrev pub directory_sector : ℕ
directory_sector = 1

abbrev pub free_map_file_size : ℕ
free_map_file_size = num_sectors / 8

abbrev pub num_dir_entries : ℕ
num_dir_entries = 10

-- A `DirectoryEntry` takes 20 bytes: a bool, an aligned unsigned, ten chars, and padding.
abbrev pub directory_file_size : ℕ
directory_file_size = 20 * num_dir_entries

pub record FileSystem : Type 0 where
  pub free_map : Bitmap
  pub directory : Directory
  pub headers : ℕ → FileHeader

abbrev pub update : (ℕ → FileHeader) → ℕ → FileHeader → ℕ → FileHeader
update headers sector h s = if sector == s then h else headers s

-- `FileHeader::FetchFrom` and `FileHeader::WriteBack`; the disk asserts that the sector exists.
abbrev pub fetch_header : FileSystem → ℕ → Run FileHeader
fetch_header fs sector = do assert (ltb sector num_sectors); ok (fs.headers sector)

abbrev pub write_header : (ℕ → FileHeader) → ℕ → FileHeader → Run (ℕ → FileHeader)
write_header headers sector h = do assert (ltb sector num_sectors); ok (update headers sector h)

-- The constructor with `format`. The arguments are what fresh memory and the disk hold at first.
unfoldable pub format :
    List ℕ → List DirectoryEntry → FileHeader → FileHeader → (ℕ → FileHeader) → Run FileSystem
format words entries map_h dir_h disk = do
  free_map ← new_bitmap num_sectors words
  dir ← new_directory num_dir_entries entries
  free_map₁ ← mark free_map free_map_sector
  free_map₂ ← mark free_map₁ directory_sector
  (map_fits, map_h', free_map₃) ← allocate map_h free_map₂ free_map_file_size
  assert map_fits
  (dir_fits, dir_h', free_map₄) ← allocate dir_h free_map₃ directory_file_size
  assert dir_fits
  disk₁ ← write_header disk free_map_sector map_h'
  disk₂ ← write_header disk₁ directory_sector dir_h'
  ok (record { free_map = free_map₄; directory = dir; headers = disk₂ })

-- The last steps of `Create`, once the name has its entry. A failure writes nothing back.
abbrev pub create_data :
    FileHeader → FileSystem → ℕ → Bitmap → ℕ → Directory → Run (Bool × FileSystem)
create_data fresh fs initial_size free_map sector dir = do
  (success, h, free_map') ← allocate fresh free_map initial_size
  let write_back : Run (Bool × FileSystem) = (do
    headers ← write_header fs.headers sector h
    ok (true, record { free_map = free_map'; directory = dir; headers = headers }))
  if success then write_back else ok (false, fs)

-- The steps from the search for a header sector on.
abbrev pub create_entry :
    FileHeader → FileSystem → List ℕ → ℕ → Bitmap × Option ℕ → Run (Bool × FileSystem)
create_entry fresh fs name initial_size (free_map, none) = ok (false, fs)
create_entry fresh fs name initial_size (free_map, some sector) = do
  (is_added, dir) ← Directory.add fs.directory name sector
  if not is_added then ok (false, fs) else create_data fresh fs initial_size free_map sector dir

-- `fresh` is what the memory of the new header holds.
unfoldable pub create : FileHeader → FileSystem → List ℕ → ℕ → Run (Bool × FileSystem)
create fresh fs name initial_size = do
  assert (ltb initial_size max_file_size)
  found ← Directory.find fs.directory name
  let enter : Run (Bool × FileSystem) =
      (Bitmap.find fs.free_map >>= create_entry fresh fs name initial_size)
  if not (found == minus_one) then ok (false, fs) else enter

abbrev pub remove_found : FileSystem → List ℕ → ℕ → Run (Bool × FileSystem)
remove_found fs name sector = do
  h ← fetch_header fs sector
  free_map ← deallocate h fs.free_map
  free_map' ← clear free_map sector
  (_, dir) ← Directory.remove fs.directory name
  ok (true, record fs { free_map = free_map'; directory = dir })

unfoldable pub remove : FileSystem → List ℕ → Run (Bool × FileSystem)
remove fs name = do
  sector ← Directory.find fs.directory name
  if sector == minus_one then ok (false, fs) else remove_found fs name sector

pub record OpenFile : Type 0 where
  pub header : FileHeader
  pub seek_position : ℕ

-- The constructor of `OpenFile`
abbrev pub new_open_file : FileSystem → ℕ → Run OpenFile
new_open_file fs sector = do
  h ← fetch_header fs sector
  ok (record { header = h; seek_position = 0 })

-- `sector >= 0` as an `int`; a null pointer is `none`.
unfoldable pub open_file : FileSystem → List ℕ → Run (Option OpenFile)
open_file fs name = do
  sector ← Directory.find fs.directory name
  let opened : Run (Option OpenFile) = (do f ← new_open_file fs sector; ok (some f))
  if ltb sector (2 ^ 31) then opened else ok none
