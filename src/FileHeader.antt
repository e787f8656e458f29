-- ===== src/FileHeader.antt =====
-- filesys/file_header.cc and filesys/raw_file_header.hh: the header (i-node) of a file.
-- `FetchFrom` and `WriteBack` move a header to and from its sector, and stand in FileSystem.
pub mod Allocate
pub mod Deallocate
mod Examples
use so_ii.Base.{
  ℕ, zero, suc, ◌+◌, ◌-◌, ◌*◌, ◌/◌, ◌^◌, Bool, true, false, Option, none, some, List, ltb,
  if◌then◌else◌, Run, ok, ◌>>=◌, ◌>>◌, assert, read_at, write_at,
}
use so_ii.Bitmap.{Bitmap, div_round_up, find, count_clear, test, clear}

abbrev pub sector_size : ℕ
sector_size = 128

-- `(SECTOR_SIZE - 2 * sizeof (int)) / sizeof (int)`
abbrev pub num_direct : ℕ
num_direct = (sector_size - 2 * 4) / 4

abbrev pub max_file_size : ℕ
max_file_size = num_direct * sector_size

pub record FileHeader : Type 0 where
  pub num_bytes : ℕ
  pub num_sectors : ℕ
  pub data_sectors : List ℕ

-- The conversion of the result of `Find` to `unsigned`.
abbrev pub to_unsigned : Option ℕ → ℕ
to_unsigned none = 2 ^ 32 - 1
to_unsigned (some i) = i

-- `for (; i < raw.numSectors; i++) raw.dataSectors[i] = freeMap->Find();`
pub allocate_from : ℕ → ℕ → FileHeader → Bitmap → Run (FileHeader × Bitmap)
allocate_from zero i h bm = ok (h, bm)
allocate_from (suc rounds) i h bm = do
  (bm', found) ← find bm
  sectors ← write_at h.data_sectors i (to_unsigned found)
  allocate_from rounds (i + 1) (record h { data_sectors = sectors }) bm'

unfoldable pub allocate : FileHeader → Bitmap → ℕ → Run (Bool × FileHeader × Bitmap)
unfolding allocate_from
allocate h bm file_size =
    let h' = record h { num_bytes = file_size; num_sectors = div_round_up file_size sector_size } in
    let filled : Run (Bool × FileHeader × Bitmap) = (do
      (h'', bm') ← allocate_from h'.num_sectors 0 h' bm
      ok (true, h'', bm')) in
    let sized : Run (Bool × FileHeader × Bitmap) = (do
      clear_count ← count_clear bm
      if ltb clear_count h'.num_sectors then ok (false, h', bm) else filled) in
    if ltb max_file_size file_size then ok (false, h, bm) else sized

-- The loop of `Deallocate`, with the rounds left.
pub deallocate_from : ℕ → ℕ → FileHeader → Bitmap → Run Bitmap
deallocate_from zero i h bm = ok bm
deallocate_from (suc rounds) i h bm = do
  s ← read_at h.data_sectors i
  is_marked ← test bm s
  assert is_marked
  bm' ← clear bm s
  deallocate_from rounds (i + 1) h bm'

unfoldable pub deallocate : FileHeader → Bitmap → Run Bitmap
unfolding deallocate_from
deallocate h bm = deallocate_from h.num_sectors 0 h bm

unfoldable pub byte_to_sector : FileHeader → ℕ → Run ℕ
byte_to_sector h offset = read_at h.data_sectors (offset / sector_size)

unfoldable pub file_length : FileHeader → ℕ
file_length h = h.num_bytes
