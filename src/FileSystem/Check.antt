-- ===== src/FileSystem/Check.antt =====
-- `FileSystem::Check` and its helpers in filesys/file_system.cc. A result `true` of a helper means
-- that it met an error. The DEBUG messages have no effect on the result.
pub mod Sectors
pub mod Bitmaps
pub mod Entries
pub mod Passes
pub mod FullFile
use so_ii.Base.{
  ℕ, zero, suc, ◌+◌, ◌/◌, Bool, true, false, not, ◌||◌, List, [], ◌∷◌, ◌++◌, ltb, leb, ◌==◌,
  if◌then◌else◌, replicate, Run, ok, ◌>>=◌, read_at,
}
use so_ii.CString.{strlen, str_equal}
use so_ii.Bitmap.{Bitmap, div_round_up, new_bitmap, mark, test}
use so_ii.FileHeader.{FileHeader, num_direct, sector_size}
use so_ii.Directory.{Directory, DirectoryEntry, file_name_max_len}
use so_ii.FileSystem.{
  FileSystem, num_sectors, num_dir_entries, free_map_sector, directory_sector, free_map_file_size,
  fetch_header,
}

abbrev pub add_to_shadow_bitmap : ℕ → Bitmap → Run (Bool × Bitmap)
add_to_shadow_bitmap sector bm =
    let added : Run (Bool × Bitmap) = (do bm' ← mark bm sector; ok (true, bm')) in
    do is_marked ← test bm sector; if is_marked then ok (false, bm) else added

abbrev pub check_for_error : Bool → Bool
check_for_error value = not value

unfoldable pub check_sector : ℕ → Bitmap → Run (Bool × Bitmap)
check_sector sector shadow =
    let checked : Run (Bool × Bitmap) = (do
      (value, shadow') ← add_to_shadow_bitmap sector shadow
      ok (check_for_error value, shadow')) in
    if check_for_error (ltb sector num_sectors) then ok (true, shadow) else checked

-- The loop of `CheckFileHeader` over the sectors, with the rounds left.
pub check_sectors : ℕ → ℕ → FileHeader → Bool → Bitmap → Run (Bool × Bitmap)
check_sectors zero i rh error shadow = ok (error, shadow)
check_sectors (suc rounds) i rh error shadow = do
  s ← read_at rh.data_sectors i
  (e, shadow') ← check_sector s shadow
  check_sectors rounds (i + 1) rh (error || e) shadow'

unfoldable pub check_file_header : FileHeader → Bitmap → Run (Bool × Bitmap)
unfolding check_sectors
check_file_header rh shadow =
    let e₁ = check_for_error (leb (div_round_up rh.num_bytes sector_size) rh.num_sectors) in
    let e₂ = check_for_error (ltb rh.num_sectors num_direct) in
    check_sectors rh.num_sectors 0 rh (e₁ || e₂) shadow

-- The loop of `CheckBitmaps`, with the rounds left.
pub check_bits : ℕ → ℕ → Bool → Bitmap → Bitmap → Run Bool
check_bits zero i error free_map shadow = ok error
check_bits (suc rounds) i error free_map shadow = do
  a ← test free_map i
  b ← test shadow i
  check_bits rounds (i + 1) (error || check_for_error (if a then b else not b)) free_map shadow

unfoldable pub check_bitmaps : Bitmap → Bitmap → Run Bool
unfolding check_bits
check_bitmaps free_map shadow = check_bits num_sectors 0 false free_map shadow

-- The loop over the known names: whether one of them is the name.
unfoldable pub is_repeated : List (List ℕ) → List ℕ → Run Bool
is_repeated [] name = ok false
is_repeated (known ∷ names) name = do
  same ← str_equal known name
  later ← is_repeated names name
  ok (same || later)

-- The body of the loop of `CheckDirectory` for an entry in use.
abbrev pub check_entry :
    FileSystem → DirectoryEntry → List (List ℕ) → Bitmap → Run (Bool × List (List ℕ) × Bitmap)
check_entry fs e names shadow = do
  len ← strlen e.name
  let too_long = ltb file_name_max_len len
  repeated ← is_repeated names e.name
  (bad_sector, shadow₁) ← check_sector e.sector shadow
  rh ← fetch_header fs e.sector
  (bad_header, shadow₂) ← check_file_header rh shadow₁
  ok (
    too_long || repeated || bad_sector || bad_header,
    (if repeated then names else names ++ e.name ∷ []),
    shadow₂,
  )

-- The loop of `CheckDirectory`, with the rounds left.
pub check_entries :
    FileSystem → ℕ → ℕ → Directory → Bool → List (List ℕ) → Bitmap → Run (Bool × Bitmap)
check_entries fs zero i rd error names shadow = ok (error, shadow)
check_entries fs (suc rounds) i rd error names shadow =
    let skip = check_entries fs rounds (i + 1) rd error names shadow in
    let check_used : DirectoryEntry → Run (Bool × Bitmap) = λ e. (do
      (bad, names', shadow') ← check_entry fs e names shadow
      check_entries fs rounds (i + 1) rd (error || bad) names' shadow') in
    do e ← read_at rd.table i; if e.in_use then check_used e else skip

unfoldable pub check_directory : FileSystem → Directory → Bitmap → Run (Bool × Bitmap)
unfolding check_entries is_repeated
check_directory fs rd shadow = check_entries fs num_dir_entries 0 rd false [] shadow

-- `words` is what the memory of the new shadow bitmap holds.
unfoldable pub check : List ℕ → FileSystem → Run Bool
check words fs = do
  shadow ← new_bitmap num_sectors words
  shadow₁ ← mark shadow free_map_sector
  shadow₂ ← mark shadow₁ directory_sector
  bit_rh ← fetch_header fs free_map_sector
  let e₁ = check_for_error (bit_rh.num_bytes == free_map_file_size)
  let e₂ = check_for_error (bit_rh.num_sectors == free_map_file_size / sector_size)
  (e₃, shadow₃) ← check_file_header bit_rh shadow₂
  dir_rh ← fetch_header fs directory_sector
  (e₄, shadow₄) ← check_file_header dir_rh shadow₃
  (e₅, shadow₅) ← check_directory fs fs.directory shadow₄
  e₆ ← check_bitmaps fs.free_map shadow₅
  ok (not (e₁ || e₂ || e₃ || e₄ || e₅ || e₆))
