-- ===== src/FileSystem/Format.antt =====
-- Formatting a disk gives a consistent file system without files.
use so_ii.Base.{
  ℕ, ◌+◌, ◌-◌, ◌≤◌, ◌<◌, ◌≡◌, refl, ◌∙◌, true, false, ◌&&◌, none, List, [], ◌∷◌, map, ltb, to_nat,
  length, length-take, count, count-append, All, ok, arith,
}
use mathlib.Core.List.{append-nil}
use so_ii.Bitmap.{Bitmap, bits_in_word, div_round_up, new_bitmap, mark}
use so_ii.Bitmap.View.{IsValid, is_set, marked, marked-IsValid, mark-marked, is_set-marked}
use so_ii.Bitmap.Find.{free_bits, clears-marked, clears_of_clear}
use so_ii.Bitmap.Create.{new_bitmap-is_clear}
use so_ii.FileHeader.{FileHeader, allocate}
use so_ii.FileHeader.Allocate.{IsShaped, sectors_of, Allocates, allocate-Allocates}
use so_ii.Directory.{Directory, DirectoryEntry, file_name_max_len, new_directory}
use so_ii.Directory.Table.{has_free}
use so_ii.Directory.Create.{
  unused, new_directory-unused, length-unused, lookup-unused, Distinct-unused, has_free-unused,
  All-unused,
}
use so_ii.FileSystem.{
  FileSystem, num_sectors, num_dir_entries, free_map_sector, directory_sector, free_map_file_size,
  directory_file_size, update, format,
}
use so_ii.FileSystem.Consistent.{owned_by, owned, IsConsistent, file, count_past}

owned_by-unused : (hs : ℕ → FileHeader) (t : List DirectoryEntry) → owned_by hs (map unused t) ≡ []
unfolding owned_by
owned_by-unused hs [] = refl
owned_by-unused hs (e ∷ t) = owned_by-unused hs t

-- What formatting makes of a disk: a consistent file system without files, with all ten entries
-- of the directory free, all but five sectors, and two fixed headers of the right sizes.
pub record IsFormatted (fs : FileSystem) : Type 0 where
  pub consistent : IsConsistent fs
  pub empty : (name : List ℕ) → file fs name ≡ none
  pub room : has_free fs.directory.table ≡ true
  pub free : free_bits fs.free_map ≡ num_sectors - 5
  pub unused : All (λ e. e.in_use ≡ false) fs.directory.table
  pub map_bytes : (fs.headers 0).num_bytes ≡ free_map_file_size
  pub map_sectors : (fs.headers 0).num_sectors ≡ 1
  pub dir_bytes : (fs.headers 1).num_bytes ≡ directory_file_size
  pub dir_sectors : (fs.headers 1).num_sectors ≡ 2

-- `bm` is the free map with the two header sectors marked; the two files are then allocated.
module _ (entries : List DirectoryEntry) (disk : ℕ → FileHeader)
    (ten : length entries ≡ num_dir_entries)
    (named_room : All (λ e. file_name_max_len < length e.name) entries)
    (shaped : (s : ℕ) → IsShaped (disk s)) (bm : Bitmap) (v : IsValid bm)
    (width : bm.num_bits ≡ num_sectors)
    (fixed : (x : ℕ) → x < num_sectors → to_nat (is_set bm x) ≡ count x (0 ∷ 1 ∷ []))
    (free : free_bits bm ≡ num_sectors - 2) (map_h dir_h : FileHeader) (bm₁ bm₂ : Bitmap)
    (a : Allocates bm free_map_file_size map_h bm₁)
    (b : Allocates bm₁ directory_file_size dir_h bm₂) where
  formatted : FileSystem
  formatted = record {
    free_map = bm₂;
    directory = record { table_size = num_dir_entries; table = map unused entries };
    headers = update (update disk 0 map_h) 1 dir_h;
  }

  past_end : (x : ℕ) → num_sectors ≤ x → count x (sectors_of map_h) + count x (sectors_of dir_h) ≡ 0
  past_end x h = omega (
    arith,
    count_past bm.num_bits x (sectors_of map_h) a.takes.in_range (omega (arith, width)),
    count_past bm₁.num_bits x (sectors_of dir_h) b.takes.in_range
        (omega (arith, width, a.takes.width)),
  )

  formatted-exact : (x : ℕ) → count x (owned formatted) ≡ to_nat (ltb x num_sectors && is_set bm₂ x)
  unfolding formatted
  formatted-exact x =
      rw (owned_by-unused formatted.headers entries, append-nil)
        (ground (
          arith,
          count-append x (sectors_of map_h) (sectors_of dir_h),
          a.takes.exact x,
          b.takes.exact x,
          fixed x,
          past_end x,
        ))

  formatted-IsFormatted : IsFormatted formatted
  unfolding formatted file
  formatted-IsFormatted = record {
    consistent = record {
      valid = b.takes.valid;
      width = b.takes.width ∙ a.takes.width ∙ width;
      sized = length-unused entries ∙ ten;
      ten = refl;
      distinct = Distinct-unused entries named_room;
      shaped = λ s. ground (arith, shaped s, a.shaped, b.shaped);
      fits = λ name s e. absurd (ground (arith, lookup-unused entries name));
      exact = formatted-exact;
    };
    empty = λ name. rw (lookup-unused entries name);
    room = has_free-unused entries (omega (arith, ten));
    unused = All-unused entries;
    map_bytes = a.bytes;
    map_sectors = a.sectors;
    dir_bytes = b.bytes;
    dir_sectors = b.sectors;
    free = ground (
      arith,
      free,
      a.takes.fewer,
      b.takes.fewer,
      length-take map_h.num_sectors map_h.data_sectors,
      length-take dir_h.num_sectors dir_h.data_sectors,
      a.sectors,
      b.sectors,
      a.shaped,
      b.shaped,
    );
  }

-- The steps of the constructor, each with what it returns.
format-run :
    (words : List ℕ) (entries : List DirectoryEntry) (map_h dir_h : FileHeader)
    (disk : ℕ → FileHeader) (dir : Directory) (bm₀ bm₁ bm₂ bm₃ bm₄ : Bitmap) (h₁ h₂ : FileHeader)
    → new_bitmap num_sectors words ≡ ok bm₀
    → new_directory num_dir_entries entries ≡ ok dir
    → mark bm₀ free_map_sector ≡ ok bm₁
    → mark bm₁ directory_sector ≡ ok bm₂
    → allocate map_h bm₂ free_map_file_size ≡ ok (true, h₁, bm₃)
    → allocate dir_h bm₃ directory_file_size ≡ ok (true, h₂, bm₄)
    → format words entries map_h dir_h disk
      ≡ ok (record {
        free_map = bm₄;
        directory = dir;
        headers = update (update disk free_map_sector h₁) directory_sector h₂;
      })
unfolding format
format-run words entries map_h dir_h disk dir bm₀ bm₁ bm₂ bm₃ bm₄ h₁ h₂ p₀ q p₁ p₂ p₃ p₄ =
    rw (p₀, q, p₁, p₂, p₃, p₄)

-- Formatting trips no assertion, whatever fresh memory and the disk hold at first (arrays of the
-- right lengths), and gives a consistent file system with no file, all entries of the directory
-- unused, and all sectors free but five; the two fixed headers have the sizes of their files.
pub format-IsFormatted :
    (words : List ℕ) (entries : List DirectoryEntry) (map_h dir_h : FileHeader)
    (disk : ℕ → FileHeader)
    → length words ≡ div_round_up num_sectors bits_in_word
    → length entries ≡ num_dir_entries
    → All (λ e. file_name_max_len < length e.name) entries
    → IsShaped map_h
    → IsShaped dir_h
    → ((s : ℕ) → IsShaped (disk s))
    → (fs : FileSystem) × (format words entries map_h dir_h disk ≡ ok fs) × IsFormatted fs
unfolding formatted
format-IsFormatted words entries map_h dir_h disk full ten named_room ms ds shaped =
    let (bm, made, v, width, clear) = new_bitmap-is_clear num_sectors words (omega arith) full in
    let bm₁ = marked bm 0 in
    let v₁ = marked-IsValid bm 0 v in
    let bm₂ = marked bm₁ 1 in
    let v₂ = marked-IsValid bm₁ 1 v₁ in
    let in₀ : 0 < bm.num_bits = omega (arith, width) in
    let in₁ : 1 < bm.num_bits = omega (arith, width) in
    let all_clear = clears_of_clear bm bm.num_bits 0 (λ j _ p. clear j (omega (arith, width))) in
    let less₀ =
      clears-marked bm 0 v in₀ bm.num_bits 0 (omega arith) (omega arith) (clear 0 (omega arith)) in
    let less₁ =
      clears-marked bm₁ 1 v₁ in₁ bm.num_bits 0 (omega arith) (omega arith)
        (rw (is_set-marked bm 0 v in₀ 1) (clear 1 (omega arith))) in
    let free : free_bits bm₂ ≡ num_sectors - 2 = omega (arith, all_clear, less₀, less₁, width) in
    let (h₁, bm₃, run₁, a) =
      allocate-Allocates map_h bm₂ free_map_file_size ms v₂ (omega arith) (ground (arith, free)) in
    let (h₂, bm₄, run₂, b) =
      allocate-Allocates dir_h bm₃ directory_file_size ds a.takes.valid (omega arith) (
        ground (
          arith,
          free,
          a.takes.fewer,
          a.sectors,
          a.shaped,
          length-take h₁.num_sectors h₁.data_sectors,
        )) in
    let fixed : (x : ℕ) → x < num_sectors → to_nat (is_set bm₂ x) ≡ count x (0 ∷ 1 ∷ []) =
      λ x p. ground (arith, is_set-marked bm₁ 1 v₁ in₁ x, is_set-marked bm 0 v in₀ x, clear x p) in
    (
      formatted entries disk ten named_room shaped bm₂ v₂ width fixed free h₁ h₂ bm₃ bm₄ a b,
      format-run words entries map_h dir_h disk _ bm bm₁ bm₂ bm₃ bm₄ h₁ h₂ made
          (new_directory-unused entries num_dir_entries (omega arith) ten) (mark-marked bm 0 v in₀)
          (mark-marked bm₁ 1 v₁ in₁) run₁ run₂,
      formatted-IsFormatted entries disk ten named_room shaped bm₂ v₂ width fixed free h₁ h₂ bm₃ bm₄
          a b,
    )
