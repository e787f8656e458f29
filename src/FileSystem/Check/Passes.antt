-- ===== src/FileSystem/Check/Passes.antt =====
-- What it means for a file system to pass `Check`.
use so_ii.Base.{
  ℕ, ◌/◌, ◌≤◌, ◌<◌, ◌≡◌, refl, sym, ◌∙◌, Bool, true, false, not, ◌||◌, ◌↔◌, List, [], ◌∷◌, ◌++◌,
  ◌==◌, to_nat, length, count, All, ok, arith,
}
use mathlib.Core.Path.{subst}
use so_ii.Bitmap.{Bitmap, bits_in_word, div_round_up, new_bitmap, mark}
use so_ii.Bitmap.View.{is_set, marked, marked-IsValid, mark-marked, is_set-marked}
use so_ii.Bitmap.Create.{new_bitmap-is_clear}
use so_ii.Bitmap.Takes.{Takes, nil-Takes, mark-Takes, append-Takes, cancel-Takes, build-Takes}
use so_ii.FileHeader.{num_direct, sector_size}
use so_ii.FileHeader.Allocate.{IsShaped, sectors_of}
use so_ii.Directory.Loops.{IsSized}
use so_ii.FileSystem.{
  FileSystem, num_sectors, num_dir_entries, free_map_sector, directory_sector, free_map_file_size,
}
use so_ii.FileSystem.Consistent.{owned_by, owned}
use so_ii.FileSystem.Check.{check, check_file_header, check_directory, check_bitmaps, check_entries}
use so_ii.FileSystem.Check.Sectors.{
  IsShadow, Checks, append-Checks, has_size_error, check_file_header-Checks,
}
use so_ii.FileSystem.Check.Bitmaps.{check_bitmaps_lem}
use so_ii.FileSystem.Check.Entries.{has_entry_error, IsReadable, check_entries-Checks}

-- What `Check` can be run on: structures of the right lengths, and header fields that the code
-- reads without leaving an array or the disk.
pub record IsCheckable (fs : FileSystem) : Type 0 where
  pub is_shadow : IsShadow fs.free_map
  pub sized : IsSized fs.directory
  pub ten : fs.directory.table_size ≡ num_dir_entries
  pub shaped : (s : ℕ) → IsShaped (fs.headers s)
  pub map_fits : (fs.headers 0).num_sectors ≤ num_direct
  pub dir_fits : (fs.headers 1).num_sectors ≤ num_direct
  pub readable : IsReadable fs.headers fs.directory.table

-- The verdict that `Check` stands for: the sizes of the headers are right, no name is too long or
-- repeated, every sector in use lies on the disk and is used once, and the free map marks just these.
pub record Passes (fs : FileSystem) : Type 0 where
  pub map_bytes : (fs.headers 0).num_bytes ≡ free_map_file_size
  pub map_sectors : (fs.headers 0).num_sectors ≡ free_map_file_size / sector_size
  pub map_size : has_size_error (fs.headers 0) ≡ false
  pub dir_size : has_size_error (fs.headers 1) ≡ false
  pub entries : has_entry_error fs.headers [] fs.directory.table ≡ false
  pub in_range : All (λ s. s < num_sectors) (owned fs)
  pub exact : (s : ℕ) → s < num_sectors → count s (owned fs) ≡ to_nat (is_set fs.free_map s)

-- The steps of `Check`, each with what it returns.
check-run :
    (words : List ℕ) (fs : FileSystem) (bm₀ bm₁ bm₂ bm₃ bm₄ bm₅ : Bitmap) (e₃ e₄ e₅ e₆ : Bool)
    → new_bitmap num_sectors words ≡ ok bm₀
    → mark bm₀ free_map_sector ≡ ok bm₁
    → mark bm₁ directory_sector ≡ ok bm₂
    → check_file_header (fs.headers 0) bm₂ ≡ ok (e₃, bm₃)
    → check_file_header (fs.headers 1) bm₃ ≡ ok (e₄, bm₄)
    → check_directory fs fs.directory bm₄ ≡ ok (e₅, bm₅)
    → check_bitmaps fs.free_map bm₅ ≡ ok e₆
    → check words fs
      ≡ ok (
          not (
            not ((fs.headers 0).num_bytes == free_map_file_size)
            || not ((fs.headers 0).num_sectors == free_map_file_size / sector_size)
            || e₃
            || e₄
            || e₅
            || e₆))
unfolding check
check-run words fs bm₀ bm₁ bm₂ bm₃ bm₄ bm₅ e₃ e₄ e₅ e₆ p₀ p₁ p₂ p₃ p₄ p₅ p₆ =
    rw (p₀, p₁, p₂, p₃, p₄, p₅, p₆)

-- An empty shadow bitmap, with a bit for each sector.
record IsEmpty (bm : Bitmap) : Type 0 where
  is_shadow : IsShadow bm
  clear : (s : ℕ) → s < num_sectors → is_set bm s ≡ false

-- The shadow bitmap once the fixed sectors are marked.
fixed-Takes : {bm : Bitmap} → IsEmpty bm → Takes bm (0 ∷ 1 ∷ []) (marked (marked bm 0) 1)
fixed-Takes {bm} e =
    let v = e.is_shadow.valid in
    let w : bm.num_bits ≡ num_sectors = e.is_shadow.width in
    let v₁ = marked-IsValid bm 0 v in
    mark-Takes v (omega (arith, w)) (e.clear 0 (omega arith)) (
      mark-Takes v₁ (omega (arith, w))
        (rw (is_set-marked bm 0 v (omega (arith, w)) 1) (e.clear 1 (omega arith)))
        (nil-Takes (marked-IsValid (marked bm 0) 1 v₁)))

-- From an empty shadow bitmap, after the checks of all sectors: `error` is whether one failed.
module _ (fs : FileSystem) (bm bm₅ : Bitmap) (error : Bool) (free : IsShadow fs.free_map)
    (empty : IsEmpty bm)
    (c : Checks
      (marked (marked bm 0) 1)
      (sectors_of (fs.headers 0)
        ++ (sectors_of (fs.headers 1) ++ owned_by fs.headers fs.directory.table))
      error
      bm₅) where
  -- Without an error the shadow bitmap marks the sectors in use.
  shadow_sound :
      error ≡ false
      → All (λ s. s < num_sectors) (owned fs)
        × ((s : ℕ) → s < num_sectors → count s (owned fs) ≡ to_nat (is_set bm₅ s))
  shadow_sound h =
      let t = append-Takes (0 ∷ 1 ∷ []) _ (fixed-Takes empty) (c.sound h) in
      (
        subst (λ n. All (λ s. s < n) (owned fs)) empty.is_shadow.width t.in_range,
        λ s p. ground (arith, t.exact s, empty.clear s p),
      )

  -- If the free map marks the sectors in use, there is no error.
  shadow_complete :
      All (λ s. s < num_sectors) (owned fs)
      → ((s : ℕ) → s < num_sectors → count s (owned fs) ≡ to_nat (is_set fs.free_map s))
      → error ≡ false
  shadow_complete inside exact =
      let (b, t) =
        build-Takes (owned fs) empty.is_shadow.valid
          (subst (λ n. All (λ s. s < n) (owned fs)) (sym empty.is_shadow.width) inside)
          (λ s p. ground (arith, exact s, empty.clear s, empty.is_shadow.width)) in
      c.complete b (cancel-Takes (0 ∷ 1 ∷ []) _ (fixed-Takes empty) t)

-- The result of `Check` by the results of its parts.
abbrev verdict : (b₁ b₂ z₃ x₃ z₄ x₄ z₅ x₅ e₆ : Bool) → Bool
verdict b₁ b₂ z₃ x₃ z₄ x₄ z₅ x₅ e₆ = not (b₁ || b₂ || (z₃ || x₃) || (z₄ || x₄) || (z₅ || x₅) || e₆)

verdict_sound :
    (b₁ b₂ z₃ x₃ z₄ x₄ z₅ x₅ e₆ : Bool)
    → verdict b₁ b₂ z₃ x₃ z₄ x₄ z₅ x₅ e₆ ≡ true
    → (b₁ ≡ false)
      × (b₂ ≡ false)
      × (z₃ ≡ false)
      × (z₄ ≡ false)
      × (z₅ ≡ false)
      × (x₃ || (x₄ || x₅) ≡ false)
      × (e₆ ≡ false)
verdict_sound b₁ b₂ z₃ x₃ z₄ x₄ z₅ x₅ e₆ h = ground arith

verdict_complete :
    (b₁ b₂ z₃ x₃ z₄ x₄ z₅ x₅ e₆ : Bool)
    → b₁ ≡ false
    → b₂ ≡ false
    → z₃ ≡ false
    → z₄ ≡ false
    → z₅ ≡ false
    → x₃ || (x₄ || x₅) ≡ false
    → e₆ ≡ false
    → verdict b₁ b₂ z₃ x₃ z₄ x₄ z₅ x₅ e₆ ≡ true
verdict_complete b₁ b₂ z₃ x₃ z₄ x₄ z₅ x₅ e₆ p₁ p₂ p₃ p₄ p₅ p p₆ = ground arith

-- On a file system whose structures have the right lengths and whose headers and names stay within
-- their arrays and the disk, `Check` trips no assertion, and it returns true exactly if the file
-- system passes: the header of the free map has the bytes and the sectors of its file; this header,
-- that of the directory and those of all files have fewer than `NUM_DIRECT` sectors, and enough for
-- their bytes; no name is too long or repeated; and the free map marks just the sectors in use, each
-- of which is on the disk and used once.
pub check_iff :
    (words : List ℕ) (fs : FileSystem)
    → length words ≡ div_round_up num_sectors bits_in_word
    → IsCheckable fs
    → (b : Bool) × (check words fs ≡ ok b) × ((b ≡ true) ↔ Passes fs)
unfolding check_directory
check_iff words fs full k =
    let (bm, made, v, width, clear) = new_bitmap-is_clear num_sectors words (omega arith) full in
    let empty : IsEmpty bm = record {
      is_shadow = record { valid = v; width = width };
      clear = clear;
    } in
    let v₁ = marked-IsValid bm 0 v in
    let bm₂ = marked (marked bm 0) 1 in
    let s₂ : IsShadow bm₂ = record { valid = marked-IsValid (marked bm 0) 1 v₁; width = width } in
    let (x₃, bm₃, run₃, c₃) =
      check_file_header-Checks (fs.headers 0) bm₂ s₂ (k.shaped 0) k.map_fits in
    let (x₄, bm₄, run₄, c₄) =
      check_file_header-Checks (fs.headers 1) bm₃ c₃.is_shadow (k.shaped 1) k.dir_fits in
    let (x₅, bm₅, run₅, c₅) =
      check_entries-Checks fs k.shaped fs.directory.table [] 0 fs.directory false [] bm₄ refl refl
        c₄.is_shadow tt k.readable in
    let run₅' =
      subst
        (λ n.
          check_entries fs n 0 fs.directory false [] bm₄
          ≡ ok (has_entry_error fs.headers [] fs.directory.table || x₅, bm₅))
        (k.sized ∙ k.ten) run₅ in
    let (e₆, run₆, same, differ) = check_bitmaps_lem fs.free_map bm₅ k.is_shadow c₅.is_shadow in
    let c =
      append-Checks (sectors_of (fs.headers 0)) _ s₂ c₃
        (append-Checks (sectors_of (fs.headers 1)) _ c₃.is_shadow c₄ c₅) in
    let b₁ = not ((fs.headers 0).num_bytes == free_map_file_size) in
    let b₂ = not ((fs.headers 0).num_sectors == free_map_file_size / sector_size) in
    let z₃ = has_size_error (fs.headers 0) in
    let z₄ = has_size_error (fs.headers 1) in
    let z₅ = has_entry_error fs.headers [] fs.directory.table in
    (
      verdict b₁ b₂ z₃ x₃ z₄ x₄ z₅ x₅ e₆,
      check-run words fs bm (marked bm 0) bm₂ bm₃ bm₄ bm₅ _ _ _ e₆ made
          (mark-marked bm 0 v (omega (arith, width)))
          (mark-marked (marked bm 0) 1 v₁ (omega (arith, width))) run₃ run₄ run₅' run₆,
      (
        (λ h.
            let (p₁, p₂, p₃, p₄, p₅, p, p₆) = verdict_sound b₁ b₂ z₃ x₃ z₄ x₄ z₅ x₅ e₆ h in
            let (inside, exact) = shadow_sound fs bm bm₅ _ k.is_shadow empty c p in
            record {
              map_bytes = ground arith;
              map_sectors = ground arith;
              map_size = p₃;
              dir_size = p₄;
              entries = p₅;
              in_range = inside;
              exact = λ s q. rw (same p₆ s q) (exact s q);
            }),
        λ p.
            let none_bad = shadow_complete fs bm bm₅ _ k.is_shadow empty c p.in_range p.exact in
            let (inside, exact) = shadow_sound fs bm bm₅ _ k.is_shadow empty c none_bad in
            verdict_complete b₁ b₂ z₃ x₃ z₄ x₄ z₅ x₅ e₆ (ground (arith, p.map_bytes))
              (ground (arith, p.map_sectors)) p.map_size p.dir_size p.entries none_bad
              (differ (λ s q. ground (arith, p.exact s q, exact s q))),
      ),
    )
