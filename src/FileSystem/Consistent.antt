-- ===== src/FileSystem/Consistent.antt =====
-- When a file system is consistent: the free map marks exactly the sectors that are used, and no
-- sector is used twice.
use so_ii.Base.{
  ℕ, ◌+◌, ◌≤◌, ◌<◌, ◌≡◌, refl, true, false, ◌&&◌, Option, some, List, [], ◌∷◌, ◌++◌, ltb, ◌==◌,
  if◌then◌else◌, to_nat, count, count-append, All, arith,
}
use mathlib.Core.Option
use so_ii.Bitmap.View.{IsValid, is_set}
use so_ii.FileHeader.{FileHeader, num_direct}
use so_ii.FileHeader.Allocate.{IsShaped, sectors_of}
use so_ii.Directory.{DirectoryEntry, minus_one}
use so_ii.Directory.Table.{lookup, has_free, fill, release, Distinct}
use so_ii.Directory.Loops.{IsSized}
use so_ii.FileSystem.{FileSystem, num_sectors, num_dir_entries, update}

-- The sectors of the files in a table: those of their headers, and those of their data.
unfoldable pub owned_by : (ℕ → FileHeader) → List DirectoryEntry → List ℕ
owned_by hs [] = []
owned_by hs (e ∷ t) =
    if e.in_use then e.sector ∷ (sectors_of (hs e.sector) ++ owned_by hs t) else owned_by hs t

-- All the sectors in use: the two fixed headers, their data, and the files.
abbrev pub owned : FileSystem → List ℕ
owned fs =
    0
    ∷ 1
    ∷ (sectors_of (fs.headers 0)
        ++ (sectors_of (fs.headers 1) ++ owned_by fs.headers fs.directory.table))

pub record IsConsistent (fs : FileSystem) : Type 0 where
  pub valid : IsValid fs.free_map
  pub width : fs.free_map.num_bits ≡ num_sectors
  pub sized : IsSized fs.directory
  pub ten : fs.directory.table_size ≡ num_dir_entries
  pub distinct : Distinct fs.directory.table
  pub shaped : (s : ℕ) → IsShaped (fs.headers s)
  pub fits :
      (name : List ℕ) (s : ℕ)
      → lookup fs.directory.table name ≡ some s
      → (fs.headers s).num_sectors ≤ num_direct
  pub exact : (s : ℕ) → count s (owned fs) ≡ to_nat (ltb s num_sectors && is_set fs.free_map s)

-- The abstract view: the header of the file that has a name.
unfoldable pub file : FileSystem → List ℕ → Option FileHeader
file fs name = Option.map fs.headers (lookup fs.directory.table name)

module _ (hs : ℕ → FileHeader) where
  -- A file that is found owns its header's sector.
  pub lookup-owned :
      (t : List DirectoryEntry) (name : List ℕ) (s x : ℕ)
      → lookup t name ≡ some s
      → count x (s ∷ sectors_of (hs s)) ≤ count x (owned_by hs t)
  unfolding lookup owned_by
  lookup-owned [] name s x h = absurd (ground arith)
  lookup-owned (e ∷ t) name s x h =
      ground
        (arith, count-append x (sectors_of (hs e.sector)) (owned_by hs t), lookup-owned t name s x)

  pub owned_by-fill :
      (t : List DirectoryEntry) (name : List ℕ) (s x : ℕ)
      → has_free t ≡ true
      → count x (owned_by hs (fill t name s))
        ≡ count x (s ∷ sectors_of (hs s)) + count x (owned_by hs t)
  unfolding has_free fill owned_by
  owned_by-fill [] name s x h = absurd (ground arith)
  owned_by-fill (e ∷ t) name s x h = ground (
    arith,
    count-append x (sectors_of (hs e.sector)) (owned_by hs t),
    count-append x (sectors_of (hs e.sector)) (owned_by hs (fill t name s)),
    count-append x (sectors_of (hs s)) (owned_by hs t),
    owned_by-fill t name s x,
  )

  pub owned_by-release :
      (t : List DirectoryEntry) (name : List ℕ) (s x : ℕ)
      → lookup t name ≡ some s
      → count x (owned_by hs (release t name)) + count x (s ∷ sectors_of (hs s))
        ≡ count x (owned_by hs t)
  unfolding lookup release owned_by
  owned_by-release [] name s x h = absurd (ground arith)
  owned_by-release (e ∷ t) name s x h = ground (
    arith,
    count-append x (sectors_of (hs e.sector)) (owned_by hs t),
    count-append x (sectors_of (hs e.sector)) (owned_by hs (release t name)),
    owned_by-release t name s x,
  )

  -- A header written to a sector that no file uses changes no file.
  pub owned_by-update :
      (t : List DirectoryEntry) (s : ℕ) (h : FileHeader)
      → count s (owned_by hs t) ≡ 0
      → owned_by (update hs s h) t ≡ owned_by hs t
  unfolding owned_by
  owned_by-update [] s h z = refl
  owned_by-update (e ∷ t) s h z =
      ground
        (arith, count-append s (sectors_of (hs e.sector)) (owned_by hs t), owned_by-update t s h)

-- A list whose numbers lie below a bound, each.
pub All_of_count : (n : ℕ) (l : List ℕ) → ((x : ℕ) → 0 < count x l → x < n) → All (λ x. x < n) l
All_of_count n [] h = tt
All_of_count n (x ∷ l) h = (h x (ground arith), All_of_count n l (λ y p. h y (omega arith)))

pub count_past : (n x : ℕ) (l : List ℕ) → All (λ y. y < n) l → n ≤ x → count x l ≡ 0
count_past n x [] h p = refl
count_past n x (y ∷ l) h p = ground (arith, count_past n x l h.1 p)

-- The header of a file that is found lies on the disk.
pub lookup-lt :
    (fs : FileSystem) (name : List ℕ) (s : ℕ)
    → IsConsistent fs
    → lookup fs.directory.table name ≡ some s
    → s < num_sectors
lookup-lt fs name s c h = ground (
  arith,
  c.exact s,
  lookup-owned fs.headers fs.directory.table name s s h,
  count-append s (sectors_of (fs.headers 0))
      (sectors_of (fs.headers 1) ++ owned_by fs.headers fs.directory.table),
  count-append s (sectors_of (fs.headers 1)) (owned_by fs.headers fs.directory.table),
)

pub not_minus_one : (s : ℕ) → s < num_sectors → (s == minus_one) ≡ false
not_minus_one s h = ground arith
