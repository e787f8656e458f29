-- ===== src/FileSystem/Remove.antt =====
-- `Remove` keeps the file system consistent, and takes away just the named file.
use so_ii.Base.{
  ℕ, ◌+◌, ◌≤◌, ◌<◌, ◌≡◌, ◌∙◌, true, false, ◌&&◌, none, some, List, ◌∷◌, ◌++◌, ltb, lt→ltb,
  if◌then◌else◌, to_nat, length, count, count-append, ok, arith, Option-cases, ◌⊎◌, inl, inr,
}
use so_ii.CString.{strn_equal}
use so_ii.Bitmap.{Bitmap}
use so_ii.Bitmap.View.{IsValid, is_set, cleared, cleared-IsValid, clear-cleared, is_set-cleared}
use so_ii.Bitmap.Find.{free_bits, clears-cleared}
use so_ii.FileHeader.{FileHeader, deallocate}
use so_ii.Bitmap.Takes.{Takes}
use so_ii.FileHeader.Allocate.{sectors_of}
use so_ii.FileHeader.Deallocate.{IsHeld, deallocate-Takes}
use so_ii.Directory.{minus_one}
use so_ii.Directory
use so_ii.Directory.Table.{length-release, lookup, release, lookup-release, release-Distinct}
use so_ii.Directory.Loops.{find-lookup, remove-release}
use so_ii.FileSystem.{FileSystem, num_sectors, remove, remove_found}
use so_ii.FileSystem.Consistent.{
  owned_by, owned, IsConsistent, file, owned_by-release, All_of_count, lookup-lt, not_minus_one,
}

module _ (fs : FileSystem) (name : List ℕ) (s : ℕ) (c : IsConsistent fs)
    (hit : lookup fs.directory.table name ≡ some s) where
  table : List Directory.DirectoryEntry
  table = fs.directory.table

  data_sectors : List ℕ
  data_sectors = sectors_of (fs.headers s)

  -- How often a sector is used before, by the file and by the rest.
  owned_split :
      (x : ℕ)
      → count x (owned fs)
        ≡ count x (
            owned (record fs {
              directory = record fs.directory { table = release fs.directory.table name };
            }))
          + count x (s ∷ data_sectors)
  unfolding data_sectors
  owned_split x = ground (
    arith,
    count-append x (sectors_of (fs.headers 0))
        (sectors_of (fs.headers 1) ++ owned_by fs.headers fs.directory.table),
    count-append x (sectors_of (fs.headers 1)) (owned_by fs.headers fs.directory.table),
    count-append x (sectors_of (fs.headers 0))
        (sectors_of (fs.headers 1) ++ owned_by fs.headers (release fs.directory.table name)),
    count-append x (sectors_of (fs.headers 1))
        (owned_by fs.headers (release fs.directory.table name)),
    owned_by-release fs.headers fs.directory.table name s x hit,
  )

  used_once :
      (x : ℕ) → count x (s ∷ data_sectors) ≤ to_nat (ltb x num_sectors && is_set fs.free_map x)
  used_once x = omega (arith, c.exact x, owned_split x)

  sector_lt : s < num_sectors
  sector_lt = lookup-lt fs name s c hit

  data-IsHeld : IsHeld fs.free_map data_sectors
  data-IsHeld = record {
    in_range =
        All_of_count fs.free_map.num_bits data_sectors
          (λ x p. ground (arith, used_once x, c.width));
    once = λ x. ground (arith, used_once x);
  }

  -- What `Remove` leaves, once the data sectors are freed in `bm`.
  removed_state : Bitmap → FileSystem
  removed_state bm = record fs {
    free_map = cleared bm s;
    directory = record fs.directory { table = release fs.directory.table name };
  }

  module _ (bm : Bitmap) (v : IsValid bm) (t : Takes bm data_sectors fs.free_map) where
    sector_lt_bits : s < bm.num_bits
    sector_lt_bits = omega (arith, sector_lt, t.width, c.width)

    removed_state-IsConsistent : IsConsistent (removed_state bm)
    unfolding removed_state
    removed_state-IsConsistent = record {
      valid = cleared-IsValid bm s v;
      width = omega (arith, t.width, c.width);
      sized = length-release fs.directory.table name ∙ c.sized;
      ten = c.ten;
      distinct = release-Distinct fs.directory.table name c.distinct;
      shaped = c.shaped;
      fits = λ other x e.
          c.fits other x (ground (arith, lookup-release fs.directory.table name other c.distinct));
      exact = λ x. ground (
        arith,
        c.exact x,
        owned_split x,
        t.exact x,
        used_once x,
        is_set-cleared bm s v sector_lt_bits x,
      );
    }

    remove_found-run :
        deallocate (fs.headers s) fs.free_map ≡ ok bm
        → remove_found fs name s ≡ ok (true, removed_state bm)
    unfolding removed_state
    remove_found-run run = rw (
      lt→ltb s num_sectors sector_lt,
      run,
      clear-cleared bm s v sector_lt_bits,
      remove-release fs.directory name c.sized,
      hit,
    )

    removed_state-file :
        (other : List ℕ)
        → file (removed_state bm) other ≡ (if strn_equal 9 name other then none else file fs other)
    unfolding removed_state file
    removed_state-file other =
        rw (lookup-release fs.directory.table name other c.distinct) (ground arith)

    removed_state-free :
        free_bits (removed_state bm).free_map ≡ free_bits fs.free_map + 1 + length data_sectors
    unfolding removed_state
    removed_state-free = omega (
      arith,
      t.fewer,
      clears-cleared bm s v sector_lt_bits bm.num_bits 0 (omega arith)
          (omega (arith, sector_lt_bits)) (ground (arith, t.exact s, used_once s)),
    )

-- What a successful `Remove` did: the named file is gone and all others are as they were, and its
-- sectors are free again.
pub record Removes (fs : FileSystem) (name : List ℕ) (h : FileHeader) (fs' : FileSystem)
    : Type 0 where
  pub consistent : IsConsistent fs'
  pub files :
      (other : List ℕ) → file fs' other ≡ (if strn_equal 9 name other then none else file fs other)
  pub freed : free_bits fs'.free_map ≡ free_bits fs.free_map + 1 + length (sectors_of h)

-- In a consistent file system, `Remove` of a file that exists trips no assertion and returns true.
-- It leaves the file system consistent, the named file gone and every other file as it was, and
-- frees the sector of the header and those of the data.
pub remove-Removes :
    (fs : FileSystem) (name : List ℕ) (h : FileHeader)
    → IsConsistent fs
    → file fs name ≡ some h
    → (fs' : FileSystem) × (remove fs name ≡ ok (true, fs')) × Removes fs name h fs'
unfolding remove file
remove-Removes fs name h c present = go (Option-cases (lookup fs.directory.table name))
  where
    go :
        (lookup fs.directory.table name ≡ none)
          ⊎ ((s : ℕ) × (lookup fs.directory.table name ≡ some s))
        → (fs' : FileSystem) × (remove fs name ≡ ok (true, fs')) × Removes fs name h fs'
    go (inl e) = absurd (ground arith)
    go (inr (s, e)) =
        let (bm, run, v, t) =
          deallocate-Takes (fs.headers s) fs.free_map c.valid
            (omega (arith, c.shaped s, c.fits name s e))
            (unfold data_sectors in data-IsHeld fs name s c e) in
        let t' : Takes bm (data_sectors fs name s c e) fs.free_map = (unfold data_sectors in t) in
        let same : fs.headers s ≡ h = ground arith in
        (
          removed_state fs name s c e bm,
          rw (find-lookup fs.directory name c.sized, e)
              (rw (not_minus_one s (sector_lt fs name s c e))
                (remove_found-run fs name s c e bm v t' run)),
          record {
            consistent = removed_state-IsConsistent fs name s c e bm v t';
            files = removed_state-file fs name s c e bm v t';
            freed = rw (← same) (unfold data_sectors in removed_state-free fs name s c e bm v t');
          },
        )

-- `Remove` of a name that no file has returns false and changes nothing.
pub remove_missing :
    (fs : FileSystem) (name : List ℕ)
    → IsConsistent fs
    → file fs name ≡ none
    → remove fs name ≡ ok (false, fs)
unfolding remove file
remove_missing fs name c absent =
    let e : lookup fs.directory.table name ≡ none = ground arith in
    rw (find-lookup fs.directory name c.sized, e)
