-- ===== src/FileSystem/Refuse.antt =====
-- When `Create` fails: it returns false and leaves the disk as it was.
use so_ii.Base.{
  ℕ, ◌+◌, ◌<◌, ◌≡◌, false, none, some, List, lt→ltb, ok, ◌>>=◌, arith, Option-cases, Bool-cases,
  ◌⊎◌, inl, inr,
}
use so_ii.Bitmap.{div_round_up}
use so_ii.Bitmap
use so_ii.Bitmap.View.{marked, marked-IsValid}
use so_ii.Bitmap.Find.{free_bits, FindsAt, find_lem}
use so_ii.FileHeader.{FileHeader, sector_size, max_file_size}
use so_ii.FileHeader.Allocate.{allocate_refuses}
use so_ii.Directory.Table.{lookup, has_free}
use so_ii.Directory.Loops.{find-lookup, add-fill}
use so_ii.FileSystem.{FileSystem, create, create_entry}
use so_ii.FileSystem.Consistent.{IsConsistent, file, lookup-lt, not_minus_one}

-- Why `Create` refuses a file, beside the size that it asserts.
pub data Obstacle (fs : FileSystem) (name : List ℕ) (size : ℕ) : Type 0 where
  exists : (h : FileHeader) → file fs name ≡ some h → Obstacle fs name size
  no_entry : has_free fs.directory.table ≡ false → Obstacle fs name size
  no_space : free_bits fs.free_map < 1 + div_round_up size sector_size → Obstacle fs name size

module _ (fresh : FileHeader) (fs : FileSystem) (name : List ℕ) (size : ℕ)
    (c : IsConsistent fs) where
  entry_refused :
      (k : ℕ)
      → FindsAt fs.free_map k
      → lookup fs.directory.table name ≡ none
      → (has_free fs.directory.table ≡ false)
        ⊎ (free_bits fs.free_map < 1 + div_round_up size sector_size)
      → create_entry fresh fs name size (marked fs.free_map k, some k) ≡ ok (false, fs)
  entry_refused k f absent (inl full) = simp (add-fill fs.directory name k c.sized, absent, full)
  entry_refused k f absent (inr few) =
      let (h, run) =
        allocate_refuses fresh (marked fs.free_map k) size (marked-IsValid fs.free_map k c.valid)
          (inr (omega (arith, f.fewer))) in
      elim (Bool-cases (has_free fs.directory.table)) [
        | inl room ↦ simp (add-fill fs.directory name k c.sized, absent, room, run)
        | inr full ↦ simp (add-fill fs.directory name k c.sized, absent, full)
      ]

  found_refused :
      lookup fs.directory.table name ≡ none
      → (has_free fs.directory.table ≡ false)
        ⊎ (free_bits fs.free_map < 1 + div_round_up size sector_size)
      → (Bitmap.find fs.free_map >>= create_entry fresh fs name size) ≡ ok (false, fs)
  found_refused absent why = elim (find_lem fs.free_map c.valid) [
    | inl (_, none_left) ↦ rw none_left
    | inr (k, f) ↦ rw (f.returns) (entry_refused k f absent why)
  ]

  -- A file that is found has a sector of the disk, so that `Find` did not return -1.
  exists_refused :
      (s : ℕ)
      → size < max_file_size
      → lookup fs.directory.table name ≡ some s
      → create fresh fs name size ≡ ok (false, fs)
  unfolding create
  exists_refused s small e =
      rw (lt→ltb size max_file_size small, find-lookup fs.directory name c.sized, e)
        (rw (not_minus_one s (lookup-lt fs name s c e)))

  no_entry_or_space :
      size < max_file_size
      → lookup fs.directory.table name ≡ none
      → (has_free fs.directory.table ≡ false)
        ⊎ (free_bits fs.free_map < 1 + div_round_up size sector_size)
      → create fresh fs name size ≡ ok (false, fs)
  unfolding create
  no_entry_or_space small absent why =
      rw (lt→ltb size max_file_size small, find-lookup fs.directory name c.sized, absent)
        (found_refused absent why)

-- In a consistent file system, below the largest file size: if the file exists, if the directory
-- has no free entry, or if there are too few free sectors for header and data, then `Create` trips
-- no assertion, returns false, and changes nothing on the disk.
pub create_refuses :
    (fresh : FileHeader) (fs : FileSystem) (name : List ℕ) (size : ℕ)
    → IsConsistent fs
    → size < max_file_size
    → Obstacle fs name size
    → create fresh fs name size ≡ ok (false, fs)
unfolding file
create_refuses fresh fs name size c small o = go o (Option-cases (lookup fs.directory.table name))
  where
    go :
        Obstacle fs name size
        → (lookup fs.directory.table name ≡ none)
          ⊎ ((s : ℕ) × (lookup fs.directory.table name ≡ some s))
        → create fresh fs name size ≡ ok (false, fs)
    go o (inr (s, e)) = exists_refused fresh fs name size c s small e
    go (exists h e) (inl absent) = absurd (ground arith)
    go (no_entry full) (inl absent) = no_entry_or_space fresh fs name size c small absent (inl full)
    go (no_space few) (inl absent) = no_entry_or_space fresh fs name size c small absent (inr few)
