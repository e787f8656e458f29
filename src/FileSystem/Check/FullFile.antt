-- ===== src/FileSystem/Check/FullFile.antt =====
-- A file that uses every sector pointer of its header does not pass `Check`: it asks for
-- `numSectors < NUM_DIRECT`, while `Allocate` hands out up to `NUM_DIRECT` sectors.
use so_ii.Base.{
  ℕ, ◌≡◌, refl, Bool, true, false, some, none, List, [], ◌∷◌, ◌++◌, if◌then◌else◌, length, ◌↔◌,
  Option-cases, ◌⊎◌, inl, inr, ok, arith,
}
use so_ii.Bitmap.{bits_in_word, div_round_up}
use so_ii.FileHeader.{FileHeader, num_direct}
use so_ii.Directory.{DirectoryEntry}
use so_ii.Directory.Table.{lookup}
use so_ii.FileSystem.{FileSystem, num_sectors}
use so_ii.FileSystem.Consistent.{file}
use so_ii.FileSystem.Check.{check}
use so_ii.FileSystem.Check.Entries.{has_entry_error, is_known}
use so_ii.FileSystem.Check.Passes.{IsCheckable, Passes, check_iff}

full_entry :
    (hs : ℕ → FileHeader) (t : List DirectoryEntry) (names : List (List ℕ)) (name : List ℕ) (s : ℕ)
    → lookup t name ≡ some s
    → (hs s).num_sectors ≡ num_direct
    → has_entry_error hs names t ≡ true
unfolding lookup has_entry_error
full_entry hs [] names name s h n = absurd (ground arith)
full_entry hs (e ∷ t) names name s h n = ground (
  arith,
  full_entry hs t names name s,
  full_entry hs t (if is_known names e.name then names else names ++ e.name ∷ []) name s,
)

-- On a file system whose structures have the right lengths and whose headers and names stay within
-- their arrays and the disk, `Check` returns false if a file has all `NUM_DIRECT` sectors.
pub check_rejects_full :
    (words : List ℕ) (fs : FileSystem) (name : List ℕ) (h : FileHeader)
    → length words ≡ div_round_up num_sectors bits_in_word
    → IsCheckable fs
    → file fs name ≡ some h
    → h.num_sectors ≡ num_direct
    → check words fs ≡ ok false
unfolding file
check_rejects_full words fs name h full k present n =
    go (check_iff words fs full k) (Option-cases (lookup fs.directory.table name))
  where
    go :
        (b : Bool) × (check words fs ≡ ok b) × ((b ≡ true) ↔ Passes fs)
        → (lookup fs.directory.table name ≡ none)
          ⊎ ((s : ℕ) × (lookup fs.directory.table name ≡ some s))
        → check words fs ≡ ok false
    go (false, run, _) _ = run
    go (true, run, i) (inl absent) = absurd (ground arith)
    go (true, run, i) (inr (s, e)) = absurd (
        ground (
          arith,
          (i.0 refl).entries,
          full_entry fs.headers fs.directory.table [] name s e (ground arith),
        ))
