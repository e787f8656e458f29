-- ===== src/FileSystem/History.antt =====
-- Any sequence of `Create`, `Open` and `Remove` on a formatted disk.
use mathlib.Core.Option
use so_ii.Base.{
  ℕ, ◌+◌, ◌≤◌, ◌<◌, ◌^◌, ◌≡◌, refl, true, none, List, [], ◌∷◌, lt→ltb, leb, Bool-cases,
  Option-cases, ◌⊎◌, inl, inr, Run, ok, ◌>>=◌, arith,
}
use so_ii.Bitmap.{div_round_up}
use so_ii.Bitmap.Find.{free_bits}
use so_ii.FileHeader.{FileHeader, max_file_size, sector_size}
use so_ii.FileHeader.Allocate.{IsShaped}
use so_ii.Directory.Table.{lookup, has_free}
use so_ii.Directory.Loops.{find-lookup}
use so_ii.FileSystem.{FileSystem, num_sectors, create, remove, open_file}
use so_ii.FileSystem.Consistent.{IsConsistent, file, lookup-lt}
use so_ii.FileSystem.Create.{create-Creates}
use so_ii.FileSystem.Refuse.{Obstacle, exists, no_entry, no_space, create_refuses}
use so_ii.FileSystem.Remove.{remove-Removes, remove_missing}

-- `Open` returns the header of the named file, positioned at its start, and null if there is none.
pub open_file-file :
    (fs : FileSystem) (name : List ℕ)
    → IsConsistent fs
    → open_file fs name
      ≡ ok (Option.map (λ h. record { header = h; seek_position = 0 }) (file fs name))
unfolding open_file file
open_file-file fs name c = elim (Option-cases (lookup fs.directory.table name)) [
  | inl e ↦ rw (find-lookup fs.directory name c.sized, e)
  | inr (s, e) ↦
      let lt = lookup-lt fs name s c e in
      rw (
        find-lookup fs.directory name c.sized,
        e,
        lt→ltb s (2 ^ 31) (omega (arith, lt)),
        lt→ltb s num_sectors lt,
      )
]

-- A call of the file system. `fresh` is the memory that the call gets for a header.
pub data Call : Type 0 where
  creates : (fresh : FileHeader) (name : List ℕ) (size : ℕ) → Call
  opens removes : (name : List ℕ) → Call

abbrev pub call : FileSystem → Call → Run FileSystem
call fs (creates fresh name size) = do (_, fs') ← create fresh fs name size; ok fs'
call fs (opens name) = do _ ← open_file fs name; ok fs
call fs (removes name) = do (_, fs') ← remove fs name; ok fs'

pub run : FileSystem → List Call → Run FileSystem
run fs [] = ok fs
run fs (c ∷ cs) = do fs' ← call fs c; run fs' cs

-- What `Create` asserts of its arguments.
abbrev pub IsLegal : Call → Type 0
IsLegal (creates fresh name size) = IsShaped fresh × (size < max_file_size)
IsLegal (opens name) = Unit {0}
IsLegal (removes name) = Unit {0}

abbrev pub AllLegal : List Call → Type 0
AllLegal [] = Unit {0}
AllLegal (c ∷ cs) = IsLegal c × AllLegal cs

module _ (fs : FileSystem) (c : IsConsistent fs) where
  obstacle? :
      (fresh : FileHeader) (name : List ℕ) (size : ℕ)
      → Obstacle fs name size
        ⊎ ((file fs name ≡ none)
            × (has_free fs.directory.table ≡ true)
            × (1 + div_round_up size sector_size ≤ free_bits fs.free_map))
  obstacle? fresh name size = elim (Option-cases (file fs name)) [
    | inr (h, e) ↦ inl (exists h e)
    | inl absent ↦ elim (Bool-cases (has_free fs.directory.table)) [
      | inr full ↦ inl (no_entry full)
      | inl room ↦
          elim (Bool-cases (leb (1 + div_round_up size sector_size) (free_bits fs.free_map))) [
            | inl enough ↦ inr (absent, room, ground arith)
            | inr few ↦ inl (no_space (ground arith))
          ]
    ]
  ]

  call-IsConsistent :
      (k : Call) → IsLegal k → (fs' : FileSystem) × (call fs k ≡ ok fs') × IsConsistent fs'
  call-IsConsistent (opens name) h = (fs, rw (open_file-file fs name c), c)
  call-IsConsistent (removes name) h = elim (Option-cases (file fs name)) [
    | inl absent ↦ (fs, rw (remove_missing fs name c absent), c)
    | inr (x, e) ↦ let (fs', run, r) = remove-Removes fs name x c e in (fs', rw run, r.consistent)
  ]
  call-IsConsistent (creates fresh name size) h = elim (obstacle? fresh name size) [
    | inl o ↦ (fs, rw (create_refuses fresh fs name size c h.1 o), c)
    | inr (absent, room, enough) ↦
        let (fs', run, r) = create-Creates fresh fs name size h.0 c h.1 absent room enough in
        (fs', rw run, r.consistent)
  ]

-- From a consistent file system, every sequence of legal calls runs to its end without a failed
-- assertion or a stray access, and the file system stays consistent.
pub run-IsConsistent :
    (cs : List Call) (fs : FileSystem)
    → IsConsistent fs
    → AllLegal cs
    → (fs' : FileSystem) × (run fs cs ≡ ok fs') × IsConsistent fs'
unfolding run
run-IsConsistent [] fs c h = (fs, refl, c)
run-IsConsistent (k ∷ cs) fs c h =
    let (fs₁, step, c₁) = call-IsConsistent fs c k h.0 in
    let (fs₂, rest, c₂) = run-IsConsistent cs fs₁ c₁ h.1 in (fs₂, rw step rest, c₂)
