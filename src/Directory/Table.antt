-- ===== src/Directory/Table.antt =====
-- The table as a list of entries: what the loops of the directory compute on it.
use so_ii.Base.{
  ℕ, ◌<◌, ◌≡◌, refl, Bool, true, false, Option, none, some, List, [], ◌∷◌, if◌then◌else◌, length,
  inl, inr, Bool-cases, arith,
}
use so_ii.CString.{
  strn_equal, strncpy, length-strncpy, strn_equal_symm, strn_equal_congr, strn_equal-strncpy,
}
use so_ii.Directory.{DirectoryEntry, file_name_max_len, named}

-- The first entry in use with the name.
unfoldable pub lookup : List DirectoryEntry → List ℕ → Option ℕ
lookup [] name = none
lookup (e ∷ t) name = if named e name then some e.sector else lookup t name

-- Whether an entry is free, and the table with the first free entry filled.
unfoldable pub has_free : List DirectoryEntry → Bool
has_free [] = false
has_free (e ∷ t) = if e.in_use then has_free t else true

unfoldable pub fill : List DirectoryEntry → List ℕ → ℕ → List DirectoryEntry
fill [] name s = []
fill (e ∷ t) name s =
    if e.in_use
    then e ∷ fill t name s
    else record { in_use = true; sector = s; name = strncpy file_name_max_len e.name name } ∷ t

-- The table with the first entry of the name freed.
unfoldable pub release : List DirectoryEntry → List ℕ → List DirectoryEntry
release [] name = []
release (e ∷ t) name = if named e name then record e { in_use = false } ∷ t else e ∷ release t name

-- No two entries in use have the same name, and the name of each entry has room for ten bytes.
abbrev pub Distinct : List DirectoryEntry → Type 0
Distinct [] = Unit {0}
Distinct (e ∷ t) =
    (file_name_max_len < length e.name) × (e.in_use ≡ true → lookup t e.name ≡ none) × Distinct t

-- A name that agrees is looked up alike.
pub lookup_congr :
    (t : List DirectoryEntry) (a b : List ℕ)
    → strn_equal file_name_max_len a b ≡ true
    → lookup t a ≡ lookup t b
unfolding lookup
lookup_congr [] a b h = refl
lookup_congr (e ∷ t) a b h = ground (
  arith,
  strn_equal_symm 9 e.name a,
  strn_equal_symm 9 e.name b,
  strn_equal_congr 9 a b e.name,
  lookup_congr t a b,
)

pub lookup-fill :
    (t : List DirectoryEntry) (name other : List ℕ) (s : ℕ)
    → Distinct t
    → has_free t ≡ true
    → lookup t name ≡ none
    → lookup (fill t name s) other
      ≡ (if strn_equal file_name_max_len name other then some s else lookup t other)
unfolding lookup fill has_free
lookup-fill [] name other s d free absent = cc
lookup-fill (e ∷ t) name other s d free absent = ground (
  arith,
  strn_equal-strncpy 9 e.name name,
  strn_equal_congr 9 (strncpy 9 e.name name) name other,
  strn_equal_symm 9 e.name name,
  strn_equal_congr 9 e.name other name,
  strn_equal_symm 9 other name,
  lookup_congr t name other,
  lookup-fill t name other s,
)

pub lookup-release :
    (t : List DirectoryEntry) (name other : List ℕ)
    → Distinct t
    → lookup (release t name) other
      ≡ (if strn_equal file_name_max_len name other then none else lookup t other)
unfolding lookup release
lookup-release [] name other d = ground arith
lookup-release (e ∷ t) name other d = ground (
  arith,
  strn_equal_symm 9 e.name name,
  strn_equal_congr 9 e.name name other,
  strn_equal_congr 9 e.name other name,
  strn_equal_symm 9 other name,
  lookup_congr t e.name other,
  lookup-release t name other,
)

pub fill-Distinct :
    (t : List DirectoryEntry) (name : List ℕ) (s : ℕ)
    → Distinct t
    → has_free t ≡ true
    → lookup t name ≡ none
    → Distinct (fill t name s)
unfolding fill lookup has_free
fill-Distinct [] name s d free absent = tt
fill-Distinct (e ∷ t) name s d free absent = elim (Bool-cases e.in_use) [
  | inl used ↦ rw used (
    d.0,
    λ _. ground (arith, d.1 used, lookup-fill t name e.name s d.2, strn_equal_symm 9 e.name name),
    fill-Distinct t name s d.2 (ground arith) (ground arith),
  )
  | inr unused ↦ rw unused (
    rw (length-strncpy 9 e.name name) d.0,
    λ _. ground (
      arith,
      lookup_congr t (strncpy 9 e.name name) name
          (strn_equal-strncpy 9 e.name name (omega (arith, d.0))),
    ),
    d.2,
  )
]

pub release-Distinct :
    (t : List DirectoryEntry) (name : List ℕ) → Distinct t → Distinct (release t name)
unfolding release lookup
release-Distinct [] name d = tt
release-Distinct (e ∷ t) name d = elim (Bool-cases (named e name)) [
  | inl hit ↦ rw hit (d.0, λ p. cc, d.2)
  | inr miss ↦ rw miss (
    d.0,
    λ p. ground (arith, d.1 p, lookup-release t name e.name d.2),
    release-Distinct t name d.2,
  )
]

pub length-fill :
    (t : List DirectoryEntry) (name : List ℕ) (s : ℕ) → length (fill t name s) ≡ length t
unfolding fill
length-fill [] name s = refl
length-fill (e ∷ t) name s = ground (arith, length-fill t name s)

pub length-release : (t : List DirectoryEntry) (name : List ℕ) → length (release t name) ≡ length t
unfolding release
length-release [] name = refl
length-release (e ∷ t) name = ground (arith, length-release t name)
