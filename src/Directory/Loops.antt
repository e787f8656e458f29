-- ===== src/Directory/Loops.antt =====
-- The loops of the directory, run on a table, compute `lookup`, `fill` and `release`.
use mathlib.Core.Path.{subst}
use mathlib.Core.List.{append-nil, append_assoc}
use so_ii.Base.{
  ℕ, ◌+◌, ◌≡◌, refl, sym, ◌∙◌, ap, Bool, true, false, Option, none, some, List, [], ◌∷◌, ◌++◌,
  if◌then◌else◌, length, length-append, inl, inr, Bool-cases, ok, read_at, write_at, arith,
}
use so_ii.CString.{strncpy}
use so_ii.Directory.{
  file_name_max_len, DirectoryEntry, Directory, named, minus_one, find_index_from, find_index, find,
  add_from, add, remove,
}
use so_ii.Directory.Table.{lookup, has_free, fill, release}

-- The table that the methods run on has as many entries as it says.
abbrev pub IsSized : Directory → Type 0
IsSized d = length d.table ≡ d.table_size

module _ {ℓ} {A : Type ℓ} where
  pub read_at-append :
      (xs : List A) (y : A) (ys : List A) → read_at (xs ++ y ∷ ys) (length xs) ≡ ok y
  read_at-append [] y ys = refl
  read_at-append (x ∷ xs) y ys = read_at-append xs y ys

  pub write_at-append :
      (xs : List A) (y v : A) (ys : List A)
      → write_at (xs ++ y ∷ ys) (length xs) v ≡ ok (xs ++ v ∷ ys)
  write_at-append [] y v ys = refl
  write_at-append (x ∷ xs) y v ys = rw (write_at-append xs y v ys)

-- Where the first entry of the name stands.
index : List DirectoryEntry → List ℕ → ℕ → Option ℕ
index [] name i = none
index (e ∷ t) name i = if named e name then some i else index t name (i + 1)

-- What the loop of `FindIndex` finds in `back`, which stands at index `length front` of the table.
data Finds (front back : List DirectoryEntry) (name : List ℕ) : Option ℕ → Type 0 where
  absent : lookup back name ≡ none → release back name ≡ back → Finds front back name none
  present :
      (mid : List DirectoryEntry) (e : DirectoryEntry) (rest : List DirectoryEntry) {i : ℕ}
      → back ≡ mid ++ e ∷ rest
      → i ≡ length (front ++ mid)
      → lookup back name ≡ some e.sector
      → release back name ≡ mid ++ record e { in_use = false } ∷ rest
      → Finds front back name (some i)

find_index_from-Finds :
    (back front : List DirectoryEntry) (i : ℕ) (d : Directory) (name : List ℕ)
    → d.table ≡ front ++ back
    → i ≡ length front
    → (o : Option ℕ) × (find_index_from (length back) i d name ≡ ok o) × Finds front back name o
unfolding find_index_from lookup release
find_index_from-Finds [] front i d name whole here = (none, refl, absent refl refl)
find_index_from-Finds (e ∷ back) front i d name whole here = elim (Bool-cases (named e name)) [
  | inl hit ↦ (
    some i,
    rw (current, hit),
    present [] e back refl (here ∙ ap length (sym (append-nil front))) (rw hit) (rw hit),
  )
  | inr miss ↦
      let (o, run, f) =
        find_index_from-Finds back (front ++ e ∷ []) (i + 1) d name
          (whole ∙ sym (append_assoc front (e ∷ []) back))
          (rw (here, length-append front (e ∷ [])) (omega arith)) in
      (o, rw (current, miss) run, shift miss f)
]
  where
    current : read_at d.table i ≡ ok e
    current = rw (whole, here) (read_at-append front e back)

    shift :
        named e name ≡ false
        → {o : Option ℕ} → Finds (front ++ e ∷ []) back name o
        → Finds front (e ∷ back) name o
    shift miss (absent l r) = absent (rw miss l) (rw (miss, r))
    shift miss (present mid x rest split at l r) =
        present (e ∷ mid) x rest (ap (◌∷◌ e) split)
          (at ∙ ap length (append_assoc front (e ∷ []) mid)) (rw miss l) (rw (miss, r))

find_index-Finds :
    (d : Directory) (name : List ℕ)
    → IsSized d
    → (o : Option ℕ) × (find_index d name ≡ ok o) × Finds [] d.table name o
unfolding find_index
find_index-Finds d name sized =
    subst (λ n. (o : Option ℕ) × (find_index_from n 0 d name ≡ ok o) × Finds [] d.table name o)
      sized (find_index_from-Finds d.table [] 0 d name refl refl)

abbrev pub found : Option ℕ → ℕ
found none = minus_one
found (some s) = s

-- `Find` returns the sector of the first entry in use with the name, or -1.
pub find-lookup :
    (d : Directory) (name : List ℕ) → IsSized d → find d name ≡ ok (found (lookup d.table name))
unfolding find
find-lookup d name sized = go (find_index-Finds d name sized)
  where
    go :
        (o : Option ℕ) × (find_index d name ≡ ok o) × Finds [] d.table name o
        → find d name ≡ ok (found (lookup d.table name))
    go (none, run, absent l _) = rw (run, l)
    go (some i, run, present mid e rest split at l _) =
        rw (run, l, split, at) (rw (read_at-append mid e rest))

-- What `Remove` and `Add` return, given the sector under which the name is found.
abbrev pub removed : Directory → List ℕ → Option ℕ → Bool × Directory
removed d name none = (false, d)
removed d name (some s) = (true, record d { table = release d.table name })

abbrev pub added : Directory → List ℕ → ℕ → Option ℕ → Bool × Directory
added d name new_sector (some s) = (false, d)
added d name new_sector none =
    if has_free d.table
    then (true, record d { table = fill d.table name new_sector })
    else (false, d)

-- `Remove` frees the entry that `Find` finds, and reports whether there is one.
pub remove-release :
    (d : Directory) (name : List ℕ)
    → IsSized d
    → remove d name ≡ ok (removed d name (lookup d.table name))
unfolding remove
remove-release d name sized = go (find_index-Finds d name sized)
  where
    go :
        (o : Option ℕ) × (find_index d name ≡ ok o) × Finds [] d.table name o
        → remove d name ≡ ok (removed d name (lookup d.table name))
    go (none, run, absent l _) = rw (run, l)
    go (some i, run, present mid e rest split at l r) =
        rw (run, l, r, split, at)
          (rw (read_at-append mid e rest, write_at-append mid e (record e { in_use = false }) rest))

add_from-fill :
    (back front : List DirectoryEntry) (i : ℕ) (d : Directory) (name : List ℕ) (s : ℕ)
    → d.table ≡ front ++ back
    → i ≡ length front
    → add_from (length back) i d name s
      ≡ ok (
          if has_free back
          then (true, record d { table = front ++ fill back name s })
          else (false, d))
unfolding add_from has_free fill
add_from-fill [] front i d name s whole here = refl
add_from-fill (e ∷ back) front i d name s whole here = elim (Bool-cases e.in_use) [
  | inl used ↦
      simp (current, used)
        (rw (append_assoc front (e ∷ []) (fill back name s)) at (
          add_from-fill back (front ++ e ∷ []) (i + 1) d name s
            (whole ∙ sym (append_assoc front (e ∷ []) back))
            (rw (here, length-append front (e ∷ [])) (omega arith))))
  | inr unused ↦ rw (current, unused, written)
]
  where
    current : read_at d.table i ≡ ok e
    current = rw (whole, here) (read_at-append front e back)

    e' : DirectoryEntry
    e' = record { in_use = true; sector = s; name = strncpy file_name_max_len e.name name }

    written : write_at d.table i e' ≡ ok (front ++ e' ∷ back)
    written = rw (whole, here) (write_at-append front e e' back)

-- `Add` refuses a name that is there and a full table, and otherwise fills the first free entry.
pub add-fill :
    (d : Directory) (name : List ℕ) (s : ℕ)
    → IsSized d
    → add d name s ≡ ok (added d name s (lookup d.table name))
unfolding add
add-fill d name s sized = go (find_index-Finds d name sized)
  where
    whole_run : add_from d.table_size 0 d name s ≡ ok (added d name s none)
    whole_run =
        subst (λ n. add_from n 0 d name s ≡ ok (added d name s none)) sized
          (add_from-fill d.table [] 0 d name s refl refl)

    go :
        (o : Option ℕ) × (find_index d name ≡ ok o) × Finds [] d.table name o
        → add d name s ≡ ok (added d name s (lookup d.table name))
    go (none, run, absent l _) = rw (run, l) whole_run
    go (some i, run, present mid e rest split at l r) = rw (run, l)
