-- ===== src/Directory/Create.antt =====
-- The constructor of `Directory`: whatever its entries hold at first, none is in use.
use mathlib.Core.List.{append_assoc}
use mathlib.Core.Path.{subst}
use so_ii.Base.{
  ℕ, suc, ◌+◌, ◌<◌, ◌≡◌, refl, ap, true, false, none, List, [], ◌∷◌, ◌++◌, map, lt→ltb, length,
  length-append, All, ok, arith,
}
use so_ii.Directory.{DirectoryEntry, file_name_max_len, clear_entries, new_directory}
use so_ii.Directory.Table.{lookup, has_free, Distinct}
use so_ii.Directory.Loops.{read_at-append, write_at-append}

abbrev pub unused : DirectoryEntry → DirectoryEntry
unused e = record e { in_use = false }

clear_entries-unused :
    (back front : List DirectoryEntry) (i : ℕ)
    → i ≡ length front
    → clear_entries (length back) i (front ++ back) ≡ ok (front ++ map unused back)
unfolding clear_entries
clear_entries-unused [] front i here = refl
clear_entries-unused (e ∷ back) front i here =
    rw (here, read_at-append front e back, write_at-append front e (unused e) back)
      (subst
        (λ t.
          clear_entries (length back) (length front + 1) t
          ≡ ok (front ++ unused e ∷ map unused back))
        (append_assoc front (unused e ∷ []) back)
        (rw (append_assoc front (unused e ∷ []) (map unused back)) at (
          clear_entries-unused back (front ++ unused e ∷ []) (length front + 1)
            (omega (arith, length-append front (unused e ∷ []))))))

pub new_directory-unused :
    (entries : List DirectoryEntry) (size : ℕ)
    → 0 < size
    → length entries ≡ size
    → new_directory size entries ≡ ok (record { table_size = size; table = map unused entries })
unfolding new_directory
new_directory-unused entries size pos full = rw (lt→ltb 0 size pos) (
    rw (
      subst (λ n. clear_entries n 0 entries ≡ ok (map unused entries)) full
        (clear_entries-unused entries [] 0 refl)))

pub length-unused : (t : List DirectoryEntry) → length (map unused t) ≡ length t
length-unused [] = refl
length-unused (e ∷ t) = ap suc (length-unused t)

pub lookup-unused : (t : List DirectoryEntry) (name : List ℕ) → lookup (map unused t) name ≡ none
unfolding lookup
lookup-unused [] name = refl
lookup-unused (e ∷ t) name = lookup-unused t name

pub Distinct-unused :
    (t : List DirectoryEntry)
    → All (λ e. file_name_max_len < length e.name) t
    → Distinct (map unused t)
Distinct-unused [] h = tt
Distinct-unused (e ∷ t) h = (h.0, (λ _. lookup-unused t e.name), Distinct-unused t h.1)

pub has_free-unused : (t : List DirectoryEntry) → 0 < length t → has_free (map unused t) ≡ true
unfolding has_free
has_free-unused [] h = absurd (omega arith)
has_free-unused (e ∷ t) h = refl

pub All-unused : (t : List DirectoryEntry) → All (λ e. e.in_use ≡ false) (map unused t)
All-unused [] = tt
All-unused (e ∷ t) = (refl, All-unused t)
