-- ===== src/Table/Add.antt =====
-- `Add` gives a fresh index, and `Get` finds the item there and all other items as before.
use mathlib.Core.Path.{subst}
use so_ii.Base.{
  ℕ, zero, suc, ◌+◌, ◌≤◌, ◌<◌, ◌≡◌, refl, ap, sym, ◌∙◌, false, List, [], ◌∷◌, ◌⊎◌, inl, inr, length,
  length-set, set, ltb, ◌==◌, Bool-cases, lt→ltb, le→ltb, ok, read_at, write_at-set, arith,
}
use so_ii.Base.Int.{ℤ, pos, negsuc, ◌-ℤ◌, add_one}
use so_ii.LinkedList.{ListElement, is_empty, pop, sorted_pop, has, has_node}
use so_ii.Table.{Table, equal_ℤ, add, has_key, get}

-- The nodes name indices below `n`, each once.
abbrev pub AreFreed : ℕ → List (ListElement ℤ) → Type 0
AreFreed n [] = Unit {0}
AreFreed n (e ∷ es) =
    ((k : ℕ) × (e.item ≡ pos k) × (k < n) × (has_node equal_ℤ (pos k) es ≡ false)) × AreFreed n es

pub record IsValid {ℓ} {A : Type ℓ} (t : Table A) : Type ℓ where
  pub bound : ℕ
  pub current : t.current ≡ pos bound
  pub small : bound ≤ 20
  pub full : length t.data_items ≡ 20
  pub freed : AreFreed bound t.freed.nodes

AreFreed-suc : (n : ℕ) (es : List (ListElement ℤ)) → AreFreed n es → AreFreed (suc n) es
AreFreed-suc n [] h = tt
AreFreed-suc n (e ∷ es) (((k, is, lt, once)), h) = ((k, is, omega arith, once), AreFreed-suc n es h)

-- An index past the others is not freed.
fresh : (n : ℕ) (es : List (ListElement ℤ)) → AreFreed n es → has_node equal_ℤ (pos n) es ≡ false
unfolding has_node
fresh n [] h = refl
fresh n (e ∷ es) ((k, is, lt, once), h) = rw is (ground (arith, fresh n es h))

module _ {ℓ} {A : Type ℓ} where
  read_at-set : (xs : List A) (i : ℕ) (x : A) → i < length xs → read_at (set xs i x) i ≡ ok x
  read_at-set [] i x h = absurd (omega arith)
  read_at-set (y ∷ xs) zero x h = refl
  read_at-set (y ∷ xs) (suc i) x h = read_at-set xs i x (omega arith)

  read_at-set_other :
      (xs : List A) (i j : ℕ) (x : A) → (i == j) ≡ false → read_at (set xs i x) j ≡ read_at xs j
  read_at-set_other [] i j x h = refl
  read_at-set_other (y ∷ xs) zero zero x h = absurd (ground arith)
  read_at-set_other (y ∷ xs) zero (suc j) x h = refl
  read_at-set_other (y ∷ xs) (suc i) zero x h = refl
  read_at-set_other (y ∷ xs) (suc i) (suc j) x h = read_at-set_other xs i j x (ground arith)

  -- What a successful `Add` did: the index had no item, and has the new one; every other index
  -- gives what it gave before.
  pub record Adds (default : A) (t : Table A) (item : A) (i : ℕ) (t' : Table A) : Type ℓ where
    pub runs : add t item ≡ ok (pos i, t')
    pub absent : has_key t (pos i) ≡ ok false
    pub there : get default t' (pos i) ≡ ok item
    pub others : (j : ℕ) → (i == j) ≡ false → get default t' (pos j) ≡ get default t (pos j)
    pub valid : IsValid t'

  -- The table with its parts spelled out.
  abbrev table : List A → ℕ → List (ListElement ℤ) → ℤ → Table A
  table items n nodes size = record {
    data_items = items;
    current = pos n;
    freed = record { nodes = nodes; size = size };
  }

  reuse-Adds :
      (default item : A) (items : List A) (n k : ℕ) (e : ListElement ℤ) (es : List (ListElement ℤ))
      (size size' : ℤ)
      → length items ≡ 20
      → n ≤ 20
      → e.item ≡ pos k
      → k < n
      → has_node equal_ℤ (pos k) es ≡ false
      → AreFreed n es
      → add (table items n (e ∷ es) size) item ≡ ok (pos k, table (set items k item) n es size')
      → Adds default (table items n (e ∷ es) size) item k (table (set items k item) n es size')
  unfolding has_key get has has_node
  reuse-Adds default item items n k e es size size' full small is lt once h run = record {
    runs = run;
    absent = rw is (ground arith);
    there =
        rw (once, lt→ltb (k + 0) (n + 0) (omega arith))
          (read_at-set items k item (omega (arith, full)));
    others = λ j other. rw (is, read_at-set_other items k j item other) (ground arith);
    valid = record {
      bound = n;
      current = refl;
      small = small;
      full = length-set items k item ∙ full;
      freed = h;
    };
  }

  extend-Adds :
      (default item : A) (items : List A) (n : ℕ) (es : List (ListElement ℤ)) (size : ℤ)
      → length items ≡ 20
      → n < 20
      → AreFreed n es
      → add (table items n es size) item ≡ ok (pos n, table (set items n item) (suc n) es size)
      → Adds default (table items n es size) item n (table (set items n item) (suc n) es size)
  unfolding has_key get has
  extend-Adds default item items n es size full small h run = record {
    runs = run;
    absent = ground arith;
    there =
        rw (fresh n es h, lt→ltb (n + 0) (suc n + 0) (omega arith))
          (read_at-set items n item (omega (arith, full)));
    others = λ j other. rw (read_at-set_other items n j item other) (ground arith);
    valid = record {
      bound = suc n;
      current = refl;
      small = small;
      full = length-set items n item ∙ full;
      freed = AreFreed-suc n es h;
    };
  }

  abbrev Result : A → A → Table A → Type ℓ
  Result default item t =
      ((t.freed.nodes ≡ []) × (t.current ≡ pos 20) × (add t item ≡ ok (negsuc 0, t)))
      ⊎ ((i : ℕ) × (t' : Table A) × Adds default t item i t')

  table-Result :
      (default item : A) (items : List A) (n : ℕ) (nodes : List (ListElement ℤ)) (size : ℤ)
      → length items ≡ 20
      → n ≤ 20
      → AreFreed n nodes
      → Result default item (table items n nodes size)
  unfolding add pop sorted_pop is_empty
  table-Result default item items n (e ∷ es) size full small ((k, is, lt, once), h) = inr (
    k,
    _,
    reuse-Adds default item items n k e es size (size -ℤ pos 1) full small is lt once h
        (rw (is, write_at-set items k item (omega (arith, full))) refl),
  )
  table-Result default item items n [] size full small h = elim (Bool-cases (ltb n 20)) [
    | inl room ↦ inr (
      n,
      _,
      extend-Adds default item items n [] size full (ground arith) h (
          rw
            (
              lt→ltb (n + 0) 20 (ground arith),
              write_at-set items n item (ground (arith, full)),
              add_one n,
            )
            refl),
    )
    | inr none_left ↦ inl (refl, ap pos (ground arith), rw (le→ltb (n + 0) 20 (ground arith)) refl)
  ]

  -- On a valid table, `Add` returns -1 and changes nothing if no index is freed and all twenty are
  -- taken. Otherwise it returns an index that had no item: `Get` then returns the new item there,
  -- and for every other index what it returned before, and the table stays valid.
  pub add-Adds :
      (default item : A) (t : Table A)
      → IsValid t
      → ((t.freed.nodes ≡ []) × (t.current ≡ pos 20) × (add t item ≡ ok (negsuc 0, t)))
        ⊎ ((i : ℕ) × (t' : Table A) × Adds default t item i t')
  add-Adds default item t v =
      subst
        (λ c.
          Result default item (record { data_items = t.data_items; current = c; freed = t.freed }))
        (sym v.current)
        (table-Result default item t.data_items v.bound t.freed.nodes t.freed.size v.full v.small
          v.freed)
