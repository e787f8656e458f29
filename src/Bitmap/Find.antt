-- ===== src/Bitmap/Find.antt =====
-- `Find` and `CountClear` against the bits.
use so_ii.Base.{
  ℕ, zero, suc, ◌+◌, ◌≤◌, ◌<◌, ◌≡◌, refl, ◌∙◌, ap, ◌⊎◌, inl, inr, true, false, not, none, some,
  ◌==◌, to_nat, Bool-cases, ok, arith,
}
use so_ii.Bitmap.{Bitmap, find, find_from, count_clear, count_from}
use so_ii.Bitmap.View.{
  IsValid, is_set, marked, cleared, mark-marked, test-is_set, is_set-marked, is_set-cleared,
}

-- The clear bits among `rounds` of them from `i` on.
unfoldable pub clears : ℕ → ℕ → Bitmap → ℕ
clears zero i bm = 0
clears (suc rounds) i bm = to_nat (not (is_set bm i)) + clears rounds (i + 1) bm

abbrev pub free_bits : Bitmap → ℕ
free_bits bm = clears bm.num_bits 0 bm

module _ (bm : Bitmap) (v : IsValid bm) where
  count_from-clears :
      (rounds i acc : ℕ)
      → i + rounds ≤ bm.num_bits
      → count_from rounds i acc bm ≡ ok (acc + clears rounds i bm)
  unfolding count_from clears
  count_from-clears zero i acc h = ap ok (omega arith)
  count_from-clears (suc rounds) i acc h =
      rw (test-is_set bm i v (omega arith))
        (count_from-clears rounds (i + 1) _ (omega arith) ∙ ap ok (ground arith))

  -- `CountClear` returns the number of clear bits, and trips no assertion.
  pub count_clear-free_bits : count_clear bm ≡ ok (free_bits bm)
  unfolding count_clear
  count_clear-free_bits = rw (count_from-clears bm.num_bits 0 0 (omega arith)) (ap ok (omega arith))

  abbrev pub FindsFrom : ℕ → ℕ → Type 0
  FindsFrom rounds i =
      ((clears rounds i bm ≡ 0) × (find_from rounds i bm ≡ ok (bm, none)))
      ⊎ ((k : ℕ) × (i ≤ k)
          × (k < i + rounds)
          × (is_set bm k ≡ false)
          × ((j : ℕ) → i ≤ j → j < k → is_set bm j ≡ true)
          × (find_from rounds i bm ≡ ok (marked bm k, some k)))

  find_from-FindsFrom : (rounds i : ℕ) → i + rounds ≤ bm.num_bits → FindsFrom rounds i
  unfolding find_from clears
  find_from-FindsFrom zero i h = inl (refl, refl)
  find_from-FindsFrom (suc rounds) i h =
      let t = test-is_set bm i v (omega arith) in
      elim (Bool-cases (is_set bm i)) [
        | inr e ↦ inr (
          i,
          omega arith,
          omega arith,
          e,
          (λ j p q. absurd (omega arith)),
          rw (t, e, mark-marked bm i v (omega arith)),
        )
        | inl e ↦ elim (find_from-FindsFrom rounds (i + 1) (omega arith)) [
          | inl (c, r) ↦ inl (rw e (omega arith), rw (t, e) r)
          | inr (k, lo, hi, off, first, r) ↦
              inr (k, omega arith, omega arith, off, (λ j p q. below k e first j p q), rw (t, e) r)
        ]
      ]
    where
      below :
          (k : ℕ)
          → is_set bm i ≡ true
          → ((j : ℕ) → i + 1 ≤ j → j < k → is_set bm j ≡ true)
          → (j : ℕ) → i ≤ j
          → j < k
          → is_set bm j ≡ true
      below k e first j p q = elim (Bool-cases (i == j)) [
        | inl same ↦ ground arith
        | inr other ↦ first j (ground arith) q
      ]

clears-marked_below :
    (bm : Bitmap) (k : ℕ) (v : IsValid bm) (h : k < bm.num_bits) (rounds i : ℕ)
    → k < i
    → clears rounds i (marked bm k) ≡ clears rounds i bm
unfolding clears
clears-marked_below bm k v h zero i p = refl
clears-marked_below bm k v h (suc rounds) i p =
    ground (arith, is_set-marked bm k v h i, clears-marked_below bm k v h rounds (i + 1))

pub clears-marked :
    (bm : Bitmap) (k : ℕ) (v : IsValid bm) (h : k < bm.num_bits) (rounds i : ℕ)
    → i ≤ k
    → k < i + rounds
    → is_set bm k ≡ false
    → clears rounds i (marked bm k) + 1 ≡ clears rounds i bm
unfolding clears
clears-marked bm k v h zero i p q off = absurd (omega arith)
clears-marked bm k v h (suc rounds) i p q off = ground (
  arith,
  is_set-marked bm k v h i,
  clears-marked bm k v h rounds (i + 1),
  clears-marked_below bm k v h rounds (i + 1),
)

clears-cleared_below :
    (bm : Bitmap) (k : ℕ) (v : IsValid bm) (h : k < bm.num_bits) (rounds i : ℕ)
    → k < i
    → clears rounds i (cleared bm k) ≡ clears rounds i bm
unfolding clears
clears-cleared_below bm k v h zero i p = refl
clears-cleared_below bm k v h (suc rounds) i p =
    ground (arith, is_set-cleared bm k v h i, clears-cleared_below bm k v h rounds (i + 1))

pub clears-cleared :
    (bm : Bitmap) (k : ℕ) (v : IsValid bm) (h : k < bm.num_bits) (rounds i : ℕ)
    → i ≤ k
    → k < i + rounds
    → is_set bm k ≡ true
    → clears rounds i (cleared bm k) ≡ clears rounds i bm + 1
unfolding clears
clears-cleared bm k v h zero i p q on = absurd (omega arith)
clears-cleared bm k v h (suc rounds) i p q on = ground (
  arith,
  is_set-cleared bm k v h i,
  clears-cleared bm k v h rounds (i + 1),
  clears-cleared_below bm k v h rounds (i + 1),
)

-- Bits that are all clear are all counted.
pub clears_of_clear :
    (bm : Bitmap) (rounds i : ℕ)
    → ((j : ℕ) → i ≤ j → j < i + rounds → is_set bm j ≡ false)
    → clears rounds i bm ≡ rounds
unfolding clears
clears_of_clear bm zero i h = refl
clears_of_clear bm (suc rounds) i h =
    rw (h i (omega arith) (omega arith))
      (omega (arith, clears_of_clear bm rounds (i + 1) (λ j p q. h j (omega arith) (omega arith))))

-- `Find` returns the first clear bit `k`, marks it, and one bit less is clear.
pub record FindsAt (bm : Bitmap) (k : ℕ) : Type 0 where
  pub in_range : k < bm.num_bits
  pub was_clear : is_set bm k ≡ false
  pub first : (j : ℕ) → j < k → is_set bm j ≡ true
  pub returns : find bm ≡ ok (marked bm k, some k)
  pub fewer : free_bits (marked bm k) + 1 ≡ free_bits bm

-- On a valid bitmap, `Find` either returns -1 and changes nothing, when no bit is clear, or it
-- returns the first clear bit and marks it, and one bit less is clear.
pub find_lem :
    (bm : Bitmap)
    → IsValid bm
    → ((free_bits bm ≡ 0) × (find bm ≡ ok (bm, none))) ⊎ ((k : ℕ) × FindsAt bm k)
unfolding find
find_lem bm v = elim (find_from-FindsFrom bm v bm.num_bits 0 (omega arith)) [
  | inl full ↦ inl full
  | inr (k, lo, hi, off, first, r) ↦ inr (
    k,
    record {
      in_range = omega arith;
      was_clear = off;
      first = λ j. first j (omega arith);
      returns = r;
      fewer = clears-marked bm k v (omega arith) bm.num_bits 0 (omega arith) hi off;
    },
  )
]
