-- ===== src/Processor/Product.antt =====
-- The results of `Mult`: the product of two words, and the product of two signed words.
use native.Mathlib.Nat.{
  mod-eq_of_lt, mul-le-mul, mul_comm, mul-sub, zero-mul, mul-zero, mul-le-mul_left,
}
use so_ii.Base.{
  ℕ, zero, suc, ◌+◌, ◌-◌, ◌*◌, ◌/◌, ◌%◌, ◌^◌, ◌≤◌, ◌<◌, ◌≡◌, sym, ap, ◌∙◌, Bool, true, false, not,
  ◌||◌, ◌==◌, if◌then◌else◌, Bool-cases, inl, inr, arith,
}
use so_ii.Processor.Words.{is_negative, shift_right}
use so_ii.Processor.Mult.{
  Product, double_word, add_shifted, double, mult_loop, negate, magnitude, mult, IsDouble,
  add_shifted-IsDouble, mult_loop-product,
}

mult_loop-IsDouble : (rounds a : ℕ) (b r : Product) → IsDouble r → IsDouble (mult_loop rounds a b r)
unfolding mult_loop
mult_loop-IsDouble zero a b r h = h
mult_loop-IsDouble (suc rounds) a b r h = elim (Bool-cases (a % 2 == 1)) [
  | inr even ↦ rw even (mult_loop-IsDouble rounds (shift_right a 1) (double b) r h)
  | inl odd ↦ elim (Bool-cases (a / 2 == 0)) [
    | inl last ↦ rw (odd, last) (add_shifted-IsDouble b r)
    | inr more ↦
        rw (odd, more)
          (mult_loop-IsDouble rounds (shift_right a 1) (double b) (add_shifted b r)
            (add_shifted-IsDouble b r))
  ]
]

abbrev word : ℕ → Product
word b = record { hi = 0; lo = b }

-- The loop from nothing, on words whose product is a double word.
whole_loop :
    (a b : ℕ) → a < 2 ^ 32 → b < 2 ^ 32 → double_word (mult_loop 32 a (word b) (word 0)) ≡ a * b
whole_loop a b ha hb =
    let bound : a * b ≤ (2 ^ 32 - 1) * (2 ^ 32 - 1) =
      mul-le-mul {n₂ = 2 ^ 32 - 1} {m₂ = 2 ^ 32 - 1} (omega arith) (omega arith) in
    mult_loop-product 32 a (word b) (word 0) (omega arith) ha (omega arith, hb)
      (omega arith, omega arith)
    ∙ rw (mod-eq_of_lt ha) (omega (arith, bound))

negate-double :
    (r : Product) → IsDouble r → double_word (negate r) ≡ (2 ^ 64 - double_word r) % 2 ^ 64
negate-double r h = ground arith

product_zero : (a b : ℕ) → (a == 0 || b == 0) ≡ true → 0 ≡ a * b
product_zero a b h = grind arith

-- `MULTU`: the two words that `Mult` writes are the product of the two numbers.
pub mult-product : (a b : ℕ) → a < 2 ^ 32 → b < 2 ^ 32 → double_word (mult a b false) ≡ a * b
unfolding mult
mult-product a b ha hb = elim (Bool-cases (a == 0 || b == 0)) [
  | inl nothing ↦ rw nothing (product_zero a b nothing)
  | inr some ↦ rw some (whole_loop a b ha hb)
]

-- A word as a signed number, in two's complement of 64 bits.
abbrev pub extend : ℕ → ℕ
extend a = if is_negative a then a + (2 ^ 64 - 2 ^ 32) else a

pub magnitude-le : (a : ℕ) → a < 2 ^ 32 → magnitude a ≤ 2 ^ 31
magnitude-le a h = ground arith

extend-magnitude :
    (a : ℕ) → a < 2 ^ 32 → extend a ≡ (if is_negative a then 2 ^ 64 - magnitude a else magnitude a)
extend-magnitude a h = ground arith

-- A product of two numbers of which some are negated.
signed_product :
    (n m : Bool) (x y : ℕ)
    → x ≤ 2 ^ 31
    → y ≤ 2 ^ 31
    → (if n then 2 ^ 64 - x else x) * (if m then 2 ^ 64 - y else y) % 2 ^ 64
      ≡ (if (if n then not m else m) then (2 ^ 64 - x * y) % 2 ^ 64 else x * y)
signed_product n m x y hx hy = go n m
  where
    bound : x * y ≤ 2 ^ 31 * 2 ^ 31
    bound = mul-le-mul hx hy

    under : (z w : ℕ) → w ≤ 2 ^ 31 → z * w ≤ z * 2 ^ 64
    under z w h = mul-le-mul_left z (omega arith)

    go :
        (n m : Bool)
        → (if n then 2 ^ 64 - x else x) * (if m then 2 ^ 64 - y else y) % 2 ^ 64
          ≡ (if (if n then not m else m) then (2 ^ 64 - x * y) % 2 ^ 64 else x * y)
    go false false = omega (arith, bound)
    go false true = omega (arith, bound, under x y hy, mul-sub x (2 ^ 64) y)
    go true false =
        omega
          (arith, bound, under y x hx, mul_comm (2 ^ 64 - x) y, mul-sub y (2 ^ 64) x, mul_comm x y)
    go true true = omega (
      arith,
      bound,
      under y x hx,
      under (2 ^ 64 - x) y hy,
      mul-sub (2 ^ 64 - x) (2 ^ 64) y,
      mul_comm (2 ^ 64 - x) y,
      mul-sub y (2 ^ 64) x,
      mul_comm x y,
    )

signed_zero : (a b : ℕ) → (a == 0 || b == 0) ≡ true → 0 ≡ extend a * extend b % 2 ^ 64
signed_zero a b h = elim (Bool-cases (a == 0)) [
  | inl left ↦ rw (is_zero a left) (sym (ap (◌% 2 ^ 64) (zero-mul (extend b))))
  | inr right ↦ rw (is_zero b (ground arith)) (sym (ap (◌% 2 ^ 64) (mul-zero (extend a))))
]
  where
    is_zero : (n : ℕ) → (n == 0) ≡ true → n ≡ 0
    is_zero n h = ground arith

signed_sign :
    (a b : ℕ)
    → a < 2 ^ 32
    → b < 2 ^ 32
    → (r : Product) → double_word r ≡ magnitude a * magnitude b
    → IsDouble r
    → double_word
        (if (if is_negative a then not (is_negative b) else is_negative b) then negate r else r)
      ≡ extend a * extend b % 2 ^ 64
signed_sign a b ha hb r e d =
    rw (extend-magnitude a ha, extend-magnitude b hb)
      (by_sign (if is_negative a then not (is_negative b) else is_negative b)
        ∙ sym (
            signed_product (is_negative a) (is_negative b) (magnitude a) (magnitude b)
              (magnitude-le a ha) (magnitude-le b hb)))
  where
    by_sign :
        (negative : Bool)
        → double_word (if negative then negate r else r) ≡ (
            if negative
            then (2 ^ 64 - magnitude a * magnitude b) % 2 ^ 64
            else magnitude a * magnitude b)
    by_sign true = negate-double r d ∙ ap (λ (n : ℕ). (2 ^ 64 - n) % 2 ^ 64) e
    by_sign false = e

-- `MULT`: the two words that `Mult` writes are the product of the two signed numbers, in two's
-- complement of 64 bits.
pub mult_signed-product :
    (a b : ℕ) → a < 2 ^ 32 → b < 2 ^ 32 → double_word (mult a b true) ≡ extend a * extend b % 2 ^ 64
unfolding mult
mult_signed-product a b ha hb = elim (Bool-cases (a == 0 || b == 0)) [
  | inl nothing ↦ rw nothing (signed_zero a b nothing)
  | inr some ↦ rw some (
      signed_sign a b ha hb _
        (whole_loop (magnitude a) (magnitude b) (omega (arith, magnitude-le a ha))
          (omega (arith, magnitude-le b hb)))
        (mult_loop-IsDouble 32 (magnitude a) (word (magnitude b)) (word 0)
          (omega arith, omega arith)))
]
