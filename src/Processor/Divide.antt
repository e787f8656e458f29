-- ===== src/Processor/Divide.antt =====
-- Signed division as C++ does it, which `OP_DIV` of machine/mips_sim.cc uses: it rounds towards zero.
-- The division of the least number by -1 overflows, which C++ leaves undefined.
use native.Mathlib.Nat.{div-add-mod, mod-lt, div-le_self, div-lt_self, div-one}
use so_ii.Base.{
  ℕ, ◌+◌, ◌-◌, ◌*◌, ◌/◌, ◌%◌, ◌^◌, ◌≤◌, ◌<◌, ◌≡◌, ◌≢◌, refl, Bool, true, false, ◌&&◌, ◌==◌,
  if◌then◌else◌, Bool-cases, ◌⊎◌, inl, inr, Run, ok, fault, undefined, arith,
}
use so_ii.Processor.Words.{is_negative, neg32, signs_differ}
use so_ii.Processor.Mult.{magnitude}
use so_ii.Processor.Product.{magnitude-le}

abbrev pub signed : Bool → ℕ → ℕ
signed negative a = if negative then neg32 a else a

abbrev pub overflows : ℕ → ℕ → Bool
overflows a b = a == 2 ^ 31 && b == 2 ^ 32 - 1

-- `a / b` and `a % b` for `b` other than zero.
unfoldable pub divide : ℕ → ℕ → Run (ℕ × ℕ)
divide a b =
    let quotient = signed (signs_differ a b) (magnitude a / magnitude b) in
    let remainder = signed (is_negative a) (magnitude a % magnitude b) in
    if overflows a b then fault undefined else ok (quotient, remainder)

-- Quotient and remainder of a division that rounds towards zero, as words: the magnitudes are those
-- of the division of the magnitudes, and unless they are zero, the quotient is negative exactly if
-- the signs differ, and the remainder exactly if the number is that is divided.
pub record Divides (a b quotient remainder : ℕ) : Type 0 where
  pub whole : magnitude b * magnitude quotient + magnitude remainder ≡ magnitude a
  pub less : magnitude remainder < magnitude b
  pub quotient_word : quotient < 2 ^ 32
  pub remainder_word : remainder < 2 ^ 32
  pub quotient_sign : 0 < magnitude quotient → is_negative quotient ≡ signs_differ a b
  pub remainder_sign : 0 < magnitude remainder → is_negative remainder ≡ is_negative a

magnitude-signed : (n : Bool) (q : ℕ) → q ≤ 2 ^ 31 → magnitude (signed n q) ≡ q
magnitude-signed n q h = ground arith

signed_word : (n : Bool) (q : ℕ) → q ≤ 2 ^ 31 → signed n q < 2 ^ 32
signed_word n q h = ground arith

signed_sign :
    (n : Bool) (q : ℕ)
    → q ≤ 2 ^ 31
    → (q < 2 ^ 31) ⊎ (n ≡ true)
    → 0 < magnitude (signed n q)
    → is_negative (signed n q) ≡ n
signed_sign n q h (inl small) pos = ground arith
signed_sign n q h (inr e) pos = ground arith

magnitude-pos : (b : ℕ) → b < 2 ^ 32 → b ≢ 0 → 0 < magnitude b
magnitude-pos b h nonzero = ground arith

quotient_small :
    (a b : ℕ)
    → a < 2 ^ 32
    → b < 2 ^ 32
    → b ≢ 0
    → overflows a b ≡ false
    → (magnitude a / magnitude b < 2 ^ 31) ⊎ (signs_differ a b ≡ true)
quotient_small a b ha hb nonzero fits = elim (Bool-cases (magnitude b == 1)) [
  | inl one ↦
      let same : magnitude a / magnitude b ≡ magnitude a =
        rw (is_one (magnitude b) one) (div-one (magnitude a)) in
      rw same (ground arith)
  | inr more ↦ elim (Bool-cases (magnitude a == 0)) [
    | inl nothing ↦ inl (small_of_zero (magnitude a) (magnitude b) (ground arith))
    | inr some ↦ inl (
        small_of_less (magnitude a) (magnitude b) (magnitude-le a ha) (ground arith) (ground arith))
  ]
]
  where
    is_one : (n : ℕ) → (n == 1) ≡ true → n ≡ 1
    is_one n h = ground arith

    small_of_zero : (x y : ℕ) → x ≡ 0 → x / y < 2 ^ 31
    small_of_zero x y h = omega (arith, div-le_self x y)

    small_of_less : (x y : ℕ) → x ≤ 2 ^ 31 → 0 < x → 1 < y → x / y < 2 ^ 31
    small_of_less x y h pos_x many = omega (arith, div-lt_self pos_x many)

-- The division of two signed words, by a divisor other than zero, gives the quotient and the
-- remainder of a division towards zero, with their signs: the quotient is negative if the signs
-- differ, the remainder if the dividend is, unless they are zero. The division of the least number
-- by -1 is undefined.
pub divide-Divides :
    (a b : ℕ)
    → a < 2 ^ 32
    → b < 2 ^ 32
    → b ≢ 0
    → ((divide a b ≡ fault undefined) × (overflows a b ≡ true))
      ⊎ ((quotient remainder : ℕ) × (divide a b ≡ ok (quotient, remainder))
          × Divides a b quotient remainder)
unfolding divide
divide-Divides a b ha hb nonzero = elim (Bool-cases (overflows a b)) [
  | inl over ↦ inl (rw over refl, over)
  | inr fits ↦
      let small_q : magnitude a / magnitude b ≤ 2 ^ 31 =
        omega (arith, div-le_self (magnitude a) (magnitude b), magnitude-le a ha) in
      let less_r = mod-lt (magnitude a) (magnitude-pos b hb nonzero) in
      let small_r : magnitude a % magnitude b < 2 ^ 31 = omega (arith, less_r, magnitude-le b hb) in
      inr (
        _,
        _,
        rw fits refl,
        record {
          whole =
              rw
                (
                  magnitude-signed (signs_differ a b) (magnitude a / magnitude b) small_q,
                  magnitude-signed (is_negative a) (magnitude a % magnitude b)
                      (omega (arith, small_r)),
                )
                (div-add-mod (magnitude a) (magnitude b));
          less =
              rw
                (magnitude-signed (is_negative a) (magnitude a % magnitude b)
                  (omega (arith, small_r)))
                less_r;
          quotient_word = signed_word (signs_differ a b) (magnitude a / magnitude b) small_q;
          remainder_word =
              signed_word (is_negative a) (magnitude a % magnitude b) (omega (arith, small_r));
          quotient_sign =
              signed_sign (signs_differ a b) (magnitude a / magnitude b) small_q
                (quotient_small a b ha hb nonzero fits);
          remainder_sign =
              signed_sign (is_negative a) (magnitude a % magnitude b) (omega (arith, small_r))
                (inl small_r);
        },
      )
]
