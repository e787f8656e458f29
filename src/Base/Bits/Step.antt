-- ===== src/Base/Bits/Step.antt =====
-- `&` and `|` one binary digit at a time, from the digit recursion that they stand for.
use Prim.Native.Nat.{
  ℕ, zero, suc, ◌+◌, ◌*◌, ◌/◌, ◌%◌, ◌≤◌, min, max, bit_and, bit_or, digits, bit_and-bitwise,
  bit_or-bitwise,
}
use mathlib.Core.Path.{◌≡◌, refl}
use native.Mathlib.Omega.{arith}

module _ (start : ℕ → ℕ) (digit : ℕ → ℕ → ℕ) where
  -- Rounds that suffice for the first number give one result.
  enough_rounds :
      (left right : ℕ) (few many : ℕ)
      → left ≤ few
      → left ≤ many
      → digits start digit few left right ≡ digits start digit many left right
  enough_rounds zero right zero zero _ _ = refl
  enough_rounds zero right zero (suc many) _ _ = refl
  enough_rounds zero right (suc few) zero _ _ = refl
  enough_rounds zero right (suc few) (suc many) _ _ = refl
  enough_rounds (suc left) right zero many some_few _ = absurd (omega arith)
  enough_rounds (suc left) right (suc few) zero _ some_many = absurd (omega arith)
  enough_rounds (suc left) right (suc few) (suc many) some_few some_many =
      let halved = enough_rounds (suc left / 2) (right / 2) few many (omega arith) (omega arith) in
      omega (arith, halved)

  lowest_digit :
      (left right : ℕ)
      → digits start digit (suc left) (suc left) right
        ≡ digit (suc left % 2) (right % 2)
          + 2 * digits start digit (suc left / 2) (suc left / 2) (right / 2)
  lowest_digit left right =
      let halved =
        enough_rounds (suc left / 2) (right / 2) left (suc left / 2) (omega arith) (omega arith) in
      omega (arith, halved)

none_and : (right : ℕ) → bit_and 0 right ≡ 0
none_and right = bit_and-bitwise 0 right

none_or : (right : ℕ) → bit_or 0 right ≡ right
none_or right = bit_or-bitwise 0 right

pub bit_and_halves :
    (left right : ℕ)
    → bit_and left right ≡ min (left % 2) (right % 2) + 2 * bit_and (left / 2) (right / 2)
bit_and_halves zero right = omega (arith, none_and right, none_and (right / 2))
bit_and_halves (suc left) right =
    let halves = bit_and-bitwise (suc left / 2) (right / 2) in
    omega (arith, lowest_digit (λ rest. 0) min left right, halves, bit_and-bitwise (suc left) right)

pub bit_or_halves :
    (left right : ℕ)
    → bit_or left right ≡ max (left % 2) (right % 2) + 2 * bit_or (left / 2) (right / 2)
bit_or_halves zero right = omega (arith, none_or right, none_or (right / 2))
bit_or_halves (suc left) right =
    let halves = bit_or-bitwise (suc left / 2) (right / 2) in
    omega
      (arith, lowest_digit (λ rest. rest) max left right, halves, bit_or-bitwise (suc left) right)

or_none : (rounds left : ℕ) → left ≤ rounds → bit_or left 0 ≡ left
or_none rounds zero h = none_or 0
or_none zero (suc left) h = absurd (omega arith)
or_none (suc rounds) (suc left) h =
    omega (arith, bit_or_halves (suc left) 0, or_none rounds (suc left / 2) (omega arith))

pub bit_or-zero : (left : ℕ) → bit_or left 0 ≡ left
bit_or-zero left = or_none left left (omega arith)
