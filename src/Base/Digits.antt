-- ===== src/Base/Digits.antt =====
-- The digits of a number to a base, below and above a power of it.
use native.Mathlib.Nat.{
  mod-lt, mod-eq_of_lt, div-add-mod, mul-add-mod_self_left, mul_assoc, mul-add, pow-succ',
  one-le-pow, mod-one,
}
use Prim.Native.Nat.{ℕ, zero, suc, ◌+◌, ◌*◌, ◌/◌, ◌%◌, ◌^◌, ◌≤◌, ◌<◌}
use mathlib.Core.Path.{◌≡◌, ap, sym, ◌∙◌}
use native.Mathlib.Omega.{arith}

-- The lowest digit to the base `b`, apart from the next ones.
pub mod-mul_lem : (b v k : ℕ) → 0 < b → 0 < k → v % (b * k) ≡ v % b + b * (v / b % k)
mod-mul_lem b v k pos_b pos_k =
    let q = v / b in
    let rest = b * (q % k) + v % b in
    let whole : v ≡ b * k * (q / k) + rest = omega (
      arith,
      div-add-mod v b,
      ap (◌*◌ b) (div-add-mod q k),
      mul-add b (k * (q / k)) (q % k),
      mul_assoc b k (q / k),
    ) in
    let less : b * (q % k) + v % b < b * k = grind (arith, mod-lt q pos_k, mod-lt v pos_b) in
    ap (◌% (b * k)) whole
    ∙ mul-add-mod_self_left (b * k) (q / k) rest
    ∙ mod-eq_of_lt less
    ∙ omega arith

pub mod_pow_suc : (v r : ℕ) → v % 2 ^ suc r ≡ v % 2 + 2 * (v / 2 % 2 ^ r)
mod_pow_suc v r =
    ap (λ (n : ℕ). v % n) (pow-succ' 2 r)
    ∙ mod-mul_lem 2 v (2 ^ r) (omega arith) (one-le-pow r 2 (omega arith))

-- A power of two does not show in the digits below it.
pub add-pow-mod : (n r x : ℕ) → r ≤ n → (x + 2 ^ n) % 2 ^ r ≡ x % 2 ^ r
add-pow-mod n zero x h = mod-one (x + 2 ^ n) ∙ sym (mod-one x)
add-pow-mod zero (suc r) x h = absurd (omega arith)
add-pow-mod (suc n) (suc r) x h =
    let halves : (x + 2 ^ suc n) / 2 ≡ x / 2 + 2 ^ n = omega (arith, pow-succ' 2 n) in
    omega (
      arith,
      mod_pow_suc (x + 2 ^ suc n) r,
      mod_pow_suc x r,
      ap (◌% 2 ^ r) halves,
      add-pow-mod n r (x / 2) (omega arith),
      pow-succ' 2 n,
    )
