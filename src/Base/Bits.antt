-- ===== src/Base/Bits.antt =====
-- The bits of a word under `&` and `|` with a single bit, and with the complement of one.
mod Step
use Step.{bit_and_halves}
pub use Step.{bit_or_halves, bit_or-zero}
use Prim.Native.Nat.{
  ℕ, zero, suc, ◌+◌, ◌-◌, ◌*◌, ◌/◌, ◌%◌, ◌^◌, ◌≤◌, ◌<◌, min, max, bit_and, bit_or,
}
use native.Mathlib.Nat.{pow-suc, one-le-pow}
use mathlib.Core.Path.{◌≡◌, refl, ap}
use native.Mathlib.Omega.{arith}
use so_ii.Base.Tests.{◌==◌, if◌then◌else◌}

-- Bit `k` of `x`.
unfoldable pub bit : ℕ → ℕ → ℕ
bit x zero = x % 2
bit x (suc k) = bit (x / 2) k

pub bit-lt : (x k : ℕ) → bit x k < 2
unfolding bit
bit-lt x zero = omega arith
bit-lt x (suc k) = bit-lt (x / 2) k

pub bit-bit_or : (a b k : ℕ) → bit (bit_or a b) k ≡ max (bit a k) (bit b k)
unfolding bit
bit-bit_or a b zero = omega (arith, bit_or_halves a b)
bit-bit_or a b (suc k) =
    let e : bit_or a b / 2 ≡ bit_or (a / 2) (b / 2) = omega (arith, bit_or_halves a b) in
    rw e (bit-bit_or (a / 2) (b / 2) k)

pub bit-bit_and : (a b k : ℕ) → bit (bit_and a b) k ≡ min (bit a k) (bit b k)
unfolding bit
bit-bit_and a b zero = omega (arith, bit_and_halves a b)
bit-bit_and a b (suc k) =
    let e : bit_and a b / 2 ≡ bit_and (a / 2) (b / 2) = omega (arith, bit_and_halves a b) in
    rw e (bit-bit_and (a / 2) (b / 2) k)

bit-zero : (k : ℕ) → bit 0 k ≡ 0
unfolding bit
bit-zero zero = refl
bit-zero (suc k) = bit-zero k

half-pow : (k : ℕ) → 2 ^ suc k / 2 ≡ 2 ^ k
half-pow k = omega (arith, pow-suc 2 k)

-- `1 << k` has one bit.
pub bit-pow : (k j : ℕ) → bit (2 ^ k) j ≡ (if k == j then 1 else 0)
unfolding bit
bit-pow zero zero = refl
bit-pow zero (suc j) = ground (arith, bit-zero j)
bit-pow (suc k) zero = ground (arith, pow-suc 2 k)
bit-pow (suc k) (suc j) = rw (half-pow k) (ground (arith, bit-pow k j))

bit_ones : (w j : ℕ) → j < w → bit (2 ^ w - 1) j ≡ 1
unfolding bit
bit_ones zero j h = absurd (omega arith)
bit_ones (suc w) zero h = omega (arith, pow-suc 2 w, one-le-pow w 2)
bit_ones (suc w) (suc j) h =
    let e : (2 ^ suc w - 1) / 2 ≡ 2 ^ w - 1 = omega (arith, pow-suc 2 w, one-le-pow w 2) in
    rw e (bit_ones w j (omega arith))

pow-lt : (k w : ℕ) → k < w → 2 ^ k < 2 ^ w
pow-lt k zero h = absurd (omega arith)
pow-lt zero (suc w) h = omega (arith, pow-suc 2 w, one-le-pow w 2)
pow-lt (suc k) (suc w) h = omega (arith, pow-suc 2 w, pow-suc 2 k, pow-lt k w (omega arith))

-- `~(1 << k)` at `w` bits has all bits but one.
pub bit_complement :
    (w k j : ℕ) → k < w → j < w → bit (2 ^ w - 1 - 2 ^ k) j ≡ (if k == j then 0 else 1)
unfolding bit
bit_complement zero k j h p = absurd (omega arith)
bit_complement (suc w) zero zero h p = omega (arith, pow-suc 2 w, one-le-pow w 2)
bit_complement (suc w) zero (suc j) h p =
    let e : (2 ^ suc w - 1 - 1) / 2 ≡ 2 ^ w - 1 = omega (arith, pow-suc 2 w, one-le-pow w 2) in
    rw e (ground (arith, bit_ones w j))
bit_complement (suc w) (suc k) zero h p =
    ground (arith, pow-suc 2 w, pow-suc 2 k, pow-lt k w (omega arith))
bit_complement (suc w) (suc k) (suc j) h p =
    let e : (2 ^ suc w - 1 - 2 ^ suc k) / 2 ≡ 2 ^ w - 1 - 2 ^ k =
      omega (arith, pow-suc 2 w, pow-suc 2 k, pow-lt k w (omega arith)) in
    rw e (ground (arith, bit_complement w k j))

-- `x & (1 << k)` is nonzero exactly if bit `k` is one.
pub bit_and-pow : (x k : ℕ) → bit_and x (2 ^ k) ≡ bit x k * 2 ^ k
unfolding bit
bit_and-pow x zero = omega (arith, bit_and_halves x 1, none_left (x / 2) (x / 2) (omega arith))
  where
    none_left : (rounds rest : ℕ) → rest ≤ rounds → bit_and rest 0 ≡ 0
    none_left rounds zero _ = refl
    none_left zero (suc rest) h = absurd (omega arith)
    none_left (suc rounds) (suc rest) h =
        let halved = none_left rounds (suc rest / 2) (omega arith) in
        omega (arith, bit_and_halves (suc rest) 0, halved)
bit_and-pow x (suc k) = omega (
  arith,
  bit_and_halves x (2 ^ suc k),
  ap (λ (t : ℕ). bit_and (x / 2) t) (half-pow k),
  bit_and-pow (x / 2) k,
  pow-suc 2 k,
  ap (λ (t : ℕ). bit (x / 2) k * t) (pow-suc 2 k),
)
