-- ===== src/Processor/Mult.antt =====
-- `Mult` of machine/mips_sim.cc, a multiplication by shifts and additions, against the product.
use native.Mathlib.Nat.{mod-one, mod-add-div, mul-add, mul_left_comm, zero-mod}
use so_ii.Base.{
  ℕ, zero, suc, ◌+◌, ◌*◌, ◌/◌, ◌%◌, ◌^◌, ◌≤◌, ◌<◌, ◌≡◌, refl, ap, ◌∙◌, Bool, not, ◌&&◌, ◌||◌, ltb,
  ◌==◌, bit_or, if◌then◌else◌, Bool-cases, inl, inr, arith,
}
use so_ii.Base.Bits.{bit_or_halves, bit_or-zero}
use so_ii.Base.Digits.{mod_pow_suc, add-pow-mod}
use so_ii.Processor.Words.{is_negative, add32, neg32, not32, shift_right}

pub record Product : Type 0 where
  pub hi : ℕ
  pub lo : ℕ

-- What the two words stand for.
abbrev pub double_word : Product → ℕ
double_word p = p.hi * 2 ^ 32 + p.lo

-- The addition of a shifted `b` to the result, with the carry out of the low word.
abbrev pub add_shifted : Product → Product → Product
add_shifted b r =
    let lo = add32 r.lo b.lo in
    let hi = if ltb lo b.lo then add32 r.hi 1 else r.hi in record { hi = add32 hi b.hi; lo = lo }

-- The shift of `b` by one to the left.
abbrev pub double : Product → Product
double b =
    let hi = b.hi * 2 % 2 ^ 32 in
    record { hi = if is_negative b.lo then bit_or hi 1 else hi; lo = b.lo * 2 % 2 ^ 32 }

-- The loop, with the rounds left. `a & 1` is `a % 2`, and `a & 0xFFFFFFFE` is zero if `a / 2` is.
unfoldable pub mult_loop : ℕ → ℕ → Product → Product → Product
mult_loop zero a b r = r
mult_loop (suc rounds) a b r =
    let added = add_shifted b r in
    let odd = mult_loop rounds (shift_right a 1) (double b) added in
    let even = mult_loop rounds (shift_right a 1) (double b) r in
    if a % 2 == 1 then (if a / 2 == 0 then added else odd) else even

-- The two's complement of the double word.
abbrev pub negate : Product → Product
negate r =
    let lo = add32 (not32 r.lo) 1 in
    record { hi = if lo == 0 then add32 (not32 r.hi) 1 else not32 r.hi; lo = lo }

abbrev pub magnitude : ℕ → ℕ
magnitude a = if is_negative a then neg32 a else a

unfoldable pub mult : ℕ → ℕ → Bool → Product
mult a b signed_arith =
    let none : Product = record { hi = 0; lo = 0 } in
    let negative = signed_arith && (if is_negative a then not (is_negative b) else is_negative b) in
    let a' = if signed_arith then magnitude a else a in
    let b' = if signed_arith then magnitude b else b in
    let r : Product = mult_loop 32 a' (record { hi = 0; lo = b' }) none in
    if a == 0 || b == 0 then none else if negative then negate r else r

-- Both words are words.
abbrev pub IsDouble : Product → Type 0
IsDouble p = (p.hi < 2 ^ 32) × (p.lo < 2 ^ 32)

add_shifted-sum :
    (b r : Product)
    → IsDouble b
    → IsDouble r
    → double_word (add_shifted b r) ≡ (double_word r + double_word b) % 2 ^ 64
add_shifted-sum b r hb hr = ground arith

pub add_shifted-IsDouble : (b r : Product) → IsDouble (add_shifted b r)
add_shifted-IsDouble b r = (ground arith, ground arith)

bit_or-one : (x : ℕ) → bit_or (x * 2) 1 ≡ x * 2 + 1
bit_or-one x =
    omega (arith, bit_or_halves (x * 2) 1, ap (λ (y : ℕ). bit_or y 0) halved, bit_or-zero x)
  where
    halved : x * 2 / 2 ≡ x
    halved = omega arith

pub double-IsDouble : (b : Product) → IsDouble (double b)
double-IsDouble b = (ground (arith, bit_or-one (b.hi % 2 ^ 31)), ground arith)

double-twice : (b : Product) → IsDouble b → double_word (double b) ≡ 2 * double_word b % 2 ^ 64
double-twice b h = ground (arith, bit_or-one (b.hi % 2 ^ 31))

shift_right-mod : (a r : ℕ) → a < 2 ^ 32 → r ≤ 31 → shift_right a 1 % 2 ^ r ≡ a / 2 % 2 ^ r
shift_right-mod a r small h = elim (Bool-cases (is_negative a)) [
  | inr positive ↦ rw positive refl
  | inl negative ↦ rw negative (ap (◌% 2 ^ r) shifted ∙ add-pow-mod 31 r (a / 2) h)
]
  where
    shifted : not32 (not32 a / 2 ^ 1) ≡ a / 2 + 2 ^ 31
    shifted = omega (arith, small)

-- The sum of one round and of the product that is left.
round-mod :
    (acc low q word : ℕ)
    → ((acc + low * word) % 2 ^ 64 + q * (2 * word % 2 ^ 64)) % 2 ^ 64
      ≡ (acc + (low + 2 * q) * word) % 2 ^ 64
round-mod acc low q word =
    let twice = 2 * word in
    let parts : q * (twice % 2 ^ 64) + 2 ^ 64 * (q * (twice / 2 ^ 64)) ≡ 2 * (q * word) = omega (
      arith,
      ap (λ (n : ℕ). q * n) (mod-add-div twice (2 ^ 64)),
      mul-add q (twice % 2 ^ 64) (2 ^ 64 * (twice / 2 ^ 64)),
      mul_left_comm q (2 ^ 64) (twice / 2 ^ 64),
      mul_left_comm q 2 word,
    ) in
    let product : (low + 2 * q) * word ≡ low * word + 2 * (q * word) = grind arith in
    omega (arith, parts, product)

next-round :
    (rounds a low sum : ℕ) (b : Product) (acc result : ℕ)
    → a < 2 ^ 32
    → rounds ≤ 31
    → IsDouble b
    → a % 2 ≡ low
    → sum ≡ (acc + low * double_word b) % 2 ^ 64
    → result ≡ (sum + shift_right a 1 % 2 ^ rounds * double_word (double b)) % 2 ^ 64
    → result ≡ (acc + a % 2 ^ suc rounds * double_word b) % 2 ^ 64
next-round rounds a low sum b acc result small few hb e s r =
    r
    ∙ rw (s, shift_right-mod a rounds small few, double-twice b hb, mod_pow_suc a rounds, e)
        (round-mod acc low (a / 2 % 2 ^ rounds) (double_word b))

double_word-lt : (r : Product) → IsDouble r → double_word r < 2 ^ 64
double_word-lt r h = omega (arith, h.0, h.1)

shift_right-lt : (a : ℕ) → a < 2 ^ 32 → shift_right a 1 < 2 ^ 32
shift_right-lt a h = ground arith

one_left : (a rounds : ℕ) → a ≡ 1 → a % 2 ^ suc rounds ≡ 1
one_left a rounds e = rw e (mod_pow_suc 1 rounds ∙ rw (zero-mod (2 ^ rounds)) refl)

pub mult_loop-product :
    (rounds a : ℕ) (b r : Product)
    → rounds ≤ 32
    → a < 2 ^ 32
    → IsDouble b
    → IsDouble r
    → double_word (mult_loop rounds a b r)
      ≡ (double_word r + a % 2 ^ rounds * double_word b) % 2 ^ 64
unfolding mult_loop
mult_loop-product zero a b r h small hb hr = rw (mod-one a) (omega (arith, double_word-lt r hr))
mult_loop-product (suc rounds) a b r h small hb hr = elim (Bool-cases (a % 2 == 1)) [
  | inr even ↦ rw even (
      next-round rounds a 0 (double_word r) b (double_word r) _ small (omega arith) hb
        (ground arith) (omega (arith, double_word-lt r hr))
        (mult_loop-product rounds (shift_right a 1) (double b) r (omega arith)
          (shift_right-lt a small) (double-IsDouble b) hr))
  | inl odd ↦ elim (Bool-cases (a / 2 == 0)) [
    | inl last ↦
        rw (odd, last)
          (add_shifted-sum b r hb hr ∙ rw (one_left a rounds (ground arith)) (omega arith))
    | inr more ↦
        rw (odd, more)
          (next-round rounds a 1 (double_word (add_shifted b r)) b (double_word r) _ small
            (omega arith) hb (ground arith) (add_shifted-sum b r hb hr ∙ omega arith)
            (mult_loop-product rounds (shift_right a 1) (double b) (add_shifted b r) (omega arith)
              (shift_right-lt a small) (double-IsDouble b) (add_shifted-IsDouble b r)))
  ]
]
