-- ===== src/Processor/Words.antt =====
-- Arithmetic of 32-bit patterns, as machine/mips_sim.cc does it on `int` and `unsigned`. Sums that
-- leave the range of `int` wrap around, as they do on the machines that the code is compiled for.
use so_ii.Base.{ℕ, ◌+◌, ◌-◌, ◌*◌, ◌/◌, ◌%◌, ◌^◌, Bool, ltb, not, if◌then◌else◌}

abbrev pub is_negative : ℕ → Bool
is_negative a = not (ltb a (2 ^ 31))

abbrev pub add32 : ℕ → ℕ → ℕ
add32 a b = (a + b) % 2 ^ 32

abbrev pub sub32 : ℕ → ℕ → ℕ
sub32 a b = (a + (2 ^ 32 - b)) % 2 ^ 32

abbrev pub neg32 : ℕ → ℕ
neg32 a = (2 ^ 32 - a) % 2 ^ 32

-- `~a`
abbrev pub not32 : ℕ → ℕ
not32 a = 2 ^ 32 - 1 - a

-- `a >> k` on `int` and `a << k`, for k below 32.
abbrev pub shift_right : ℕ → ℕ → ℕ
shift_right a k = if is_negative a then not32 (not32 a / 2 ^ k) else a / 2 ^ k

abbrev pub shift_left : ℕ → ℕ → ℕ
shift_left a k = a * 2 ^ k % 2 ^ 32

-- `a < b` on `int`
abbrev pub less_signed : ℕ → ℕ → Bool
less_signed a b = ltb ((a + 2 ^ 31) % 2 ^ 32) ((b + 2 ^ 31) % 2 ^ 32)

-- Whether `(a ^ b) & SIGN_BIT` is nonzero.
abbrev pub signs_differ : ℕ → ℕ → Bool
signs_differ a b = if is_negative a then not (is_negative b) else is_negative b
