-- ===== src/Processor/Signed.antt =====
-- What the signed instructions of machine/mips_sim.cc compute, on integers.
use so_ii.Base.{
  ℕ, ◌-◌, ◌^◌, ◌<◌, ◌≡◌, refl, true, false, if◌then◌else◌, Bool-cases, ◌⊎◌, inl, inr, Run, ok,
  to_nat, arith,
}
use so_ii.Base.Int.{ℤ, pos, negsuc, ◌+ℤ◌, ◌-ℤ◌, ◌≤ℤ◌, ltb_ℤ, +ℤ_parts, -ℤ_parts}
use so_ii.Mmu.{overflow}
use so_ii.Processor.{Machine, Handlers}
use so_ii.Processor.Words.{is_negative, add32, sub32, less_signed}
use so_ii.Processor.Instruction.{Instruction, op_add, op_addi, op_sub, op_slt}
use so_ii.Processor.Execute.{Exit, reg, add_overflows, sub_overflows, set_reg, raise, exec_op}

-- The integer whose two's complement a word is.
abbrev pub to_int : ℕ → ℤ
to_int a = if is_negative a then negsuc (2 ^ 32 - 1 - a) else pos a

-- The integers that no `int` holds.
abbrev pub IsOutside : ℤ → Type 0
IsOutside x = (pos (2 ^ 31) ≤ℤ x) ⊎ (x ≤ℤ negsuc (2 ^ 31))

add_overflows-IsOutside :
    (a b : ℕ)
    → a < 2 ^ 32
    → b < 2 ^ 32
    → add_overflows a b ≡ true
    → IsOutside (to_int a +ℤ to_int b)
unfolding ◌+ℤ◌
add_overflows-IsOutside a b ha hb h = ground (arith, +ℤ_parts (to_int a) (to_int b))

add_inside :
    (a b : ℕ)
    → a < 2 ^ 32
    → b < 2 ^ 32
    → add_overflows a b ≡ false
    → to_int (add32 a b) ≡ to_int a +ℤ to_int b
unfolding ◌+ℤ◌
add_inside a b ha hb h = ground (arith, +ℤ_parts (to_int a) (to_int b))

less_signed_lem :
    (a b : ℕ) → a < 2 ^ 32 → b < 2 ^ 32 → less_signed a b ≡ ltb_ℤ (to_int a) (to_int b)
less_signed_lem a b ha hb = ground arith

sub_overflows-IsOutside :
    (a b : ℕ)
    → a < 2 ^ 32
    → b < 2 ^ 32
    → sub_overflows a b ≡ true
    → IsOutside (to_int a -ℤ to_int b)
unfolding ◌-ℤ◌
sub_overflows-IsOutside a b ha hb h = ground (arith, -ℤ_parts (to_int a) (to_int b))

sub_inside :
    (a b : ℕ)
    → a < 2 ^ 32
    → b < 2 ^ 32
    → sub_overflows a b ≡ false
    → to_int (sub32 a b) ≡ to_int a -ℤ to_int b
unfolding ◌-ℤ◌
sub_inside a b ha hb h = ground (arith, -ℤ_parts (to_int a) (to_int b))

-- How a checked sum of the integer `x` leaves the machine: with the exception, if no `int` is `x`,
-- and else with the word of `x` in register `r`.
abbrev pub IsChecked : Handlers → Machine → (pc r : ℕ) → ℤ → Run Exit → Type 0
IsChecked handlers m pc r x run =
    (IsOutside x × (run ≡ raise handlers m overflow 0))
    ⊎ ((w : ℕ) × (w < 2 ^ 32) × (to_int w ≡ x) × (run ≡ set_reg m pc r w))

module _ (handlers : Handlers) (i : Instruction) (m : Machine) (next pc a b : ℕ) where
  -- `OP_ADD`, with words in its registers: if the sum of the two integers is outside the range of
  -- `int`, it ends in `RaiseException` of an overflow; else `rd` takes the word of the sum.
  pub exec_op-op_add :
      a < 2 ^ 32
      → b < 2 ^ 32
      → reg m i.rs ≡ ok a
      → reg m i.rt ≡ ok b
      → IsChecked handlers m pc i.rd (to_int a +ℤ to_int b) (exec_op handlers op_add i m next pc)
  unfolding exec_op
  exec_op-op_add ha hb ra rb = elim (Bool-cases (add_overflows a b)) [
    | inl over ↦ inl (add_overflows-IsOutside a b ha hb over, rw (ra, rb, over) refl)
    | inr fits ↦ inr (add32 a b, omega arith, add_inside a b ha hb fits, rw (ra, rb, fits) refl)
  ]

  -- `OP_SUB`, with words in its registers: if the difference of the two integers is outside the range
  -- of `int`, it ends in `RaiseException` of an overflow; else `rd` takes the word of the difference.
  pub exec_op-op_sub :
      a < 2 ^ 32
      → b < 2 ^ 32
      → reg m i.rs ≡ ok a
      → reg m i.rt ≡ ok b
      → IsChecked handlers m pc i.rd (to_int a -ℤ to_int b) (exec_op handlers op_sub i m next pc)
  unfolding exec_op
  exec_op-op_sub ha hb ra rb = elim (Bool-cases (sub_overflows a b)) [
    | inl over ↦ inl (sub_overflows-IsOutside a b ha hb over, rw (ra, rb, over) refl)
    | inr fits ↦ inr (sub32 a b, omega arith, sub_inside a b ha hb fits, rw (ra, rb, fits) refl)
  ]

  -- `OP_SLT`, with words in its registers, sets `rd` to 1 if the one integer is below the other, and
  -- to 0 if not.
  pub exec_op-op_slt :
      a < 2 ^ 32
      → b < 2 ^ 32
      → reg m i.rs ≡ ok a
      → reg m i.rt ≡ ok b
      → exec_op handlers op_slt i m next pc
        ≡ set_reg m pc i.rd (to_nat (ltb_ℤ (to_int a) (to_int b)))
  unfolding exec_op
  exec_op-op_slt ha hb ra rb = rw (ra, rb, less_signed_lem a b ha hb) refl

module _ (handlers : Handlers) (i : Instruction) (m : Machine) (next pc a : ℕ) where
  -- `OP_ADDI`, with words for its register and its immediate: if their sum as integers is outside the
  -- range of `int`, it raises the overflow exception; else `rt` takes the word of the sum.
  pub exec_op-op_addi :
      a < 2 ^ 32
      → i.extra < 2 ^ 32
      → reg m i.rs ≡ ok a
      → IsChecked handlers m pc i.rt
          (to_int i.extra +ℤ to_int a)
          (exec_op handlers op_addi i m next pc)
  unfolding exec_op
  exec_op-op_addi ha he ra = elim (Bool-cases (add_overflows i.extra a)) [
    | inl over ↦ inl (add_overflows-IsOutside i.extra a he ha over, rw (ra, over) refl)
    | inr fits ↦
        inr (add32 i.extra a, omega arith, add_inside i.extra a he ha fits, rw (ra, fits) refl)
  ]
