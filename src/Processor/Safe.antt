-- ===== src/Processor/Safe.antt =====
-- The groups of instructions of machine/mips_sim.cc on a machine that is well-formed.
use so_ii.Base.{
  ℕ, ◌%◌, ◌<◌, ◌≡◌, refl, Bool, true, false, not, Option, none, some, Run, ok, ◌>>=◌, ◌==◌, arith,
}
use so_ii.Base.Safe.{Safe, bind-Safe, assert-Safe, if-Safe}
use so_ii.Mmu.{ExceptionType, address_error, overflow, is_access_size}
use so_ii.Processor.{Machine, Handlers, put, num_gp_regs, hi_reg, lo_reg, load_reg, load_value_reg}
use so_ii.Processor.Words.{add32, sub32}
use so_ii.Processor.Divide.{divide, overflows}
use so_ii.Processor.Instruction.{Instruction}
use so_ii.Processor.Decode.{IsInstruction}
use so_ii.Processor.Keep.{
  IsMid, IsRunning, IsRead, IsWritten, Keeping, with_reg, with_reg-IsMid, reg-Safe, put-Safe,
  raise_exception-Safe, read_mem-Safe, write_mem-Safe,
}
use so_ii.Processor.Execute.{
  Exit, returned, continued, reg, add_overflows, sub_overflows, set_reg, to_rd, to_rt, branch_on,
  set_hi_lo, divide_signed, divide_unsigned, pending_value, loaded, merged, stored, raise, load,
  load_aligned, load_part, store, store_merged, store_part, add_checked, sub_checked,
}

-- What the switch leaves: after an exception, a machine between two instructions; else one whose
-- next delayed load is of a general register.
abbrev pub IsExit : Exit → Type 0
IsExit (returned m) = IsRunning m
IsExit (continued m pc r v) = IsMid m × (r < num_gp_regs)

pub set_reg-Safe :
    (m : Machine) (pc r v : ℕ) → IsMid m → r < load_reg → Safe IsExit (set_reg m pc r v)
set_reg-Safe m pc r v mid h =
    put-Safe IsExit m r v (λ m'. ok (continued m' pc 0 0)) mid (omega arith)
      (with_reg-IsMid m r v mid (omega arith), omega arith)

pub set_hi_lo-Safe : (m : Machine) (pc hi lo : ℕ) → IsMid m → Safe IsExit (set_hi_lo m pc hi lo)
set_hi_lo-Safe m pc hi lo mid = put-Safe IsExit m hi_reg hi _ mid (omega arith) (
    put-Safe IsExit (with_reg m hi_reg hi) lo_reg lo _
      (with_reg-IsMid m hi_reg hi mid (omega arith)) (omega arith)
      (
        with_reg-IsMid _ lo_reg lo (with_reg-IsMid m hi_reg hi mid (omega arith)) (omega arith),
        omega arith,
      ))

abbrev Anything : {A : Type 0} → A → Type 0
Anything a = Unit

divide-Safe : (a b : ℕ) → Safe Anything (divide a b)
unfolding divide
divide-Safe a b = if-Safe Anything (overflows a b) _ _ tt tt

pub divide_signed-Safe : (m : Machine) (pc a b : ℕ) → IsMid m → Safe IsExit (divide_signed m pc a b)
divide_signed-Safe m pc a b mid = if-Safe IsExit (b == 0) _ _ (set_hi_lo-Safe m pc 0 0 mid) (
    bind-Safe Anything IsExit (divide a b) _ (divide-Safe a b) (λ r x. set_hi_lo-Safe m pc _ _ mid))

pub divide_unsigned-Safe :
    (m : Machine) (pc a b : ℕ) → IsMid m → Safe IsExit (divide_unsigned m pc a b)
divide_unsigned-Safe m pc a b mid =
    if-Safe IsExit (b == 0) _ _ (set_hi_lo-Safe m pc 0 0 mid) (set_hi_lo-Safe m pc _ _ mid)

module _ (i : Instruction) (good : IsInstruction i) where
  -- Two operands, or one, from general registers.
  pub from_rs :
      (m : Machine) (f : ℕ → Run Exit)
      → IsMid m
      → ((a : ℕ) → Safe IsExit (f a))
      → Safe IsExit (reg m i.rs >>= f)
  from_rs m f mid k = reg-Safe IsExit m i.rs f mid (omega (arith, good.rs_small)) k

  pub from_rt :
      (m : Machine) (f : ℕ → Run Exit)
      → IsMid m
      → ((b : ℕ) → Safe IsExit (f b))
      → Safe IsExit (reg m i.rt >>= f)
  from_rt m f mid k = reg-Safe IsExit m i.rt f mid (omega (arith, good.rt_small)) k

  pub from_both :
      (m : Machine) (f : ℕ → ℕ → Run Exit)
      → IsMid m
      → ((a b : ℕ) → Safe IsExit (f a b))
      → Safe IsExit (do a ← reg m i.rs; b ← reg m i.rt; f a b)
  from_both m f mid k = from_rs m _ mid (λ a. from_rt m (f a) mid (k a))

  pub to_rd-Safe : (m : Machine) (pc : ℕ) (f : ℕ → ℕ → ℕ) → IsMid m → Safe IsExit (to_rd i m pc f)
  to_rd-Safe m pc f mid =
      from_both m _ mid (λ a b. set_reg-Safe m pc i.rd (f a b) mid (omega (arith, good.rd_small)))

  pub to_rt-Safe : (m : Machine) (pc : ℕ) (f : ℕ → ℕ → ℕ) → IsMid m → Safe IsExit (to_rt i m pc f)
  to_rt-Safe m pc f mid =
      from_rs m _ mid (λ a. set_reg-Safe m pc i.rt (f a i.extra) mid (omega (arith, good.rt_small)))

  pub branch_on-Safe :
      (m : Machine) (pc next : ℕ) (test : ℕ → Bool)
      → IsMid m
      → Safe IsExit (branch_on i m pc next test)
  branch_on-Safe m pc next test mid = from_rs m _ mid (λ a. (mid, omega arith))

  pending_value-Safe : (m : Machine) → IsMid m → Safe Anything (pending_value i m)
  pending_value-Safe m mid = reg-Safe Anything m load_reg _ mid (omega arith) (λ target.
      reg-Safe Anything m load_value_reg _ mid (omega arith)
        (λ v. reg-Safe Anything m i.rt _ mid (omega (arith, good.rt_small)) (λ current. tt)))

  merged-Safe :
      (pc : ℕ) (f : ℕ → ℕ → ℕ) (r : Machine × Option ℕ) → IsRead r → Safe IsExit (merged i pc f r)
  merged-Safe pc f (m, none) running = running
  merged-Safe pc f (m, some value) mid =
      bind-Safe Anything IsExit (pending_value i m) _ (pending_value-Safe m mid)
        (λ old x. (mid, good.rt_small))

  loaded-Safe :
      (pc : ℕ) (f : ℕ → ℕ) (r : Machine × Option ℕ) → IsRead r → Safe IsExit (loaded i pc f r)
  loaded-Safe pc f (m, none) running = running
  loaded-Safe pc f (m, some value) mid = (mid, good.rt_small)

stored-Safe : (pc : ℕ) (r : Machine × Bool) → IsWritten r → Safe IsExit (stored pc r)
stored-Safe pc (m, false) running = running
stored-Safe pc (m, true) mid = (mid, omega arith)

-- `RA_REG` or `rd` takes the return address, and the program goes on from the machine that has it.
pub link-Safe :
    (m : Machine) (r v : ℕ) (f : Machine → Run Exit)
    → IsMid m
    → r < num_gp_regs
    → ((m' : Machine) → IsMid m' → Safe IsExit (f m'))
    → Safe IsExit (put m r v >>= f)
link-Safe m r v f mid h k =
    put-Safe IsExit m r v f mid (omega arith)
      (k (with_reg m r v) (with_reg-IsMid m r v mid (omega arith)))

module _ (handlers : Handlers) (keeping : Keeping handlers) (i : Instruction)
    (good : IsInstruction i) where
  pub raise-Safe :
      (m : Machine) (e : ExceptionType) (a : ℕ) → IsMid m → Safe IsExit (raise handlers m e a)
  raise-Safe m e a mid =
      bind-Safe IsRunning IsExit _ _ (raise_exception-Safe handlers keeping m e a mid)
        (λ m' running. running)

  pub load-Safe :
      (m : Machine) (pc size : ℕ) (f : ℕ → ℕ)
      → IsMid m
      → is_access_size size ≡ true
      → Safe IsExit (load handlers i m pc size f)
  load-Safe m pc size f mid s = from_rs i good m _ mid (λ base.
      bind-Safe IsRead IsExit _ _ (read_mem-Safe handlers keeping m (add32 base i.extra) size mid s)
        (loaded-Safe i good pc f))

  pub load_aligned-Safe :
      (m : Machine) (pc size : ℕ) (f : ℕ → ℕ)
      → IsMid m
      → is_access_size size ≡ true
      → Safe IsExit (load_aligned handlers i m pc size f)
  load_aligned-Safe m pc size f mid s = from_rs i good m _ mid (λ base.
      if-Safe IsExit (not (add32 base i.extra % size == 0)) _ _
        (raise-Safe m address_error (add32 base i.extra) mid) (load-Safe m pc size f mid s))

  pub load_part-Safe :
      (m : Machine) (pc : ℕ) (f : ℕ → ℕ → ℕ) → IsMid m → Safe IsExit (load_part handlers i m pc f)
  load_part-Safe m pc f mid = from_rs i good m _ mid (λ base.
      assert-Safe IsExit (add32 base i.extra % 4 == 0) _ (λ aligned.
        bind-Safe IsRead IsExit _ _
          (read_mem-Safe handlers keeping m (add32 base i.extra) 4 mid refl)
          (merged-Safe i good pc f)))

  pub store-Safe :
      (m : Machine) (pc size : ℕ)
      → IsMid m
      → is_access_size size ≡ true
      → Safe IsExit (store handlers i m pc size)
  store-Safe m pc size mid s = from_both i good m _ mid (λ base value.
      bind-Safe IsWritten IsExit _ _
        (write_mem-Safe handlers keeping m (add32 base i.extra) size value mid s) (stored-Safe pc))

  store_merged-Safe :
      (pc addr : ℕ) (f : ℕ → ℕ → ℕ) (r : Machine × Option ℕ)
      → IsRead r
      → Safe IsExit (store_merged handlers i pc addr f r)
  store_merged-Safe pc addr f (m, none) running = running
  store_merged-Safe pc addr f (m, some old) mid = from_rt i good m _ mid (λ value.
      bind-Safe IsWritten IsExit _ _
        (write_mem-Safe handlers keeping m addr 4 (f old value) mid refl) (stored-Safe pc))

  pub store_part-Safe :
      (m : Machine) (pc : ℕ) (f : ℕ → ℕ → ℕ) → IsMid m → Safe IsExit (store_part handlers i m pc f)
  store_part-Safe m pc f mid = from_rs i good m _ mid (λ base.
      assert-Safe IsExit (add32 base i.extra % 4 == 0) _ (λ aligned.
        bind-Safe IsRead IsExit _ _
          (read_mem-Safe handlers keeping m (add32 base i.extra) 4 mid refl)
          (store_merged-Safe pc (add32 base i.extra) f)))

  pub add_checked-Safe :
      (m : Machine) (pc r a b : ℕ)
      → IsMid m
      → r < num_gp_regs
      → Safe IsExit (add_checked handlers m pc r a b)
  add_checked-Safe m pc r a b mid h =
      if-Safe IsExit (add_overflows a b) _ _ (raise-Safe m overflow 0 mid)
        (set_reg-Safe m pc r (add32 a b) mid (omega arith))

  pub sub_checked-Safe :
      (m : Machine) (pc r a b : ℕ)
      → IsMid m
      → r < num_gp_regs
      → Safe IsExit (sub_checked handlers m pc r a b)
  sub_checked-Safe m pc r a b mid h =
      if-Safe IsExit (sub_overflows a b) _ _ (raise-Safe m overflow 0 mid)
        (set_reg-Safe m pc r (sub32 a b) mid (omega arith))
