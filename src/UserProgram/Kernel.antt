-- ===== src/UserProgram/Kernel.antt =====
-- The handlers of userprog/exception.cc on a processor that is well-formed.
use mathlib.Core.Path.{subst}
use so_ii.Base.{
  ℕ, zero, suc, ◌+◌, ◌≤◌, ◌<◌, ◌≡◌, true, Bool-cases, inl, inr, Run, ◌>>=◌, ◌==◌, ltb, arith,
}
use so_ii.Base.Safe.{Safe, bind-Safe}
use so_ii.Mmu.{ExceptionType, syscall}
use so_ii.Processor.{
  Machine, call, num_gp_regs, num_total_regs, load_reg, pc_reg, next_pc_reg, prev_pc_reg,
  read_register, write_register,
}
use so_ii.Processor.Words.{add32}
use so_ii.Processor.Keep.{IsRunning, Keeping, with_any-IsRunning, put-with_reg, reg-Safe}
use so_ii.UserProgram.Exception.{
  stack_reg, increment_pc, default_handler, syscall_handler, exception_handlers, clear_registers,
  init_registers,
}

-- A register can be written, that of the delayed load with the number of a general register.
write_register-Safe :
    (m : Machine) (r v : ℕ)
    → IsRunning m
    → r < num_total_regs
    → (r ≡ load_reg → v < num_gp_regs)
    → Safe IsRunning (write_register m r v)
unfolding write_register
write_register-Safe m r v running small h = rw inside (elim (Bool-cases (r == 0)) [
  | inl nothing ↦ rw nothing running
  | inr more ↦
      rw (more, put-with_reg m r v (omega (arith, running.mid.full)))
        (with_any-IsRunning m r v running (ground arith) h)
])
  where
    inside : ltb r num_total_regs ≡ true
    inside = ground arith

read_register-Safe :
    (m : Machine) (r : ℕ) (f : ℕ → Run Machine)
    → IsRunning m
    → r < num_total_regs
    → ((a : ℕ) → Safe IsRunning (f a))
    → Safe IsRunning (read_register m r >>= f)
unfolding read_register
read_register-Safe m r f running small k = rw inside (reg-Safe IsRunning m r f running.mid small k)
  where
    inside : ltb r num_total_regs ≡ true
    inside = ground arith

-- A write of a register before further steps.
then-Safe :
    (m : Machine) (r v : ℕ) (f : Machine → Run Machine)
    → IsRunning m
    → r < num_total_regs
    → (r ≡ load_reg → v < num_gp_regs)
    → ((m' : Machine) → IsRunning m' → Safe IsRunning (f m'))
    → Safe IsRunning (write_register m r v >>= f)
then-Safe m r v f running small h k =
    bind-Safe IsRunning IsRunning (write_register m r v) f
      (write_register-Safe m r v running small h) k

pub increment_pc-Safe : (m : Machine) → IsRunning m → Safe IsRunning (increment_pc m)
unfolding increment_pc
increment_pc-Safe m running = read_register-Safe m pc_reg _ running (omega arith) (λ pc.
    then-Safe m prev_pc_reg pc _ running (omega arith) (λ e. absurd (omega arith))
      (λ m₁ running₁. read_register-Safe m₁ next_pc_reg _ running₁ (omega arith) (λ next.
        then-Safe m₁ pc_reg next _ running₁ (omega arith) (λ e. absurd (omega arith))
          (λ m₂ running₂.
            write_register-Safe m₂ next_pc_reg (add32 next 4) running₂ (omega arith)
              (λ e. absurd (omega arith))))))

clear_registers-Safe :
    (rounds i : ℕ) (m : Machine)
    → i + rounds ≤ num_total_regs
    → IsRunning m
    → Safe IsRunning (clear_registers rounds i m)
unfolding clear_registers
clear_registers-Safe zero i m h running = running
clear_registers-Safe (suc rounds) i m h running =
    then-Safe m i 0 _ running (omega arith) (λ e. omega arith)
      (λ m₁ running₁. clear_registers-Safe rounds (i + 1) m₁ (omega arith) running₁)

-- `InitRegisters` keeps a processor well-formed, with register 0 at 0.
pub init_registers-Safe :
    (num_pages : ℕ) (m : Machine) → IsRunning m → Safe IsRunning (init_registers num_pages m)
unfolding init_registers
init_registers-Safe num_pages m running =
    bind-Safe IsRunning IsRunning (clear_registers num_total_regs 0 m) _
      (clear_registers-Safe num_total_regs 0 m (omega arith) running)
      (λ m₁ running₁.
        then-Safe m₁ pc_reg 0 _ running₁ (omega arith) (λ e. absurd (omega arith))
          (λ m₂ running₂.
            then-Safe m₂ next_pc_reg 4 _ running₂ (omega arith) (λ e. absurd (omega arith))
              (λ m₃ running₃.
                write_register-Safe m₃ stack_reg _ running₃ (omega arith)
                  (λ e. absurd (omega arith)))))

module _ (perform : Machine → Run Machine)
    (kept : (m : Machine) → IsRunning m → Safe IsRunning (perform m)) where
  syscall_handler-Safe : (m : Machine) → IsRunning m → Safe IsRunning (syscall_handler perform m)
  unfolding syscall_handler
  syscall_handler-Safe m running =
      bind-Safe IsRunning IsRunning (perform m) increment_pc (kept m running) increment_pc-Safe

  default_handler-Safe : (m : Machine) → IsRunning m → Safe IsRunning (default_handler m)
  unfolding default_handler
  default_handler-Safe m running =
      read_register-Safe m 2 _ running (omega arith) (λ exception_arg. tt)

  chosen-Safe :
      (e : ExceptionType) (m : Machine)
      → IsRunning m
      → Safe IsRunning (call (exception_handlers perform e) m)
  unfolding exception_handlers
  chosen-Safe syscall m running = syscall_handler-Safe m running
  chosen-Safe _ m running = default_handler-Safe m running

  -- If the system calls keep the processor well-formed, so do all the handlers of the kernel.
  pub exception_handlers-Keeping : Keeping (exception_handlers perform)
  exception_handlers-Keeping e h same m running =
      subst (λ o. Safe IsRunning (call o m)) same (chosen-Safe e m running)
