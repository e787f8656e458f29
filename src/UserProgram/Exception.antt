-- ===== src/UserProgram/Exception.antt =====
-- The handlers of userprog/exception.cc, and the registers that a program of userprog/address_space.cc
-- starts with. What the system calls do, before the program counters advance, is a parameter.
use so_ii.Base.{ℕ, zero, suc, ◌+◌, ◌*◌, ◌%◌, ◌^◌, false, some, Run, ok, ◌>>=◌, ◌>>◌, assert}
use so_ii.Mmu.{page_size, syscall}
use so_ii.Processor.{
  Machine, Handlers, num_total_regs, pc_reg, next_pc_reg, prev_pc_reg, read_register,
  write_register,
}
use so_ii.Processor.Words.{add32, sub32}

abbrev pub stack_reg : ℕ
stack_reg = 29

unfoldable pub increment_pc : Machine → Run Machine
increment_pc m = do
  pc ← read_register m pc_reg
  m₁ ← write_register m prev_pc_reg pc
  next ← read_register m₁ next_pc_reg
  m₂ ← write_register m₁ pc_reg next
  write_register m₂ next_pc_reg (add32 next 4)

unfoldable pub default_handler : Machine → Run Machine
default_handler m = do exception_arg ← read_register m 2; assert false; ok m

-- `perform` is the switch over the system calls.
unfoldable pub syscall_handler : (Machine → Run Machine) → Machine → Run Machine
unfolding increment_pc
syscall_handler perform m = do m₁ ← perform m; increment_pc m₁

unfoldable pub exception_handlers : (Machine → Run Machine) → Handlers
unfolding default_handler syscall_handler
exception_handlers perform syscall = some (syscall_handler perform)
exception_handlers perform _ = some default_handler

-- The loop of `InitRegisters`, with the rounds that are left.
unfoldable pub clear_registers : ℕ → ℕ → Machine → Run Machine
clear_registers zero i m = ok m
clear_registers (suc rounds) i m = do m₁ ← write_register m i 0; clear_registers rounds (i + 1) m₁

unfoldable pub init_registers : ℕ → Machine → Run Machine
unfolding clear_registers
init_registers num_pages m = do
  m₁ ← clear_registers num_total_regs 0 m
  m₂ ← write_register m₁ pc_reg 0
  m₃ ← write_register m₂ next_pc_reg 4
  write_register m₃ stack_reg (sub32 (num_pages * page_size % 2 ^ 32) 16)
