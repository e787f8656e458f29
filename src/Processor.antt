-- ===== src/Processor.antt =====
-- machine/machine.cc, machine/machine.hh and the registers of machine/mips_sim.cc: the processor of
-- the simulated machine. An `int` in a register is its 32-bit pattern.
pub mod Words
pub mod Mult
pub mod Product
pub mod Divide
pub mod Instruction
pub mod Decode
pub mod Execute
pub mod Signed
pub mod Keep
pub mod Safe
pub mod Running
mod Examples
use so_ii.Base.{
  ℕ, ◌+◌, ◌*◌, ◌⊎◌, inl, inr, Bool, true, false, Option, none, some, List, replicate, Run, ok,
  fault, assertion, ◌>>=◌, ◌>>◌, assert, ltb, ◌==◌, if◌then◌else◌, read_at, write_at,
}
use so_ii.Mmu
use so_ii.Mmu.{Mmu, ExceptionType, no_exception}

abbrev pub num_gp_regs : ℕ
num_gp_regs = 32

abbrev pub num_total_regs : ℕ
num_total_regs = 40

abbrev pub ret_addr_reg : ℕ
ret_addr_reg = 31

abbrev pub hi_reg : ℕ
hi_reg = 32

abbrev pub lo_reg : ℕ
lo_reg = 33

abbrev pub pc_reg : ℕ
pc_reg = 34

abbrev pub next_pc_reg : ℕ
next_pc_reg = 35

abbrev pub prev_pc_reg : ℕ
prev_pc_reg = 36

abbrev pub load_reg : ℕ
load_reg = 37

abbrev pub load_value_reg : ℕ
load_value_reg = 38

abbrev pub bad_vaddr_reg : ℕ
bad_vaddr_reg = 39

pub data MachineStatus : Type 0 where
  idle_mode system_mode user_mode : MachineStatus

-- `status` is the machine status of machine/interrupt.hh, which the machine sets around a handler.
pub record Machine : Type 0 where
  pub registers : List ℕ
  pub mmu : Mmu
  pub status : MachineStatus

-- The constructor, with what the memory management unit starts as.
pub new_machine : Mmu → Machine
new_machine mmu = record { registers = replicate num_total_regs 0; mmu = mmu; status = system_mode }

abbrev pub put : Machine → ℕ → ℕ → Run Machine
put m r value = do regs ← write_at m.registers r value; ok (record m { registers = regs })

unfoldable pub read_register : Machine → ℕ → Run ℕ
read_register m num = do assert (ltb num num_total_regs); read_at m.registers num

unfoldable pub write_register : Machine → ℕ → ℕ → Run Machine
write_register m num value = do
  assert (ltb num num_total_regs)
  if num == 0 then ok m else put m num value

unfoldable pub delayed_load : Machine → ℕ → ℕ → Run Machine
delayed_load m next_reg next_value = do
  target ← read_at m.registers load_reg
  value ← read_at m.registers load_value_reg
  m₁ ← put m target value
  m₂ ← put m₁ load_reg next_reg
  m₃ ← put m₂ load_value_reg next_value
  put m₃ 0 0

-- The handlers that `SetHandler` has registered, each with what it does to the machine; they are
-- procedures of the kernel.
abbrev pub Handlers : Type 0
Handlers = ExceptionType → Option (Machine → Run Machine)

abbrev pub is_registered : Option (Machine → Run Machine) → Bool
is_registered none = false
is_registered (some handler) = true

abbrev pub call : Option (Machine → Run Machine) → Machine → Run Machine
call none m = fault assertion
call (some handler) m = handler m

module _ (handlers : Handlers) where
  unfoldable pub raise_exception : Machine → ExceptionType → ℕ → Run Machine
  raise_exception m et bad_vaddr = do
    assert (is_registered (handlers et))
    m₁ ← put m bad_vaddr_reg bad_vaddr
    m₂ ← delayed_load m₁ 0 0
    m₃ ← call (handlers et) (record m₂ { status = system_mode })
    ok (record m₃ { status = user_mode })

  -- The value is `none` where the code returns false.
  abbrev pub after_read : Machine → ℕ → Mmu × (ExceptionType ⊎ ℕ) → Run (Machine × Option ℕ)
  after_read m addr (mmu, inl e) = do
    m' ← raise_exception (record m { mmu = mmu }) e addr
    ok (m', none)
  after_read m addr (mmu, inr value) = ok (record m { mmu = mmu }, some value)

  unfoldable pub read_mem : Machine → ℕ → ℕ → Run (Machine × Option ℕ)
  read_mem m addr size = Mmu.read_mem m.mmu addr size >>= after_read m addr

  abbrev pub is_success : ExceptionType → Bool
  is_success no_exception = true
  is_success _ = false

  abbrev pub after_write : Machine → ℕ → Mmu × ExceptionType → Run (Machine × Bool)
  after_write m addr (mmu, e) =
      let written = record m { mmu = mmu } in
      let raised : Run (Machine × Bool) = (do
        m' ← raise_exception written e addr
        ok (m', false)) in
      if is_success e then ok (written, true) else raised

  unfoldable pub write_mem : Machine → ℕ → ℕ → ℕ → Run (Machine × Bool)
  write_mem m addr size value = Mmu.write_mem m.mmu addr size value >>= after_write m addr
