-- ===== src/Processor/Execute.antt =====
-- `FetchInstruction` and `ExecInstruction` of machine/mips_sim.cc.
use so_ii.Base.{
  ℕ, ◌+◌, ◌-◌, ◌*◌, ◌/◌, ◌%◌, ◌^◌, Bool, true, false, not, ◌&&◌, ◌||◌, Option, none, some, bit_and,
  bit_or, ltb, ◌==◌, if◌then◌else◌, to_nat, Run, ok, ◌>>=◌, ◌>>◌, assert, read_at,
}
use Prim.Native.Nat.{bit_xor}
use so_ii.Mmu.{ExceptionType, address_error, syscall, overflow, illegal_instr}
use so_ii.Processor
use so_ii.Processor.{
  Machine, Handlers, put, delayed_load, raise_exception, hi_reg, lo_reg, pc_reg, next_pc_reg,
  prev_pc_reg, load_reg, load_value_reg, ret_addr_reg,
}
use so_ii.Processor.Words.{
  is_negative, add32, sub32, not32, shift_right, shift_left, less_signed, signs_differ,
}
use so_ii.Processor.Mult.{mult}
use so_ii.Processor.Divide.{divide}
use so_ii.Processor.Instruction.{
  Instruction, OpCode, decode, special, bcond, op_add, op_addi, op_addiu, op_addu, op_and, op_andi,
  op_beq, op_bgez, op_bgezal, op_bgtz, op_blez, op_bltz, op_bltzal, op_bne, op_div, op_divu, op_j,
  op_jal, op_jalr, op_jr, op_lb, op_lbu, op_lh, op_lhu, op_lui, op_lw, op_lwl, op_lwr, op_mfhi,
  op_mflo, op_mthi, op_mtlo, op_mult, op_multu, op_nor, op_or, op_ori, op_rfe, op_sb, op_sh, op_sll,
  op_sllv, op_slt, op_slti, op_sltiu, op_sltu, op_sra, op_srav, op_srl, op_srlv, op_sub, op_subu,
  op_sw, op_swl, op_swr, op_xor, op_xori, op_syscall, op_unimp, op_res,
}

-- How the execution of an instruction leaves the switch: by a return after an exception, or with
-- the next program counter and the delayed load.
pub data Exit : Type 0 where
  returned : Machine → Exit
  continued : (m : Machine) (pc_after next_load_reg next_load_value : ℕ) → Exit

abbrev pub reg : Machine → ℕ → Run ℕ
reg m r = read_at m.registers r

-- The address that an index of words stands for.
abbrev pub index_to_addr : ℕ → ℕ
index_to_addr x = shift_left x 2

-- The test after a sum: the operands have one sign, and the sum has another one.
abbrev pub add_overflows : ℕ → ℕ → Bool
add_overflows a b = not (signs_differ a b) && signs_differ a (add32 a b)

abbrev pub sub_overflows : ℕ → ℕ → Bool
sub_overflows a b = signs_differ a b && signs_differ a (sub32 a b)

-- `instr->extra & 0xFFFF`
abbrev pub low_half : ℕ → ℕ
low_half extra = extra % 2 ^ 16

-- A write of a register, after which the program goes on.
abbrev pub set_reg : Machine → ℕ → ℕ → ℕ → Run Exit
set_reg m pc r value = do m' ← put m r value; ok (continued m' pc 0 0)

-- `registers[rd]` from `registers[rs]` and `registers[rt]`.
abbrev pub to_rd : Instruction → Machine → ℕ → (ℕ → ℕ → ℕ) → Run Exit
to_rd i m pc f = do a ← reg m i.rs; b ← reg m i.rt; set_reg m pc i.rd (f a b)

-- `registers[rt]` from `registers[rs]` and the immediate.
abbrev pub to_rt : Instruction → Machine → ℕ → (ℕ → ℕ → ℕ) → Run Exit
to_rt i m pc f = do a ← reg m i.rs; set_reg m pc i.rt (f a i.extra)

abbrev pub branch : Instruction → Machine → ℕ → ℕ → Bool → Run Exit
branch i m pc next_pc taken =
    ok (continued m (if taken then add32 next_pc (index_to_addr i.extra) else pc) 0 0)

-- A branch on the sign of `registers[rs]`.
abbrev pub branch_on : Instruction → Machine → ℕ → ℕ → (ℕ → Bool) → Run Exit
branch_on i m pc next_pc test = do a ← reg m i.rs; branch i m pc next_pc (test a)

abbrev pub jump : Instruction → Machine → ℕ → Run Exit
jump i m pc = ok (continued m (bit_or (bit_and pc 0xF0000000) (index_to_addr i.extra)) 0 0)

abbrev pub jump_reg : Instruction → Machine → Run Exit
jump_reg i m = do target ← reg m i.rs; ok (continued m target 0 0)

abbrev pub set_hi_lo : Machine → ℕ → ℕ → ℕ → Run Exit
set_hi_lo m pc hi lo = do m₁ ← put m hi_reg hi; m₂ ← put m₁ lo_reg lo; ok (continued m₂ pc 0 0)

-- `lo` is written first; `OP_DIV` and `OP_DIVU` read both operands again for `hi`, and `LO_REG` is
-- none of the general registers that they name.
abbrev pub divide_signed : Machine → ℕ → ℕ → ℕ → Run Exit
divide_signed m pc a b =
    let divided : Run Exit = (do (lo, hi) ← divide a b; set_hi_lo m pc hi lo) in
    if b == 0 then set_hi_lo m pc 0 0 else divided

abbrev pub divide_unsigned : Machine → ℕ → ℕ → ℕ → Run Exit
divide_unsigned m pc a b = if b == 0 then set_hi_lo m pc 0 0 else set_hi_lo m pc (a % b) (a / b)

abbrev pub multiply : Instruction → Machine → ℕ → Bool → Run Exit
multiply i m pc signed_arith = do
  a ← reg m i.rs
  b ← reg m i.rt
  let p = mult a b signed_arith
  set_hi_lo m pc p.hi p.lo

-- What a loaded byte or half word becomes in a register.
abbrev pub extend_byte : Bool → ℕ → ℕ
extend_byte signed_load value =
    let byte = value % 2 ^ 8 in
    if signed_load && not (ltb byte (2 ^ 7)) then byte + (2 ^ 32 - 2 ^ 8) else byte

abbrev pub extend_half : Bool → ℕ → ℕ
extend_half signed_load value =
    let half = value % 2 ^ 16 in
    if signed_load && not (ltb half (2 ^ 15)) then half + (2 ^ 32 - 2 ^ 16) else half

-- What the delayed load of `rt` holds, if one is under way, and else the register.
abbrev pub pending_value : Instruction → Machine → Run ℕ
pending_value i m = do
  target ← reg m load_reg
  value ← reg m load_value_reg
  current ← reg m i.rt
  ok (if target == i.rt then value else current)

-- After an access that raised an exception, the instruction is left.
abbrev pub loaded : Instruction → ℕ → (ℕ → ℕ) → Machine × Option ℕ → Run Exit
loaded i pc f (m, none) = ok (returned m)
loaded i pc f (m, some value) = ok (continued m pc i.rt (f value))

abbrev pub merged : Instruction → ℕ → (ℕ → ℕ → ℕ) → Machine × Option ℕ → Run Exit
merged i pc f (m, none) = ok (returned m)
merged i pc f (m, some value) = do old ← pending_value i m; ok (continued m pc i.rt (f old value))

abbrev pub stored : ℕ → Machine × Bool → Run Exit
stored pc (m, false) = ok (returned m)
stored pc (m, true) = ok (continued m pc 0 0)

module _ (handlers : Handlers) where
  abbrev pub raise : Machine → ExceptionType → ℕ → Run Exit
  raise m et bad_vaddr = do m' ← raise_exception handlers m et bad_vaddr; ok (returned m')

  abbrev pub load : Instruction → Machine → ℕ → ℕ → (ℕ → ℕ) → Run Exit
  load i m pc size f = do
    base ← reg m i.rs
    r ← Processor.read_mem handlers m (add32 base i.extra) size
    loaded i pc f r

  -- With the test of the alignment that `OP_LH` and `OP_LW` make first.
  abbrev pub load_aligned : Instruction → Machine → ℕ → ℕ → (ℕ → ℕ) → Run Exit
  load_aligned i m pc size f = do
    base ← reg m i.rs
    let addr = add32 base i.extra
    if not (addr % size == 0) then raise m address_error addr else load i m pc size f

  -- `OP_LWL` and `OP_LWR`: the assertion leaves only the first case of their switches.
  abbrev pub load_part : Instruction → Machine → ℕ → (ℕ → ℕ → ℕ) → Run Exit
  load_part i m pc f = do
    base ← reg m i.rs
    assert (add32 base i.extra % 4 == 0)
    r ← Processor.read_mem handlers m (add32 base i.extra) 4
    merged i pc f r

  abbrev pub store : Instruction → Machine → ℕ → ℕ → Run Exit
  store i m pc size = do
    base ← reg m i.rs
    value ← reg m i.rt
    r ← Processor.write_mem handlers m (add32 base i.extra) size value
    stored pc r

  abbrev pub store_merged : Instruction → ℕ → ℕ → (ℕ → ℕ → ℕ) → Machine × Option ℕ → Run Exit
  store_merged i pc addr f (m, none) = ok (returned m)
  store_merged i pc addr f (m, some old) = do
    value ← reg m i.rt
    r ← Processor.write_mem handlers m addr 4 (f old value)
    stored pc r

  -- `OP_SWL` and `OP_SWR`, again in the first case.
  abbrev pub store_part : Instruction → Machine → ℕ → (ℕ → ℕ → ℕ) → Run Exit
  store_part i m pc f = do
    base ← reg m i.rs
    assert (add32 base i.extra % 4 == 0)
    r ← Processor.read_mem handlers m (add32 base i.extra) 4
    store_merged i pc (add32 base i.extra) f r

  abbrev pub add_checked : Machine → ℕ → ℕ → ℕ → ℕ → Run Exit
  add_checked m pc r a b =
      if add_overflows a b then raise m overflow 0 else set_reg m pc r (add32 a b)

  abbrev pub sub_checked : Machine → ℕ → ℕ → ℕ → ℕ → Run Exit
  sub_checked m pc r a b =
      if sub_overflows a b then raise m overflow 0 else set_reg m pc r (sub32 a b)

  -- The switch of `ExecInstruction`, with `NEXT_PC_REG` and the next program counter.
  unfoldable pub exec_op : OpCode → Instruction → Machine → ℕ → ℕ → Run Exit
  exec_op op_add i m next pc = do a ← reg m i.rs; b ← reg m i.rt; add_checked m pc i.rd a b
  exec_op op_addi i m next pc = do a ← reg m i.rs; add_checked m pc i.rt i.extra a
  exec_op op_addiu i m next pc = to_rt i m pc add32
  exec_op op_addu i m next pc = to_rd i m pc add32
  exec_op op_and i m next pc = to_rd i m pc bit_and
  exec_op op_andi i m next pc = to_rt i m pc (λ a extra. bit_and a (low_half extra))
  exec_op op_beq i m next pc = do a ← reg m i.rs; b ← reg m i.rt; branch i m pc next (a == b)
  exec_op op_bne i m next pc = do a ← reg m i.rs; b ← reg m i.rt; branch i m pc next (not (a == b))
  exec_op op_bgez i m next pc = branch_on i m pc next (λ a. not (is_negative a))
  exec_op op_bgezal i m next pc = do
    m' ← put m ret_addr_reg (add32 next 4)
    branch_on i m' pc next (λ a. not (is_negative a))
  exec_op op_bgtz i m next pc = branch_on i m pc next (λ a. not (is_negative a) && not (a == 0))
  exec_op op_blez i m next pc = branch_on i m pc next (λ a. is_negative a || a == 0)
  exec_op op_bltz i m next pc = branch_on i m pc next is_negative
  exec_op op_bltzal i m next pc = do
    m' ← put m ret_addr_reg (add32 next 4)
    branch_on i m' pc next is_negative
  exec_op op_div i m next pc = do a ← reg m i.rs; b ← reg m i.rt; divide_signed m pc a b
  exec_op op_divu i m next pc = do a ← reg m i.rs; b ← reg m i.rt; divide_unsigned m pc a b
  exec_op op_j i m next pc = jump i m pc
  exec_op op_jal i m next pc = do m' ← put m ret_addr_reg (add32 next 4); jump i m' pc
  exec_op op_jr i m next pc = jump_reg i m
  exec_op op_jalr i m next pc = do m' ← put m i.rd (add32 next 4); jump_reg i m'
  exec_op op_lb i m next pc = load i m pc 1 (extend_byte true)
  exec_op op_lbu i m next pc = load i m pc 1 (extend_byte false)
  exec_op op_lh i m next pc = load_aligned i m pc 2 (extend_half true)
  exec_op op_lhu i m next pc = load_aligned i m pc 2 (extend_half false)
  exec_op op_lui i m next pc = set_reg m pc i.rt (shift_left i.extra 16)
  exec_op op_lw i m next pc = load_aligned i m pc 4 (λ value. value)
  exec_op op_lwl i m next pc = load_part i m pc (λ old value. value)
  exec_op op_lwr i m next pc =
      load_part i m pc (λ old value. old / 2 ^ 8 * 2 ^ 8 + value / 2 ^ 24 % 2 ^ 8)
  exec_op op_mfhi i m next pc = do a ← reg m hi_reg; set_reg m pc i.rd a
  exec_op op_mflo i m next pc = do a ← reg m lo_reg; set_reg m pc i.rd a
  exec_op op_mthi i m next pc = do a ← reg m i.rs; set_reg m pc hi_reg a
  exec_op op_mtlo i m next pc = do a ← reg m i.rs; set_reg m pc lo_reg a
  exec_op op_mult i m next pc = multiply i m pc true
  exec_op op_multu i m next pc = multiply i m pc false
  exec_op op_nor i m next pc = to_rd i m pc (λ a b. not32 (bit_or a b))
  exec_op op_or i m next pc = to_rd i m pc bit_or
  exec_op op_ori i m next pc = to_rt i m pc (λ a extra. bit_or a (low_half extra))
  exec_op op_sb i m next pc = store i m pc 1
  exec_op op_sh i m next pc = store i m pc 2
  exec_op op_sll i m next pc = do b ← reg m i.rt; set_reg m pc i.rd (shift_left b i.extra)
  exec_op op_sllv i m next pc = to_rd i m pc (λ a b. shift_left b (a % 32))
  exec_op op_slt i m next pc = to_rd i m pc (λ a b. to_nat (less_signed a b))
  exec_op op_slti i m next pc = to_rt i m pc (λ a extra. to_nat (less_signed a extra))
  exec_op op_sltiu i m next pc = to_rt i m pc (λ a extra. to_nat (ltb a extra))
  exec_op op_sltu i m next pc = to_rd i m pc (λ a b. to_nat (ltb a b))
  exec_op op_sra i m next pc = do b ← reg m i.rt; set_reg m pc i.rd (shift_right b i.extra)
  exec_op op_srav i m next pc = to_rd i m pc (λ a b. shift_right b (a % 32))
  -- `tmp` is an `int`, so that these shift in the sign as well.
  exec_op op_srl i m next pc = do tmp ← reg m i.rt; set_reg m pc i.rd (shift_right tmp i.extra)
  exec_op op_srlv i m next pc = to_rd i m pc (λ a tmp. shift_right tmp (a % 32))
  exec_op op_sub i m next pc = do a ← reg m i.rs; b ← reg m i.rt; sub_checked m pc i.rd a b
  exec_op op_subu i m next pc = to_rd i m pc sub32
  exec_op op_sw i m next pc = store i m pc 4
  exec_op op_swl i m next pc = store_part i m pc (λ old value. value)
  exec_op op_swr i m next pc = store_part i m pc (λ old value. old % 2 ^ 24 + shift_left value 24)
  exec_op op_xor i m next pc = to_rd i m pc bit_xor
  exec_op op_xori i m next pc = to_rt i m pc (λ a extra. bit_xor a (low_half extra))
  exec_op op_syscall i m next pc = raise m syscall 0
  exec_op op_res i m next pc = raise m illegal_instr 0
  exec_op op_unimp i m next pc = raise m illegal_instr 0
  -- `default`: `OP_RFE` is in no table, and the two marks never leave `Decode`.
  exec_op op_rfe i m next pc = do assert false; ok (returned m)
  exec_op special i m next pc = do assert false; ok (returned m)
  exec_op bcond i m next pc = do assert false; ok (returned m)

  -- What follows the switch.
  abbrev pub advance : Exit → Run Machine
  advance (returned m) = ok m
  advance (continued m pc_after next_load_reg next_load_value) = do
    m₁ ← delayed_load m next_load_reg next_load_value
    pc ← reg m₁ pc_reg
    m₂ ← put m₁ prev_pc_reg pc
    next ← reg m₂ next_pc_reg
    m₃ ← put m₂ pc_reg next
    put m₃ next_pc_reg pc_after

  unfoldable pub exec_instruction : Machine → Instruction → Run Machine
  exec_instruction m i = do
    next ← reg m next_pc_reg
    exit ← exec_op i.op_code i m next (add32 next 4)
    advance exit

  abbrev pub decoded : Machine × Option ℕ → Run (Machine × Option Instruction)
  decoded (m, none) = ok (m, none)
  decoded (m, some raw) = do i ← decode raw; ok (m, some i)

  unfoldable pub fetch_instruction : Machine → Run (Machine × Option Instruction)
  fetch_instruction m = do pc ← reg m pc_reg; r ← Processor.read_mem handlers m pc 4; decoded r

  abbrev pub executed : Machine × Option Instruction → Run Machine
  executed (m, none) = ok m
  executed (m, some i) = exec_instruction m i

  -- One round of the loop of `Run`, without the tick of the clock and the single stepper.
  unfoldable pub run_once : Machine → Run Machine
  run_once m = fetch_instruction m >>= executed
