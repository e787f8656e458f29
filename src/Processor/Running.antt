-- ===== src/Processor/Running.antt =====
-- Every instruction of machine/mips_sim.cc, and a round of the loop of `Run`, on a machine that is
-- well-formed.
use so_ii.Base.{
  ℕ, ◌<◌, refl, Option, none, some, Run, ◌>>=◌, read_at, bit_and, bit_or, to_nat, ltb, arith,
}
use so_ii.Base.Safe.{Safe, bind-Safe}
use so_ii.Mmu.{syscall, illegal_instr}
use so_ii.Processor.{
  Machine, Handlers, num_gp_regs, hi_reg, lo_reg, pc_reg, next_pc_reg, prev_pc_reg, put, load_reg,
  ret_addr_reg,
}
use Prim.Native.Nat.{bit_xor}
use so_ii.Processor.Words.{add32, less_signed}
use so_ii.Processor.Instruction.{
  Instruction, OpCode, special, bcond, op_add, op_addi, op_addiu, op_addu, op_and, op_andi, op_beq,
  op_bgez, op_bgezal, op_bgtz, op_blez, op_bltz, op_bltzal, op_bne, op_div, op_divu, op_j, op_jal,
  op_jalr, op_jr, op_lb, op_lbu, op_lh, op_lhu, op_lui, op_lw, op_lwl, op_lwr, op_mfhi, op_mflo,
  op_mthi, op_mtlo, op_mult, op_multu, op_nor, op_or, op_ori, op_rfe, op_sb, op_sh, op_sll, op_sllv,
  op_slt, op_slti, op_sltiu, op_sltu, op_sra, op_srav, op_srl, op_srlv, op_sub, op_subu, op_sw,
  op_swl, op_swr, op_xor, op_xori, op_syscall, op_unimp, op_res,
}
use so_ii.Processor.Decode.{IsInstruction, decode-IsInstruction}
use so_ii.Processor.Keep.{
  IsMid, IsRunning, IsRead, Keeping, with_reg, put-with_reg, with_reg-IsRunning, reg-Safe, put-Safe,
  after_load, delayed_load-after_load, after_load-IsRunning, read_mem-Safe,
}
use so_ii.Processor.Execute.{
  Exit, low_half, returned, continued, exec_op, advance, exec_instruction, decoded,
  fetch_instruction, executed, run_once,
}
use so_ii.Processor.Safe.{
  IsExit, from_rs, from_rt, from_both, link-Safe, set_reg-Safe, divide_signed-Safe,
  divide_unsigned-Safe, to_rd-Safe, to_rt-Safe, branch_on-Safe, raise-Safe, load-Safe,
  load_aligned-Safe, load_part-Safe, store-Safe, store_part-Safe, add_checked-Safe,
  sub_checked-Safe, set_hi_lo-Safe,
}

module _ (handlers : Handlers) (keeping : Keeping handlers) (i : Instruction)
    (good : IsInstruction i) where
  exec_op-Safe :
      (op : OpCode) (m : Machine) (next pc : ℕ)
      → IsMid m
      → Safe IsExit (exec_op handlers op i m next pc)
  unfolding exec_op
  exec_op-Safe op_add m next pc mid =
      from_both i good m _ mid
        (λ a b. add_checked-Safe handlers keeping i good m pc i.rd a b mid good.rd_small)
  exec_op-Safe op_addi m next pc mid =
      from_rs i good m _ mid
        (λ a. add_checked-Safe handlers keeping i good m pc i.rt i.extra a mid good.rt_small)
  exec_op-Safe op_addiu m next pc mid = to_rt-Safe i good m pc add32 mid
  exec_op-Safe op_addu m next pc mid = to_rd-Safe i good m pc _ mid
  exec_op-Safe op_and m next pc mid = to_rd-Safe i good m pc _ mid
  exec_op-Safe op_andi m next pc mid =
      to_rt-Safe i good m pc (λ a extra. bit_and a (low_half extra)) mid
  exec_op-Safe op_beq m next pc mid = from_both i good m _ mid (λ a b. (mid, omega arith))
  exec_op-Safe op_bne m next pc mid = from_both i good m _ mid (λ a b. (mid, omega arith))
  exec_op-Safe op_bgez m next pc mid = branch_on-Safe i good m pc next _ mid
  exec_op-Safe op_bgtz m next pc mid = branch_on-Safe i good m pc next _ mid
  exec_op-Safe op_blez m next pc mid = branch_on-Safe i good m pc next _ mid
  exec_op-Safe op_bgezal m next pc mid =
      link-Safe m ret_addr_reg (add32 next 4) _ mid (omega arith)
        (λ m' mid'. branch_on-Safe i good m' pc next _ mid')
  exec_op-Safe op_bltzal m next pc mid =
      link-Safe m ret_addr_reg (add32 next 4) _ mid (omega arith)
        (λ m' mid'. branch_on-Safe i good m' pc next _ mid')
  exec_op-Safe op_bltz m next pc mid = branch_on-Safe i good m pc next _ mid
  exec_op-Safe op_div m next pc mid =
      from_both i good m _ mid (λ a b. divide_signed-Safe m pc a b mid)
  exec_op-Safe op_divu m next pc mid =
      from_both i good m _ mid (λ a b. divide_unsigned-Safe m pc a b mid)
  exec_op-Safe op_j m next pc mid = (mid, omega arith)
  exec_op-Safe op_jal m next pc mid =
      link-Safe m ret_addr_reg (add32 next 4) _ mid (omega arith) (λ m' mid'. (mid', omega arith))
  exec_op-Safe op_jr m next pc mid = from_rs i good m _ mid (λ target. (mid, omega arith))
  exec_op-Safe op_jalr m next pc mid =
      link-Safe m i.rd (add32 next 4) _ mid good.rd_small
        (λ m' mid'. from_rs i good m' _ mid' (λ target. (mid', omega arith)))
  exec_op-Safe op_lb m next pc mid = load-Safe handlers keeping i good m pc 1 _ mid refl
  exec_op-Safe op_lbu m next pc mid = load-Safe handlers keeping i good m pc 1 _ mid refl
  exec_op-Safe op_lh m next pc mid = load_aligned-Safe handlers keeping i good m pc 2 _ mid refl
  exec_op-Safe op_lhu m next pc mid = load_aligned-Safe handlers keeping i good m pc 2 _ mid refl
  exec_op-Safe op_lui m next pc mid = set_reg-Safe m pc i.rt _ mid (omega (arith, good.rt_small))
  exec_op-Safe op_lw m next pc mid = load_aligned-Safe handlers keeping i good m pc 4 _ mid refl
  exec_op-Safe op_lwl m next pc mid = load_part-Safe handlers keeping i good m pc _ mid
  exec_op-Safe op_lwr m next pc mid = load_part-Safe handlers keeping i good m pc _ mid
  exec_op-Safe op_mfhi m next pc mid =
      reg-Safe IsExit m hi_reg _ mid (omega arith)
        (λ a. set_reg-Safe m pc i.rd a mid (omega (arith, good.rd_small)))
  exec_op-Safe op_mflo m next pc mid =
      reg-Safe IsExit m lo_reg _ mid (omega arith)
        (λ a. set_reg-Safe m pc i.rd a mid (omega (arith, good.rd_small)))
  exec_op-Safe op_mthi m next pc mid =
      from_rs i good m _ mid (λ a. set_reg-Safe m pc hi_reg a mid (omega arith))
  exec_op-Safe op_mtlo m next pc mid =
      from_rs i good m _ mid (λ a. set_reg-Safe m pc lo_reg a mid (omega arith))
  exec_op-Safe op_mult m next pc mid = from_both i good m _ mid (λ a b. set_hi_lo-Safe m pc _ _ mid)
  exec_op-Safe op_multu m next pc mid =
      from_both i good m _ mid (λ a b. set_hi_lo-Safe m pc _ _ mid)
  exec_op-Safe op_nor m next pc mid = to_rd-Safe i good m pc _ mid
  exec_op-Safe op_or m next pc mid = to_rd-Safe i good m pc _ mid
  exec_op-Safe op_ori m next pc mid =
      to_rt-Safe i good m pc (λ a extra. bit_or a (low_half extra)) mid
  exec_op-Safe op_sb m next pc mid = store-Safe handlers keeping i good m pc 1 mid refl
  exec_op-Safe op_sh m next pc mid = store-Safe handlers keeping i good m pc 2 mid refl
  exec_op-Safe op_sll m next pc mid =
      from_rt i good m _ mid (λ b. set_reg-Safe m pc i.rd _ mid (omega (arith, good.rd_small)))
  exec_op-Safe op_sllv m next pc mid = to_rd-Safe i good m pc _ mid
  exec_op-Safe op_slt m next pc mid = to_rd-Safe i good m pc _ mid
  exec_op-Safe op_slti m next pc mid =
      to_rt-Safe i good m pc (λ a extra. to_nat (less_signed a extra)) mid
  exec_op-Safe op_sltiu m next pc mid = to_rt-Safe i good m pc (λ a extra. to_nat (ltb a extra)) mid
  exec_op-Safe op_sltu m next pc mid = to_rd-Safe i good m pc _ mid
  exec_op-Safe op_sra m next pc mid =
      from_rt i good m _ mid (λ b. set_reg-Safe m pc i.rd _ mid (omega (arith, good.rd_small)))
  exec_op-Safe op_srav m next pc mid = to_rd-Safe i good m pc _ mid
  exec_op-Safe op_srl m next pc mid =
      from_rt i good m _ mid (λ b. set_reg-Safe m pc i.rd _ mid (omega (arith, good.rd_small)))
  exec_op-Safe op_srlv m next pc mid = to_rd-Safe i good m pc _ mid
  exec_op-Safe op_sub m next pc mid =
      from_both i good m _ mid
        (λ a b. sub_checked-Safe handlers keeping i good m pc i.rd a b mid good.rd_small)
  exec_op-Safe op_subu m next pc mid = to_rd-Safe i good m pc _ mid
  exec_op-Safe op_sw m next pc mid = store-Safe handlers keeping i good m pc 4 mid refl
  exec_op-Safe op_swl m next pc mid = store_part-Safe handlers keeping i good m pc _ mid
  exec_op-Safe op_swr m next pc mid = store_part-Safe handlers keeping i good m pc _ mid
  exec_op-Safe op_xor m next pc mid = to_rd-Safe i good m pc _ mid
  exec_op-Safe op_xori m next pc mid =
      to_rt-Safe i good m pc (λ a extra. bit_xor a (low_half extra)) mid
  exec_op-Safe op_syscall m next pc mid = raise-Safe handlers keeping i good m syscall 0 mid
  exec_op-Safe op_res m next pc mid = raise-Safe handlers keeping i good m illegal_instr 0 mid
  exec_op-Safe op_unimp m next pc mid = raise-Safe handlers keeping i good m illegal_instr 0 mid
  exec_op-Safe op_rfe m next pc mid = tt
  exec_op-Safe special m next pc mid = tt
  exec_op-Safe bcond m next pc mid = tt

set_pc-Safe :
    (m : Machine) (r v : ℕ) (f : Machine → Run Machine)
    → IsRunning m
    → num_gp_regs < r
    → r < load_reg
    → ((m' : Machine) → IsRunning m' → Safe IsRunning (f m'))
    → Safe IsRunning (put m r v >>= f)
set_pc-Safe m r v f running h h' k =
    put-Safe IsRunning m r v f running.mid (omega arith)
      (k (with_reg m r v) (with_reg-IsRunning m r v running (omega arith) (omega arith)))

-- The state that follows the switch, after `DelayedLoad`.
advance_pc-Safe :
    (m : Machine) (pc_after : ℕ)
    → IsRunning m
    → Safe IsRunning (do
      pc ← read_at m.registers pc_reg
      m₂ ← put m prev_pc_reg pc
      next ← read_at m₂.registers next_pc_reg
      m₃ ← put m₂ pc_reg next
      put m₃ next_pc_reg pc_after)
advance_pc-Safe m pc_after running = reg-Safe IsRunning m pc_reg _ running.mid (omega arith) (λ pc.
    set_pc-Safe m prev_pc_reg pc _ running (omega arith) (omega arith) (λ m₂ running₂.
      reg-Safe IsRunning m₂ next_pc_reg _ running₂.mid (omega arith) (λ next.
        set_pc-Safe m₂ pc_reg next _ running₂ (omega arith) (omega arith) (λ m₃ running₃.
          rw (put-with_reg m₃ next_pc_reg pc_after (omega (arith, running₃.mid.full)))
            (with_reg-IsRunning m₃ next_pc_reg pc_after running₃ (omega arith) (omega arith))))))

module _ (handlers : Handlers) where
  advance-Safe : (exit : Exit) → IsExit exit → Safe IsRunning (advance handlers exit)
  advance-Safe (returned m) running = running
  advance-Safe (continued m pc_after r v) (mid, small) =
      rw (delayed_load-after_load m r v mid)
        (advance_pc-Safe (after_load m r v) pc_after (after_load-IsRunning m r v mid small))

-- What `FetchInstruction` leaves, with the instruction or after an exception.
abbrev IsFetched : Machine × Option Instruction → Type 0
IsFetched (m, none) = IsRunning m
IsFetched (m, some i) = IsMid m × IsInstruction i

module _ (handlers : Handlers) (keeping : Keeping handlers) where
  exec_instruction-Safe :
      (m : Machine) (i : Instruction)
      → IsInstruction i
      → IsMid m
      → Safe IsRunning (exec_instruction handlers m i)
  unfolding exec_instruction
  exec_instruction-Safe m i good mid = reg-Safe IsRunning m next_pc_reg _ mid (omega arith) (λ next.
      bind-Safe IsExit IsRunning _ _
        (exec_op-Safe handlers keeping i good i.op_code m next (add32 next 4) mid)
        (advance-Safe handlers))

  decoded-Safe : (r : Machine × Option ℕ) → IsRead r → Safe IsFetched (decoded handlers r)
  decoded-Safe (m, none) running = running
  decoded-Safe (m, some raw) mid =
      let (i, run, good) = decode-IsInstruction raw in rw run (mid, good)

  fetch_instruction-Safe : (m : Machine) → IsMid m → Safe IsFetched (fetch_instruction handlers m)
  unfolding fetch_instruction
  fetch_instruction-Safe m mid = reg-Safe IsFetched m pc_reg _ mid (omega arith) (λ pc.
      bind-Safe IsRead IsFetched _ _ (read_mem-Safe handlers keeping m pc 4 mid refl) decoded-Safe)

  executed-Safe :
      (r : Machine × Option Instruction) → IsFetched r → Safe IsRunning (executed handlers r)
  executed-Safe (m, none) running = running
  executed-Safe (m, some i) (mid, good) = exec_instruction-Safe m i good mid

  -- A round of the loop of `Run`: it fetches an instruction and executes it. If the memory is ready,
  -- the registers are all there, register 0 holds 0 and every handler keeps this, the round either is
  -- stopped by an assertion or by a division that C++ leaves undefined, or it ends in such a machine;
  -- no access is outside of the registers, the memory, the tables of the decoder or a page table.
  pub run_once-Safe : (m : Machine) → IsRunning m → Safe IsRunning (run_once handlers m)
  unfolding run_once
  run_once-Safe m running =
      bind-Safe IsFetched IsRunning _ _ (fetch_instruction-Safe m running.mid) executed-Safe
