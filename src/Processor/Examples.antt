-- ===== src/Processor/Examples.antt =====
-- Examples of words, instructions and machines.
use so_ii.Base.{
  ℕ, ◌*◌, ◌%◌, ◌^◌, ◌≡◌, refl, ap, sym, true, false, Option, none, some, ◌⊎◌, List, [], ◌∷◌, length,
  length-replicate, replicate, Run, ok, fault, undefined, arith,
}
use so_ii.Base.Safe.{Safe}
use so_ii.Base.Int.{◌+ℤ◌}
use so_ii.Mmu.{Mmu, memory_size}
use so_ii.Mmu.Translate.{by_page_table}
use so_ii.Processor.{Machine, Handlers, call, system_mode}
use so_ii.Processor.Mult.{double_word, mult}
use so_ii.Processor.Product.{extend, mult_signed-product}
use so_ii.Processor.Divide.{divide, overflows, Divides, divide-Divides}
use so_ii.Processor.Instruction.{Instruction, op_add, decode}
use so_ii.Processor.Execute.{exec_op, run_once}
use so_ii.Processor.Signed.{to_int, IsChecked, exec_op-op_add}
use so_ii.Processor.Decode.{IsInstruction, decode-IsInstruction}
use so_ii.Processor.Keep.{IsRunning, Keeping}
use so_ii.Processor.Running.{run_once-Safe}

mult_signed-product_example :
    double_word (mult 4294967291 7 true) ≡ extend 4294967291 * extend 7 % 2 ^ 64
mult_signed-product_example = mult_signed-product 4294967291 7 (omega arith) (omega arith)

decode-IsInstruction_example : (i : Instruction) × (decode 2408841228 ≡ ok i) × IsInstruction i
decode-IsInstruction_example = decode-IsInstruction 2408841228

divide-Divides_example :
    ((divide 4294967289 2 ≡ fault undefined) × (overflows 4294967289 2 ≡ true))
    ⊎ ((quotient remainder : ℕ) × (divide 4294967289 2 ≡ ok (quotient, remainder))
        × Divides 4294967289 2 quotient remainder)
divide-Divides_example = divide-Divides 4294967289 2 (omega arith) (omega arith) (omega arith)

memory : List ℕ
memory = replicate memory_size 0

length-memory : length memory ≡ memory_size
unfolding memory
length-memory = length-replicate {A = ℕ} memory_size 0

-- Page 0 is in frame 0.
abbrev mmu : Mmu
mmu = record {
  main_memory = memory;
  tlb = none;
  page_table = some (
      record {
        virtual_page = 0;
        physical_page = 0;
        valid = true;
        read_only = false;
        use_bit = false;
        dirty = false;
      }
      ∷ []);
  page_table_size = 1;
}

-- Register 1 holds the greatest `int` and register 2 holds 5; a load of register 4 is under way.
abbrev machine : Machine
machine = record {
  registers =
      0 ∷ 2147483647 ∷ 5 ∷ 0 ∷ 0 ∷ 0 ∷ 0 ∷ 0 ∷ 0 ∷ 0 ∷ 0 ∷ 0 ∷ 0 ∷ 0 ∷ 0 ∷ 0 ∷ 0 ∷ 0 ∷ 0 ∷ 0 ∷ 0 ∷ 0
      ∷ 0 ∷ 0 ∷ 0 ∷ 0 ∷ 0 ∷ 0 ∷ 0 ∷ 0 ∷ 0 ∷ 0 ∷ 0 ∷ 0 ∷ 0 ∷ 4 ∷ 0 ∷ 4 ∷ 77 ∷ 0 ∷ [];
  mmu = mmu;
  status = system_mode;
}

machine-IsRunning : IsRunning machine
machine-IsRunning = record {
  mid = record {
    full = refl;
    pending = omega arith;
    ready = record { full = length-memory; table = by_page_table _ (omega arith) };
  };
  zero_reg = refl;
}

-- Every handler returns at once.
abbrev handlers : Handlers
handlers e = some (λ m. ok m)

apply_some :
    (h : Machine → Run Machine) (m : Machine)
    → ◌≡◌ {A = Option (Machine → Run Machine)} (some (λ m. ok m)) (some h)
    → h m ≡ ok m
apply_some h m e = ap (λ o. call o m) (sym e)

handlers-Keeping : Keeping handlers
handlers-Keeping e h same m running = rw (apply_some h m same) running

run_once-Safe_example : Safe IsRunning (run_once handlers machine)
run_once-Safe_example = run_once-Safe handlers handlers-Keeping machine machine-IsRunning

abbrev three_registers : Instruction
three_registers = record { op_code = op_add; rs = 1; rt = 2; rd = 3; extra = 9 }

exec_op-op_add_example :
    IsChecked handlers machine 8 3
      (to_int 2147483647 +ℤ to_int 5)
      (exec_op handlers op_add three_registers machine 4 8)
exec_op-op_add_example =
    exec_op-op_add handlers three_registers machine 4 8 2147483647 5 (omega arith) (omega arith)
      refl refl
