-- ===== src/Interrupts/Examples.antt =====
-- Examples of pending interrupts.
use so_ii.Base.{
  ℕ, ◌≡◌, refl, false, none, some, List, [], ◌∷◌, length, length-replicate, replicate, Run, ok,
  arith,
}
use so_ii.Base.Int.{pos}
use so_ii.Base.Safe.{Returns}
use so_ii.LinkedList.{node}
use so_ii.Mmu.{memory_size}
use so_ii.Mmu.Translate.{by_tlb}
use so_ii.Processor.{Machine, num_total_regs, user_mode}
use so_ii.Processor.Keep.{IsMid}
use so_ii.Interrupts.{
  Interrupt, PendingInterrupt, int_on, timer_int, disk_int, request_yield, one_tick,
}
use so_ii.Interrupts.Due.{IsPatient, IsEnd, one_tick-IsEnd}

memory : List ℕ
memory = replicate memory_size 0

length-memory : length memory ≡ memory_size
unfolding memory
length-memory = length-replicate {A = ℕ} memory_size 0

abbrev machine : Machine
machine = record {
  registers = replicate num_total_regs 0;
  mmu = record { main_memory = memory; tlb = some []; page_table = none; page_table_size = 0 };
  status = user_mode;
}

machine-IsMid : IsMid machine
machine-IsMid = record {
  full = refl;
  pending = omega arith;
  ready = record { full = length-memory; table = by_tlb [] };
}

abbrev timer : PendingInterrupt ℕ
timer = record { handler = 1; when = 99; kind = timer_int }

abbrev disk : PendingInterrupt ℕ
disk = record { handler = 2; when = 200; kind = disk_int }

-- The interrupt of the timer is due, that of the disk is not.
abbrev state : Interrupt ℕ
state = record {
  level = int_on;
  pending = record { nodes = node timer (pos 99) ∷ node disk (pos 200) ∷ []; size = pos 2 };
  in_handler = false;
  yield_on_return = false;
  stats = record {
    total_ticks = 99;
    idle_ticks = 0;
    system_ticks = 60;
    user_ticks = 39;
    tick_resets = 0;
    num_disk_reads = 0;
    num_disk_writes = 0;
  };
  machine = machine;
}

-- Every handler asks for a context switch.
abbrev ask : ℕ → Interrupt ℕ → Run (Interrupt ℕ)
ask h s = ok (request_yield s)

ask-IsPatient : IsPatient ask
ask-IsPatient h s quiet = (quiet, refl, omega arith)

one_tick-IsEnd_example : Returns IsEnd (one_tick ask timer (λ s. ok s) state)
one_tick-IsEnd_example =
    one_tick-IsEnd ask timer ask-IsPatient (λ s. ok s) state (λ u. tt) machine-IsMid
