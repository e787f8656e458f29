-- ===== src/Mmu/Examples.antt =====
-- Examples of machines.
use so_ii.Base.{
  ℕ, ◌≡◌, refl, true, false, none, some, List, [], ◌∷◌, inr, length, length-replicate, replicate,
  ok, arith,
}
use so_ii.Mmu.{Mmu, no_exception, memory_size, write_mem, read_mem}
use so_ii.Mmu.Translate.{by_page_table, IsReady, Translates}
use so_ii.Mmu.Access.{translate-Translates}
use so_ii.Mmu.Store.{stored, read_mem-write_mem}

memory : List ℕ
memory = replicate memory_size 0

length-memory : length memory ≡ memory_size
unfolding memory
length-memory = length-replicate {A = ℕ} memory_size 0

-- Page 0 is in frame 5, page 1 is read-only.
abbrev machine : Mmu
machine = record {
  main_memory = memory;
  tlb = none;
  page_table = some (
      record {
        virtual_page = 0;
        physical_page = 5;
        valid = true;
        read_only = false;
        use_bit = false;
        dirty = false;
      }
      ∷ record {
        virtual_page = 1;
        physical_page = 6;
        valid = true;
        read_only = true;
        use_bit = false;
        dirty = false;
      }
      ∷ []);
  page_table_size = 2;
}

machine-IsReady : IsReady machine
machine-IsReady = record { full = length-memory; table = by_page_table _ (omega arith) }

translate-Translates_example : Translates machine 12 4 true
translate-Translates_example = translate-Translates machine 12 4 true machine-IsReady refl

read_mem-write_mem_example :
    (m₁ : Mmu) × (m₂ : Mmu) × (write_mem machine 12 4 70000 ≡ ok (m₁, no_exception))
    × IsReady m₁
    × (read_mem m₁ 12 4 ≡ ok (m₂, inr (stored 4 70000)))
read_mem-write_mem_example = read_mem-write_mem machine 12 4 70000 652 machine-IsReady refl refl
