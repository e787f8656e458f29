-- ===== src/UserProgram/Examples.antt =====
-- Examples of strings.
use so_ii.Base.{ℕ, ◌≡◌, refl, true, false, none, some, List, [], ◌∷◌, replicate, ok}
use so_ii.Mmu.{memory_size}
use so_ii.Processor.{Machine, Handlers, num_total_regs, user_mode}
use so_ii.UserProgram.Transfer.{write_buffer_to_user, write_string_to_user}
use so_ii.UserProgram.Strings.{write_string_to_user_lem}

memory : List ℕ
memory = replicate memory_size 255

abbrev machine : Machine
machine = record {
  registers = replicate num_total_regs 0;
  mmu = record {
    main_memory = memory;
    tlb = none;
    page_table = some (
        record {
          virtual_page = 0;
          physical_page = 3;
          valid = true;
          read_only = false;
          use_bit = false;
          dirty = false;
        }
        ∷ []);
    page_table_size = 1;
  };
  status = user_mode;
}

abbrev handlers : Handlers
handlers e = some (λ m. ok m)

-- "hola"
write_string_to_user_lem_example :
    write_string_to_user handlers machine (some (104 ∷ 111 ∷ 108 ∷ 97 ∷ 0 ∷ [])) 10
    ≡ write_buffer_to_user handlers machine (104 ∷ 111 ∷ 108 ∷ 97 ∷ 0 ∷ []) 10 4
write_string_to_user_lem_example =
    write_string_to_user_lem handlers 104 (111 ∷ 108 ∷ 97 ∷ []) [] machine 10 refl
