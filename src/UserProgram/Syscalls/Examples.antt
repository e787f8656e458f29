-- ===== src/UserProgram/Syscalls/Examples.antt =====
-- Examples of system calls.
use so_ii.Base.{
  Bool, ℕ, ◌+◌, ◌/◌, ◌%◌, ap, inr, length-replicate, ◌-◌, ◌<◌, ◌≡◌, refl, true, false, ◌⊎◌, Option,
  none, some, List, [], ◌∷◌, ◌++◌, length, get_or, set, min, replicate, ok, fault, assertion,
  out_of_bounds, arith,
}
use so_ii.Base.Int.{pos}
use so_ii.FileSystem.{OpenFile}
use so_ii.LinkedList
use so_ii.LinkedList.{is_empty}
use so_ii.Mmu
use so_ii.Mmu.{Mmu, memory_size, translate, read_bytes}
use so_ii.OpenFile.{seek}
use so_ii.OpenFile.Examples.{disk, header, file}
use so_ii.Processor
use so_ii.Processor.{Machine, Handlers, user_mode, read_register}
use so_ii.UserProgram.Transfer.{read_string_from_user, read_string_from}
use so_ii.UserProgram.Syscalls.{Kernel, console_output, set_result, enter_file, sys_read, sys_write}
use so_ii.Table.{Table}
use so_ii.Table.Add.{IsValid, Adds}
use so_ii.UserProgram.Syscalls.{get_file_opened}
use so_ii.UserProgram.Syscalls.Opens.{enter_file-Adds}
use so_ii.UserProgram.Syscalls.Errors.{sys_write_overruns}
use so_ii.OpenFile.Write.{Puts}
use so_ii.UserProgram.Syscalls.Writes.{sys_write-Puts}
use so_ii.UserProgram.Syscalls.Transfers.{Asks, with_file, sys_read_stops}
use so_ii.Mmu.Translate.{by_page_table}
use so_ii.UserProgram.Stores.{IsWritable}
use so_ii.UserProgram.Syscalls.Delivers.{available, Delivers, sys_read-Delivers}

memory : List ℕ
memory = replicate memory_size 255

-- Page 0 is in frame 3.
abbrev mmu : (used : Bool) → Mmu
mmu used = record {
  main_memory = memory;
  tlb = none;
  page_table = some (
      record {
        virtual_page = 0;
        physical_page = 3;
        valid = true;
        read_only = false;
        use_bit = used;
        dirty = false;
      }
      ∷ []);
  page_table_size = 1;
}

-- The address 8, a number of bytes and a file are in the registers 4 to 6.
abbrev machine : ℕ → ℕ → Machine
machine size file_id = record {
  registers = (0 ∷ 0 ∷ 14 ∷ 0 ∷ 8 ∷ size ∷ file_id ∷ []) ++ replicate 33 0;
  mmu = mmu false;
  status = user_mode;
}

abbrev handlers : Handlers
handlers e = some (λ m. ok m)

abbrev garbage : ℕ → ℕ
garbage i = i

abbrev open_at : ℕ → OpenFile
open_at position = record { header = header; seek_position = position }

-- A file of 200 bytes is open at a position; it is the only one.
abbrev system : ℕ → ℕ → ℕ → Kernel
system size file_id position = record {
  machine = machine size file_id;
  opened_files = record {
    data_items = some (open_at position) ∷ replicate 19 none;
    current = pos 1;
    freed = LinkedList.empty;
  };
  file_system = record {
    free_map = record { num_bits = 1024; num_words = 32; words = replicate 32 0 };
    directory = record { table_size = 0; table = [] };
    headers = λ sector. header;
  };
  sectors = disk;
  console = record { incoming = λ i. 0; received = 0; sent = [] };
}

asks : (position : ℕ) → Asks (system 120 2 position) 8 120 2 (open_at position)
unfolding read_register LinkedList.has
asks position = record {
  first = refl;
  second = refl;
  third = refl;
  not_null = omega arith;
  some_bytes = omega arith;
  is_int = omega arith;
  past_console = omega arith;
  is_file = omega arith;
  opened = refl;
  slot = omega arith;
  item = refl;
}

length-memory : length memory ≡ memory_size
unfolding memory
length-memory = length-replicate {A = ℕ} memory_size 255

-- The addresses from 8 on are in the frame 3.
writable : IsWritable (mmu false) 8 (available (open_at 100) 120) (λ k. 392 + k)
writable = record {
  ready = record { full = length-memory; table = by_page_table _ (omega arith) };
  no_wrap = omega arith;
  mapped = λ k less. rw (in_page k less, offset k less) (ap inr (omega arith));
  distinct = λ j k lj lk e. omega (arith, e);
}
  where
    in_page : (k : ℕ) → k < 100 → (8 + k) / 128 ≡ 0
    in_page k h = omega arith

    offset : (k : ℕ) → k < 100 → (8 + k) % 128 ≡ 8 + k
    offset k h = omega arith

sys_read-Delivers_example :
    Delivers handlers garbage header (system 120 2 100) 120 2 (open_at 100) (λ k. 392 + k)
sys_read-Delivers_example =
    sys_read-Delivers handlers garbage header (system 120 2 100) 8 120 2 (open_at 100)
      (λ k. 392 + k) (asks 100) file (omega arith) (omega arith) writable refl

sys_read_stops_example : sys_read handlers garbage header (system 120 2 200) ≡ fault assertion
sys_read_stops_example =
    sys_read_stops handlers garbage header (system 120 2 200) 8 120 2 (open_at 200) (asks 200)
      (omega arith)

opened-IsValid : IsValid (system 20 2 0).opened_files
opened-IsValid = record { bound = 1; current = refl; small = omega arith; full = refl; freed = tt }

enter_file-Adds_example :
    (((system 20 2 0).opened_files.freed.nodes ≡ [])
      × ((system 20 2 0).opened_files.current ≡ pos 20)
      × (enter_file handlers garbage header (system 20 2 0) (some (open_at 0))
          ≡ set_result (system 20 2 0) console_output))
    ⊎ ((i : ℕ) × (table : Table (Option OpenFile)) × Adds none
          (system 20 2 0).opened_files
          (some (open_at 0))
          i
          table
        × (get_file_opened (record (system 20 2 0) { opened_files = table }) (i + 2)
            ≡ ok (some (open_at 0)))
        × (enter_file handlers garbage header (system 20 2 0) (some (open_at 0))
            ≡ set_result (record (system 20 2 0) { opened_files = table }) (i + 2)))
enter_file-Adds_example =
    enter_file-Adds handlers garbage header (system 20 2 0) (open_at 0) opened-IsValid

abbrev after : Machine
after = record (machine 20 1) { mmu = mmu true }

string : read_string_from_user handlers (machine 20 1) 8 100 ≡ ok (after, replicate 100 255, false)
unfolding read_string_from_user read_string_from Processor.read_mem Mmu.read_mem translate
    read_bytes memory
string = refl

registers :
    (read_register (machine 20 1) 4 ≡ ok 8)
    × (read_register (machine 20 1) 5 ≡ ok 20)
    × (read_register (machine 20 1) 6 ≡ ok 1)
unfolding read_register
registers = (refl, refl, refl)

sys_write_overruns_example : sys_write handlers garbage header (system 20 1 0) ≡ fault out_of_bounds
sys_write_overruns_example =
    sys_write_overruns handlers garbage header (system 20 1 0) 8 20 1 after (replicate 100 255)
      false registers.0 registers.1 registers.2 (omega arith) (omega arith) (omega arith) string
      (omega arith)

-- "ho" at the address 8.
greeting : List ℕ
greeting = set (set (replicate memory_size 0) 392 104) 393 111

abbrev greeting_machine : Bool → Machine
greeting_machine used = record (machine 20 2) { mmu = record (mmu used) { main_memory = greeting } }

abbrev greeting_system : Kernel
greeting_system = record (system 20 2 150) { machine = greeting_machine false }

greeting_string :
    read_string_from_user handlers (greeting_machine false) 8 100
    ≡ ok (greeting_machine true, 104 ∷ 111 ∷ 0 ∷ [], true)
unfolding read_string_from_user read_string_from Processor.read_mem Mmu.read_mem translate
    read_bytes greeting
greeting_string = refl

greeting-Asks : Asks greeting_system 8 20 2 (open_at 150)
unfolding read_register LinkedList.has
greeting-Asks = record {
  first = refl;
  second = refl;
  third = refl;
  not_null = omega arith;
  some_bytes = omega arith;
  is_int = omega arith;
  past_console = omega arith;
  is_file = omega arith;
  opened = refl;
  slot = omega arith;
  item = refl;
}

sys_write-Puts_example :
    (buffer : List ℕ) × (length buffer ≡ 20)
    × ((j : ℕ) → j < 3 → get_or buffer j 0 ≡ get_or (104 ∷ 111 ∷ 0 ∷ []) j 0)
    × (p : Puts garbage header disk buffer 20 150) × (sys_write handlers garbage header
          greeting_system
        ≡ set_result
            (record (with_file greeting_system 2
              (seek (open_at 150) (150 + min 20 (200 - 150)))
              (greeting_machine true)) { sectors = p.after })
            0)
sys_write-Puts_example =
    sys_write-Puts handlers garbage header greeting_system 8 20 2 (open_at 150) greeting-Asks
      (greeting_machine true) (104 ∷ 111 ∷ 0 ∷ []) greeting_string (omega arith) file (omega arith)
      (omega arith)
