-- ===== src/UserProgram/AddressSpace/Examples.antt =====
-- Examples of a program that is loaded.
use so_ii.Base.{
  ℕ, ◌+◌, ◌≤◌, ◌<◌, ◌≡◌, refl, true, sym, ap, ◌^◌, ◌⊎◌, false, none, inl, inr, List, [], ◌∷◌, ◌++◌,
  length, length-replicate, replicate, get_or, set, ok, arith,
}
use mathlib.Core.Path.{subst}
use so_ii.Base.Bits.{bit}
use so_ii.Bitmap.{Bitmap}
use so_ii.Bitmap.View.{IsValid, is_set}
use so_ii.Bitmap.Find.{clears, free_bits}
use so_ii.FileSystem.{OpenFile}
use so_ii.Mmu.{Mmu, page_size, memory_size, sign_extend, read_mem}
use so_ii.OpenFile.Sectors.{byte_in, set-IsFile}
use so_ii.OpenFile.Examples.{disk, header, file}
use so_ii.UserProgram.Executable.{NoffHeader, word_at}
use so_ii.UserProgram.AddressSpace.{
  AddressSpace, new_address_space, delete_address_space, restore_state, user_stack_size,
}
use so_ii.UserProgram.AddressSpace.Program.{noff_in, pages_of, IsProgram, IsBlock}
use so_ii.UserProgram.AddressSpace.Load.{Loads, new_address_space-Loads}
use so_ii.UserProgram.AddressSpace.Unload.{
  delete_address_space-new_address_space, last_frame, new_address_space_damages,
}
use so_ii.UserProgram.AddressSpace.Fetch.{read_mem-new_address_space}

-- A program with 8 bytes of code and 4 of data.
abbrev program_sector : List ℕ
program_sector =
    (173 ∷ 223 ∷ 186 ∷ 0 ∷ [])
    ++ (0 ∷ 0 ∷ 0 ∷ 0 ∷ 40 ∷ 0 ∷ 0 ∷ 0 ∷ 8 ∷ 0 ∷ 0 ∷ 0 ∷ [])
    ++ (8 ∷ 0 ∷ 0 ∷ 0 ∷ 48 ∷ 0 ∷ 0 ∷ 0 ∷ 4 ∷ 0 ∷ 0 ∷ 0 ∷ [])
    ++ replicate 12 0
    ++ (12 ∷ 0 ∷ 0 ∷ 0 ∷ 255 ∷ 0 ∷ 0 ∷ 0 ∷ [])
    ++ (1 ∷ 2 ∷ 3 ∷ 4 ∷ [])
    ++ replicate 76 0

abbrev program_disk : List (List ℕ)
program_disk = set disk 9 program_sector

abbrev program_file : OpenFile
program_file = record { header = header; seek_position = 0 }

program_header : NoffHeader
program_header = record {
  noff_magic = 12246957;
  code = record { virtual_addr = 0; in_file_addr = 40; size = 8 };
  init_data = record { virtual_addr = 8; in_file_addr = 48; size = 4 };
  uninit_data = record { virtual_addr = 0; in_file_addr = 0; size = 0 };
}

noff : noff_in header program_disk ≡ program_header
unfolding word_at disk program_header
noff = refl

by_header : (P : NoffHeader → Type 0) → P program_header → P (noff_in header program_disk)
by_header P h = subst P (sym noff) h

program : IsProgram header program_disk
unfolding program_header
program = record {
  file = set-IsFile header disk file 9 program_sector (omega arith) refl;
  long = omega arith;
  magic = ap (λ (n : NoffHeader). n.noff_magic) noff;
  no_wrap =
      by_header
        (λ n. n.code.size + n.init_data.size + n.uninit_data.size + user_stack_size < 2 ^ 32)
        (omega arith);
  code =
      by_header (λ n. IsBlock header (pages_of n) n.code)
        (record { in_file = omega arith; in_pages = omega arith });
  init_data =
      by_header (λ n. IsBlock header (pages_of n) n.init_data)
        (record { in_file = omega arith; in_pages = omega arith });
  apart =
      by_header
        (λ n.
          (n.code.virtual_addr + n.code.size ≤ n.init_data.virtual_addr)
          ⊎ (n.init_data.virtual_addr + n.init_data.size ≤ n.code.virtual_addr))
        (inl (omega arith));
}

-- The frames, the first of which is another program's.
abbrev bitmap : Bitmap
bitmap = record { num_bits = 128; num_words = 4; words = 1 ∷ 0 ∷ 0 ∷ 0 ∷ [] }

memory : List ℕ
memory = replicate memory_size 0

length-memory : length memory ≡ memory_size
unfolding memory
length-memory = length-replicate {A = ℕ} memory_size 0

free : free_bits bitmap ≡ 127
unfolding clears is_set bit
free = refl

enough : pages_of (noff_in header program_disk) ≤ free_bits bitmap
unfolding program_header
enough = by_header (λ n. pages_of n ≤ free_bits bitmap) (omega (arith, free))

valid : IsValid bitmap
valid = record { sized = refl; full = refl }

new_address_space-Loads_example : Loads (λ i. i) program_disk program_file bitmap memory
new_address_space-Loads_example =
    new_address_space-Loads (λ i. i) program_disk program_file bitmap memory program valid refl
      length-memory enough

delete_address_space-new_address_space_example :
    (space : AddressSpace) × (bm₁ bm₂ : Bitmap) × (memory₁ : List ℕ) × (new_address_space
        (λ i. i)
        program_disk
        program_file
        bitmap
        memory
      ≡ ok (space, bm₁, memory₁))
    × (delete_address_space space bm₁ ≡ ok bm₂)
    × ((s : ℕ) → is_set bm₂ s ≡ is_set bitmap s)
delete_address_space-new_address_space_example =
    delete_address_space-new_address_space (λ i. i) program_disk program_file bitmap memory program
      valid refl length-memory enough

new_address_space_damages_example :
    (space : AddressSpace) × (bm₁ : Bitmap) × (memory₁ : List ℕ) × (new_address_space
        (λ i. i)
        program_disk
        program_file
        bitmap
        memory
      ≡ ok (space, bm₁, memory₁))
    × (0 < space.num_pages)
    × (is_set bitmap (last_frame space) ≡ false)
    × (is_set bm₁ (last_frame space) ≡ true)
    × ((j : ℕ) → j < page_size → get_or memory₁ j 0 ≡ last_frame space)
unfolding is_set bit
new_address_space_damages_example =
    new_address_space_damages (λ i. i) program_disk program_file bitmap memory program valid refl
      length-memory enough refl

abbrev mmu : Mmu
mmu = record { main_memory = memory; tlb = none; page_table = none; page_table_size = 0 }

five_inside : 5 < (noff_in header program_disk).code.size
unfolding program_header
five_inside = by_header (λ n. 5 < n.code.size) (omega arith)

read_mem-new_address_space_example :
    (space : AddressSpace) × (bm₁ : Bitmap) × (memory₁ : List ℕ) × (m' : Mmu) × (new_address_space
        (λ i. i)
        program_disk
        program_file
        bitmap
        memory
      ≡ ok (space, bm₁, memory₁))
    × (read_mem
          (restore_state space (record mmu { main_memory = memory₁ }))
          ((noff_in header program_disk).code.virtual_addr + 5)
          1
        ≡ ok (
          m',
          inr (
              sign_extend (
                byte_in header program_disk ((noff_in header program_disk).code.in_file_addr + 5))),
        ))
read_mem-new_address_space_example =
    read_mem-new_address_space (λ i. i) program_disk program_file bitmap memory program valid refl
      length-memory enough mmu 5 refl five_inside
