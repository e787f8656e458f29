-- ===== src/UserProgram/AddressSpace.antt =====
-- userprog/address_space.cc: the page table of a program, and its code and data in the memory.
-- The bitmap has a bit for each frame of the memory.
pub mod Frames
pub mod Copy
pub mod Program
pub mod Mapped
pub mod Load
pub mod Unload
pub mod Fetch
mod Examples
use so_ii.Base.{
  ℕ, zero, suc, ◌+◌, ◌*◌, ◌/◌, ◌%◌, ◌^◌, Bool, true, false, Option, some, List, [], ◌∷◌, ltb, leb,
  if◌then◌else◌, Run, ok, ◌>>=◌, ◌>>◌, assert, read_at,
}
use so_ii.Base.Memory.{memcpy, memset}
use so_ii.Bitmap.{Bitmap, div_round_up, div_round_down, find, clear, count_clear}
use so_ii.FileHeader.{to_unsigned}
use so_ii.FileSystem.{OpenFile}
use so_ii.Mmu.{Mmu, TranslationEntry, page_size}
use so_ii.UserProgram.Executable.{
  Executable, new_executable, check_magic, get_size, read_code_block, read_data_block,
}

abbrev pub user_stack_size : ℕ
user_stack_size = 1024

pub record AddressSpace : Type 0 where
  pub page_table : List TranslationEntry
  pub num_pages : ℕ

abbrev pub new_entry : ℕ → Option ℕ → TranslationEntry
new_entry i found = record {
  virtual_page = i;
  physical_page = to_unsigned found;
  valid = true;
  use_bit = false;
  dirty = false;
  read_only = false;
}

-- The loop over the pages, with the rounds that are left. The table is given by the entries that it
-- fills, in their order.
unfoldable pub map_pages : ℕ → ℕ → Bitmap → List ℕ → Run (List TranslationEntry × Bitmap × List ℕ)
unfolding find
map_pages zero i bitmap memory = ok ([], bitmap, memory)
map_pages (suc rounds) i bitmap memory = do
  (bitmap', found) ← find bitmap
  let entry = new_entry i found
  assert (leb 0 entry.physical_page)
  memory' ← memset memory entry.physical_page page_size
  (table, bitmap'', memory'') ← map_pages rounds (i + 1) bitmap' memory'
  ok (entry ∷ table, bitmap'', memory'')

-- A loop that copies a block to its virtual addresses, byte by byte from offset `i` on.
unfoldable pub copy_block :
    (ℕ → ℕ → Run (ℕ × List ℕ)) → ℕ → ℕ → ℕ → List TranslationEntry → List ℕ → Run (List ℕ)
copy_block read_block zero i virtual_addr table memory = ok memory
copy_block read_block (suc rounds) i virtual_addr table memory = do
  let addr = (virtual_addr + i) % 2 ^ 32
  entry ← read_at table (div_round_down addr page_size)
  let physical_addr = (entry.physical_page * page_size + addr % page_size) % 2 ^ 32
  (_, bytes) ← read_block 1 i
  memory' ← memcpy memory physical_addr bytes
  copy_block read_block rounds (i + 1) virtual_addr table memory'

module _ (garbage : ℕ → ℕ) (disk : List (List ℕ)) where
  -- The copy of the code, and of the data after it.
  unfoldable pub copy_code : Executable → List TranslationEntry → List ℕ → Run (List ℕ)
  unfolding copy_block
  copy_code exe table memory =
      let code = exe.header.code in
      let copied =
        copy_block (read_code_block garbage disk exe) code.size 0 code.virtual_addr table memory in
      if ltb 0 code.size then copied else ok memory

  unfoldable pub copy_data : Executable → List TranslationEntry → List ℕ → Run (List ℕ)
  unfolding copy_block
  copy_data exe table memory =
      let init_data = exe.header.init_data in
      let copied =
        copy_block (read_data_block garbage disk exe) init_data.size 0 init_data.virtual_addr table
          memory in
      if ltb 0 init_data.size then copied else ok memory

  -- The constructor, with the free frames and the memory.
  unfoldable pub new_address_space :
      OpenFile → Bitmap → List ℕ → Run (AddressSpace × Bitmap × List ℕ)
  unfolding new_executable map_pages copy_code copy_data
  new_address_space executable_file bitmap memory = do
    exe₀ ← new_executable garbage disk executable_file
    let (exe, is_good) = check_magic exe₀
    assert is_good
    let num_pages = div_round_up ((get_size exe + user_stack_size) % 2 ^ 32) page_size
    free ← count_clear bitmap
    assert (leb num_pages free)
    (table, bitmap', memory₁) ← map_pages num_pages 0 bitmap memory
    memory₂ ← copy_code exe table memory₁
    memory₃ ← copy_data exe table memory₂
    ok (record { page_table = table; num_pages = num_pages }, bitmap', memory₃)

-- The loop of the destructor.
unfoldable pub clear_pages : ℕ → ℕ → List TranslationEntry → Bitmap → Run Bitmap
unfolding clear
clear_pages zero i table bitmap = ok bitmap
clear_pages (suc rounds) i table bitmap = do
  entry ← read_at table i
  bitmap' ← clear bitmap entry.physical_page
  clear_pages rounds (i + 1) table bitmap'

unfoldable pub delete_address_space : AddressSpace → Bitmap → Run Bitmap
unfolding clear_pages
delete_address_space space bitmap = clear_pages space.num_pages 0 space.page_table bitmap

abbrev pub restore_state : AddressSpace → Mmu → Mmu
restore_state space m = record m {
  page_table = some space.page_table;
  page_table_size = space.num_pages;
}
