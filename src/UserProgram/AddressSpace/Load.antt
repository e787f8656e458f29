-- ===== src/UserProgram/AddressSpace/Load.antt =====
-- What the constructor of userprog/address_space.cc does to the frames and the memory.
use so_ii.Base.{
  ℕ, zero, suc, ◌+◌, ◌*◌, ◌/◌, ◌%◌, ◌^◌, ◌≤◌, ◌<◌, ◌≡◌, ◌≢◌, refl, sym, ap, ◌∙◌, true, some, List,
  length, get_or, ltb, le→leb, Run, ok, arith, if◌then◌else◌,
}
use so_ii.Bitmap.{Bitmap}
use so_ii.Bitmap.View.{IsValid}
use so_ii.Bitmap.Find.{clears, free_bits, count_clear-free_bits}
use so_ii.Bitmap.Takes.{Takes}
use so_ii.FileSystem.{OpenFile}
use so_ii.Mmu.{TranslationEntry, page_size, num_phys_pages, memory_size}
use so_ii.OpenFile.Sectors.{byte_in}
use so_ii.UserProgram.Executable.{read_block}
use so_ii.UserProgram.AddressSpace.{
  user_stack_size, copy_block, copy_code, copy_data, new_address_space, new_entry,
}
use so_ii.UserProgram.AddressSpace.Frames.{last_or, frames, entry_at, map_pages-Maps}
use so_ii.UserProgram.AddressSpace.Program.{
  noff_in, pages_of, IsProgram, new_executable-noff_in, read_block-byte_in,
}
use so_ii.UserProgram.AddressSpace.Copy.{physical, physical-distinct, copy_block-Places}
use so_ii.UserProgram.AddressSpace.Mapped.{Takes-IsMapped, length-frames}

clears-rounds : (rounds i : ℕ) (bm : Bitmap) → clears rounds i bm ≤ rounds
unfolding clears
clears-rounds zero i bm = omega arith
clears-rounds (suc rounds) i bm = ground (arith, clears-rounds rounds (i + 1) bm)

free_bits-num_bits : (bm : Bitmap) → free_bits bm ≤ bm.num_bits
free_bits-num_bits bm = clears-rounds bm.num_bits 0 bm

-- What the constructor does, for a program and its frames: the pages are in frames that were free and are
-- marked now, the blocks of the file are at their addresses, and the memory of other frames is as
-- before, but for the frame 0, which is filled with the number of the last frame taken if it is another's.
pub record Loads (garbage : ℕ → ℕ) (disk : List (List ℕ)) (f : OpenFile) (bm : Bitmap)
    (memory : List ℕ) : Type 0 where
  pub table : List TranslationEntry
  pub after : Bitmap
  pub memory_after : List ℕ
  pub runs :
      new_address_space garbage disk f bm memory
      ≡ ok (record { page_table = table; num_pages = length table }, after, memory_after)
  pub pages : length table ≡ pages_of (noff_in f.header disk)
  pub few : length table ≤ num_phys_pages
  pub takes : Takes bm (frames table) after
  pub entries :
      (i : ℕ) → i < length table → entry_at table i ≡ new_entry i (some (get_or (frames table) i 0))
  pub same_length : length memory_after ≡ memory_size
  pub code_in :
      (k : ℕ)
      → k < (noff_in f.header disk).code.size
      → get_or memory_after (physical table ((noff_in f.header disk).code.virtual_addr + k)) 0
        ≡ byte_in f.header disk ((noff_in f.header disk).code.in_file_addr + k)
  pub data_in :
      (k : ℕ)
      → k < (noff_in f.header disk).init_data.size
      → get_or memory_after (physical table ((noff_in f.header disk).init_data.virtual_addr + k)) 0
        ≡ byte_in f.header disk ((noff_in f.header disk).init_data.in_file_addr + k)
  pub others :
      (j : ℕ)
      → page_size ≤ j
      → ((i : ℕ) → i < length table → (entry_at table i).physical_page ≢ j / page_size)
      → get_or memory_after j 0 ≡ get_or memory j 0
  pub frame_zero :
      (j : ℕ)
      → j < page_size
      → ((i : ℕ) → i < length table → (entry_at table i).physical_page ≢ 0)
      → get_or memory_after j 0 ≡ last_or (get_or memory j 0) (frames table)

-- A test for an empty block changes nothing.
if_some :
    (size : ℕ) (run : Run (List ℕ)) (memory : List ℕ)
    → (size ≡ 0 → run ≡ ok memory)
    → (if ltb 0 size then run else ok memory) ≡ run
if_some zero run memory h = sym (h refl)
if_some (suc size) run memory h = rw (positive size) refl
  where
    positive : (size : ℕ) → ltb 0 (suc size) ≡ true
    positive size = ground arith

-- A page that a table does not have holds none of its addresses.
apart_frames :
    (table : List TranslationEntry) (j a : ℕ)
    → a < length table * page_size
    → ((i : ℕ) → i < length table → (entry_at table i).physical_page ≢ j / page_size)
    → physical table a ≢ j
apart_frames table j a h apart e = apart (a / page_size) (omega arith) (omega (arith, e))

-- With the test for an empty block, the block is copied.
block_run :
    (read_block : ℕ → ℕ → Run (ℕ × List ℕ)) (size addr : ℕ) (table : List TranslationEntry)
    (memory after : List ℕ)
    → copy_block read_block size 0 addr table memory ≡ ok after
    → (if ltb 0 size then copy_block read_block size 0 addr table memory else ok memory) ≡ ok after
unfolding copy_block
block_run read_block size addr table memory after run =
    if_some size (copy_block read_block size 0 addr table memory) memory
      (λ e. ap (λ s. copy_block read_block s 0 addr table memory) e)
    ∙ run

module _ (garbage : ℕ → ℕ) (disk : List (List ℕ)) (f : OpenFile) (bm : Bitmap) (memory : List ℕ)
    (program : IsProgram f.header disk) (v : IsValid bm) (width : bm.num_bits ≡ num_phys_pages)
    (size : length memory ≡ memory_size)
    (enough : pages_of (noff_in f.header disk) ≤ free_bits bm) where
  -- With a valid bitmap of the frames, a whole memory and a good program for whose pages there are
  -- frames, the constructor trips no assertion: it takes as many free frames as there are pages,
  -- all different, and marks just these; the code and the data of the file are at their virtual
  -- addresses; the memory of all other frames is as before, but for the frame 0.
  pub new_address_space-Loads : Loads garbage disk f bm memory
  unfolding new_address_space copy_code copy_data
  new_address_space-Loads =
      let n = noff_in f.header disk in
      let maps = map_pages-Maps (pages_of n) 0 bm memory v width enough (omega arith) in
      let table = maps.table in
      let few : length table ≤ num_phys_pages =
        omega (arith, maps.pages, maps.takes.fewer, free_bits-num_bits bm, length-frames table) in
      let mapped = Takes-IsMapped table bm maps.after width few maps.takes in
      let code =
        copy_block-Places table mapped (λ k. byte_in f.header disk (n.code.in_file_addr + k))
          (read_block garbage disk f n.code) n.code.size 0 n.code.virtual_addr maps.memory_after
          (maps.same_length ∙ size) (omega (arith, maps.pages, program.code.in_pages))
          (λ k less.
            read_block-byte_in garbage disk f (pages_of n) n.code k program.file program.code
              (omega arith)) in
      let data_ =
        copy_block-Places table mapped (λ k. byte_in f.header disk (n.init_data.in_file_addr + k))
          (read_block garbage disk f n.init_data) n.init_data.size 0 n.init_data.virtual_addr
          code.after (code.same_length ∙ maps.same_length ∙ size)
          (omega (arith, maps.pages, program.init_data.in_pages))
          (λ k less.
            read_block-byte_in garbage disk f (pages_of n) n.init_data k program.file
              program.init_data (omega arith)) in
      record {
        table = table;
        after = maps.after;
        memory_after = data_.after;
        runs =
            rw
              (
                new_executable-noff_in garbage disk f program,
                program.magic,
                total,
                count_clear-free_bits bm v,
                le→leb (pages_of n) (free_bits bm) enough,
                maps.runs,
                block_run (read_block garbage disk f n.code) n.code.size n.code.virtual_addr table
                    maps.memory_after code.after code.runs,
                block_run (read_block garbage disk f n.init_data) n.init_data.size
                    n.init_data.virtual_addr table code.after data_.after data_.runs,
              )
              (ap (λ p. ok (record { page_table = table; num_pages = p }, maps.after, data_.after))
                (sym maps.pages));
        pages = maps.pages;
        few = few;
        takes = maps.takes;
        entries = λ i h.
            maps.entries i (omega (arith, maps.pages))
            ∙ ap (λ p. new_entry p (some (get_or (frames table) i 0))) (omega arith);
        same_length = data_.same_length ∙ code.same_length ∙ maps.same_length ∙ size;
        code_in = λ k less.
            data_.others (physical table (n.code.virtual_addr + k)) (λ q above below met.
              disjoint q k below less (
                physical-distinct table mapped (n.init_data.virtual_addr + q)
                  (n.code.virtual_addr + k) (omega (arith, maps.pages, program.init_data.in_pages))
                  (omega (arith, maps.pages, program.code.in_pages)) met))
            ∙ code.bytes_in k (omega arith) (omega arith);
        data_in = λ k less. data_.bytes_in k (omega arith) (omega arith);
        others = λ j past apart.
            data_.others j (λ q above below.
              apart_frames table j (n.init_data.virtual_addr + q)
                (omega (arith, maps.pages, program.init_data.in_pages)) apart)
            ∙ code.others j (λ q above below.
              apart_frames table j (n.code.virtual_addr + q)
                (omega (arith, maps.pages, program.code.in_pages)) apart)
            ∙ maps.kept j past;
        frame_zero = λ j inside apart.
            data_.others j (λ q above below.
              apart_frames table j (n.init_data.virtual_addr + q)
                (omega (arith, maps.pages, program.init_data.in_pages))
                (at_zero table j inside apart))
            ∙ code.others j (λ q above below.
              apart_frames table j (n.code.virtual_addr + q)
                (omega (arith, maps.pages, program.code.in_pages)) (at_zero table j inside apart))
            ∙ maps.damaged j inside;
      }
    where
      total :
          (((noff_in f.header disk).code.size
                  + (noff_in f.header disk).init_data.size
                  + (noff_in f.header disk).uninit_data.size)
                % 2 ^ 32
              + user_stack_size)
            % 2 ^ 32
          ≡ (noff_in f.header disk).code.size
            + (noff_in f.header disk).init_data.size
            + (noff_in f.header disk).uninit_data.size
            + user_stack_size
      total = omega (arith, program.no_wrap)

      disjoint :
          (q k : ℕ)
          → q < 0 + (noff_in f.header disk).init_data.size
          → k < (noff_in f.header disk).code.size
          → (noff_in f.header disk).init_data.virtual_addr + q
            ≢ (noff_in f.header disk).code.virtual_addr + k
      disjoint q k h g e = ground (arith, program.apart, e)

      at_zero :
          (table : List TranslationEntry) (j : ℕ)
          → j < page_size
          → ((i : ℕ) → i < length table → (entry_at table i).physical_page ≢ 0)
          → (i : ℕ) → i < length table
          → (entry_at table i).physical_page ≢ j / page_size
      at_zero table j inside apart i h e = apart i h (omega (arith, e))
