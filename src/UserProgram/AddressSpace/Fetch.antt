-- ===== src/UserProgram/AddressSpace/Fetch.antt =====
-- What the processor reads of a program that userprog/address_space.cc has loaded, through machine/mmu.cc.
use so_ii.Base.{
  ℕ, ◌+◌, ◌*◌, ◌/◌, ◌%◌, ◌≤◌, ◌<◌, ◌≡◌, refl, ap, ◌∙◌, true, false, none, some, inr, List, length,
  get_or, set, leb, le→leb, ok, read_at-get_or, write_at-set, arith,
}
use so_ii.Bitmap.{Bitmap}
use so_ii.Bitmap.View.{IsValid}
use so_ii.Bitmap.Find.{free_bits}
use so_ii.FileSystem.{OpenFile}
use so_ii.Mmu.{
  Mmu, TranslationEntry, page_size, num_phys_pages, memory_size, sign_extend, translate, read_mem,
  read_bytes,
}
use so_ii.OpenFile.Sectors.{byte_in}
use so_ii.UserProgram.AddressSpace.{AddressSpace, new_entry, new_address_space, restore_state}
use so_ii.UserProgram.AddressSpace.Frames.{frames, entry_at, blank_entry}
use so_ii.UserProgram.AddressSpace.Copy.{IsMapped, physical}
use so_ii.UserProgram.AddressSpace.Mapped.{Takes-IsMapped}
use so_ii.UserProgram.AddressSpace.Program.{noff_in, pages_of, IsProgram}
use so_ii.UserProgram.AddressSpace.Load.{new_address_space-Loads}

-- The entry after a read.
abbrev touched : ℕ → ℕ → TranslationEntry
touched p frame = record (new_entry p (some frame)) { use_bit = true }

-- A byte at a virtual address of a table without the TLB, whose pages may be read.
read_mem-byte :
    (table : List TranslationEntry) (memory : List ℕ) (a frame : ℕ)
    → IsMapped table
    → length memory ≡ memory_size
    → a < length table * page_size
    → entry_at table (a / page_size) ≡ new_entry (a / page_size) (some frame)
    → (m' : Mmu) × (read_mem
          (record {
            main_memory = memory;
            tlb = none;
            page_table = some table;
            page_table_size = length table;
          })
          a
          1
        ≡ ok (m', inr (sign_extend (get_or memory (physical table a) 0))))
unfolding read_mem translate read_bytes
read_mem-byte table memory a frame mapped size inside e =
    let p = a / page_size in
    let small : frame < num_phys_pages =
      omega
        (arith, mapped.inside p (omega arith), ap (λ (x : TranslationEntry). x.physical_page) e) in
    let at = read_at-get_or table p blank_entry (omega arith) ∙ ap ok e in
    let place : physical table a ≡ frame * page_size + a % page_size =
      ap (λ (x : TranslationEntry). x.physical_page * page_size + a % page_size) e in
    (
      record {
        main_memory = memory;
        tlb = none;
        page_table = some (set table p (touched p frame));
        page_table_size = length table;
      },
      rw
          (
            not_past p inside,
            at,
            at,
            write_at-set table p (touched p frame) (omega arith),
            in_memory frame small,
            le→leb (frame * page_size + a % page_size + 1) memory_size (omega (arith, small)),
            place,
            read_at-get_or memory (frame * page_size + a % page_size) 0 (omega (arith, small)),
            plus_nothing (get_or memory (frame * page_size + a % page_size) 0),
          )
          refl,
    )
  where
    not_past : (p : ℕ) → a < length table * page_size → leb (length table) (a / page_size) ≡ false
    not_past p h = ground arith

    in_memory : (frame : ℕ) → frame < num_phys_pages → leb num_phys_pages frame ≡ false
    in_memory frame h = ground arith

    plus_nothing : (b : ℕ) → b + 256 * 0 ≡ b
    plus_nothing b = omega arith

module _ (garbage : ℕ → ℕ) (disk : List (List ℕ)) (f : OpenFile) (bm : Bitmap) (memory : List ℕ)
    (program : IsProgram f.header disk) (v : IsValid bm) (width : bm.num_bits ≡ num_phys_pages)
    (size : length memory ≡ memory_size)
    (enough : pages_of (noff_in f.header disk) ≤ free_bits bm) where
  -- With a valid bitmap of the frames, a whole memory and a good program for whose pages there are
  -- frames, the constructor trips no assertion, and once its page table is restored on a machine without
  -- a TLB, reading a byte at a virtual address of its code gives the byte of the code in its file, as a
  -- signed number.
  pub read_mem-new_address_space :
      (old : Mmu) (k : ℕ)
      → old.tlb ≡ none
      → k < (noff_in f.header disk).code.size
      → (space : AddressSpace) × (bm₁ : Bitmap) × (memory₁ : List ℕ) × (m' : Mmu)
        × (new_address_space garbage disk f bm memory ≡ ok (space, bm₁, memory₁))
        × (read_mem
              (restore_state space (record old { main_memory = memory₁ }))
              ((noff_in f.header disk).code.virtual_addr + k)
              1
            ≡ ok (
              m',
              inr (
                  sign_extend
                    (byte_in f.header disk ((noff_in f.header disk).code.in_file_addr + k))),
            ))
  read_mem-new_address_space old k no_tlb less =
      let l = new_address_space-Loads garbage disk f bm memory program v width size enough in
      let a = (noff_in f.header disk).code.virtual_addr + k in
      let inside : a < length l.table * page_size = omega (arith, l.pages, program.code.in_pages) in
      let mapped = Takes-IsMapped l.table bm l.after width (omega (arith, l.few)) l.takes in
      let (m', run) =
        read_mem-byte l.table l.memory_after a (get_or (frames l.table) (a / page_size) 0) mapped
          l.same_length inside (l.entries (a / page_size) (omega arith)) in
      (
        record { page_table = l.table; num_pages = length l.table },
        l.after,
        l.memory_after,
        m',
        l.runs,
        rw no_tlb run ∙ ap (λ b. ok (m', inr (sign_extend b))) (l.code_in k less),
      )
