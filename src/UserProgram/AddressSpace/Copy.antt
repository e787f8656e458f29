-- ===== src/UserProgram/AddressSpace/Copy.antt =====
-- The loops of userprog/address_space.cc that copy a block to its virtual addresses.
use so_ii.Base.{
  ℕ, zero, suc, ◌+◌, ◌-◌, ◌*◌, ◌/◌, ◌%◌, ◌^◌, ◌≤◌, ◌<◌, ◌==◌, ◌≡◌, ◌≢◌, refl, ap, ◌∙◌, true, false,
  inl, inr, Bool-cases, List, [], ◌∷◌, length, get_or, Run, ok, arith, read_at-get_or,
}
use so_ii.Base.Memory.{memcpy-Copies, is_within}
use so_ii.Mmu.{TranslationEntry, page_size, num_phys_pages, memory_size}
use so_ii.UserProgram.AddressSpace.{copy_block}
use so_ii.UserProgram.AddressSpace.Frames.{entry_at, blank_entry}

-- A table of pages in frames of the memory that are all different.
pub record IsMapped (table : List TranslationEntry) : Type 0 where
  pub few : length table ≤ num_phys_pages
  pub inside : (i : ℕ) → i < length table → (entry_at table i).physical_page < num_phys_pages
  pub distinct :
      (i j : ℕ)
      → i < length table
      → j < length table
      → (entry_at table i).physical_page ≡ (entry_at table j).physical_page
      → i ≡ j

-- Where a virtual address lies in the memory.
abbrev pub physical : List TranslationEntry → ℕ → ℕ
physical table addr =
    (entry_at table (addr / page_size)).physical_page * page_size + addr % page_size

one_test : (p j : ℕ) → is_within p 1 j ≡ (p == j)
one_test p j = ground arith

module _ (table : List TranslationEntry) (mapped : IsMapped table) where
  physical-inside : (a : ℕ) → a < length table * page_size → physical table a < memory_size
  physical-inside a h = omega (arith, mapped.inside (a / page_size) (omega arith))

  pub physical-distinct :
      (a b : ℕ)
      → a < length table * page_size
      → b < length table * page_size
      → physical table a ≡ physical table b
      → a ≡ b
  physical-distinct a b h k e =
      let same_page =
        mapped.distinct (a / page_size) (b / page_size) (omega arith) (omega arith)
          (omega (arith, e)) in
      omega (arith, e, same_page)

  -- A block whose bytes can be read is copied, byte by byte, and nothing else is changed.
  pub record Places (byte : ℕ → ℕ) (read_block : ℕ → ℕ → Run (ℕ × List ℕ)) (rounds i addr : ℕ)
      (memory : List ℕ) : Type 0 where
    pub after : List ℕ
    pub runs : copy_block read_block rounds i addr table memory ≡ ok after
    pub same_length : length after ≡ length memory
    pub bytes_in :
        (k : ℕ) → i ≤ k → k < i + rounds → get_or after (physical table (addr + k)) 0 ≡ byte k
    pub others :
        (j : ℕ)
        → ((k : ℕ) → i ≤ k → k < i + rounds → physical table (addr + k) ≢ j)
        → get_or after j 0 ≡ get_or memory j 0

  pub copy_block-Places :
      (byte : ℕ → ℕ) (read_block : ℕ → ℕ → Run (ℕ × List ℕ)) (rounds i addr : ℕ) (memory : List ℕ)
      → length memory ≡ memory_size
      → addr + (i + rounds) ≤ length table * page_size
      → ((k : ℕ) → k < i + rounds → read_block 1 k ≡ ok (1, byte k ∷ []))
      → Places byte read_block rounds i addr memory
  unfolding copy_block
  copy_block-Places byte read_block zero i addr memory size room reads = record {
    after = memory;
    runs = refl;
    same_length = refl;
    bytes_in = λ k from to. absurd (omega arith);
    others = λ j apart. refl;
  }
  copy_block-Places byte read_block (suc rounds) i addr memory size room reads =
      let p = physical table (addr + i) in
      let below = physical-inside (addr + i) (omega arith) in
      let c = memcpy-Copies memory p (byte i ∷ []) (omega (arith, below)) in
      let rest =
        copy_block-Places byte read_block rounds (i + 1) addr c.after (c.same_length ∙ size)
          (omega arith) (λ k less. reads k (omega arith)) in
      let no_wrap : (addr + i) % 2 ^ 32 ≡ addr + i = omega (arith, mapped.few) in
      let small : p % 2 ^ 32 ≡ p = omega (arith, below) in
      record {
        after = rest.after;
        runs =
            rw
              (
                no_wrap,
                read_at-get_or table ((addr + i) / page_size) (blank_entry) (omega arith),
                small,
                reads i (omega arith),
                c.runs,
              )
              rest.runs;
        same_length = rest.same_length ∙ c.same_length;
        bytes_in = λ k from to. elim (Bool-cases (i == k)) [
          | inl same ↦
              let e : k ≡ i = ground arith in
              rw e (
                rest.others p (λ q above less met.
                  clash i q above
                    (physical-distinct (addr + q) (addr + i) (omega arith) (omega arith) met))
                ∙ c.bytes_in p
                ∙ rw (one_test p p, equal p) (ap (λ q. get_or (byte i ∷ []) q 0) (minus_self p)))
          | inr later ↦ rest.bytes_in k (ground arith) (omega arith)
        ];
        others = λ j apart.
            rest.others j (λ q above less. apart q (omega arith) (omega arith))
            ∙ c.bytes_in j
            ∙ rw (one_test p j, unequal p j (apart i (omega arith) (omega arith))) refl;
      }
    where
      clash : (n q : ℕ) → n + 1 ≤ q → addr + q ≡ addr + n → ⊥
      clash n q above e = omega (arith, e)

      equal : (p : ℕ) → (p == p) ≡ true
      equal p = ground arith

      minus_self : (p : ℕ) → p - p ≡ 0
      minus_self p = omega arith

      unequal : (p j : ℕ) → p ≢ j → (p == j) ≡ false
      unequal p j h = ground arith
