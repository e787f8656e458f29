-- ===== src/Mmu.antt =====
-- machine/mmu.cc, machine/mmu.hh and machine/translation_entry.hh: the memory of the simulated
-- machine and its translation by a page table or by a TLB. Bytes are numbers below 256, and an
-- `int` is its 32-bit pattern. The host is little-endian (no HOST_IS_BIG_ENDIAN, so that
-- machine/endianness.cc changes nothing) with signed chars.
pub mod Translate
pub mod Bytes
pub mod Access
pub mod Store
pub mod Safe
mod Examples
use so_ii.Base.{
  ℕ, zero, suc, ◌+◌, ◌-◌, ◌*◌, ◌/◌, ◌%◌, ◌^◌, Bool, true, false, not, ◌&&◌, ◌||◌, Option, none,
  some, List, [], ◌∷◌, ◌⊎◌, inl, inr, ltb, leb, ◌==◌, if◌then◌else◌, Run, ok, ◌>>=◌, ◌>>◌, assert,
  read_at, write_at,
}

abbrev pub page_size : ℕ
page_size = 128

abbrev pub num_phys_pages : ℕ
num_phys_pages = 128

abbrev pub memory_size : ℕ
memory_size = num_phys_pages * page_size

pub data ExceptionType : Type 0 where
  no_exception syscall page_fault read_only_page bus_error address_error overflow illegal_instr :
      ExceptionType

pub record TranslationEntry : Type 0 where
  pub virtual_page : ℕ
  pub physical_page : ℕ
  pub valid : Bool
  pub read_only : Bool
  pub use_bit : Bool
  pub dirty : Bool

pub record Mmu : Type 0 where
  pub main_memory : List ℕ
  pub tlb : Option (List TranslationEntry)
  pub page_table : Option (List TranslationEntry)
  pub page_table_size : ℕ

abbrev pub is_null {ℓ} : {A : Type ℓ} → Option A → Bool
is_null none = true
is_null (some a) = false

-- The loop over the TLB, from index `i` on.
unfoldable pub find_in_tlb : List TranslationEntry → ℕ → ℕ → Option ℕ
find_in_tlb [] vpn i = none
find_in_tlb (e ∷ tlb) vpn i =
    if e.valid && e.virtual_page == vpn then some i else find_in_tlb tlb vpn (i + 1)

abbrev pub or_fault : Option ℕ → ExceptionType ⊎ ℕ
or_fault none = inl page_fault
or_fault (some i) = inr i

-- The array that an entry is looked up in, and the machine with another one in its place. A null
-- page table has no entry.
abbrev pub entries_of : Option (List TranslationEntry) → List TranslationEntry
entries_of none = []
entries_of (some es) = es

abbrev pub entries : Mmu → List TranslationEntry
entries m = if is_null m.tlb then entries_of m.page_table else entries_of m.tlb

abbrev pub with_entries : Mmu → List TranslationEntry → Mmu
with_entries m es =
    if is_null m.tlb then record m { page_table = some es } else record m { tlb = some es }

-- The entry is given by its index.
abbrev pub retrieve_page_entry : Mmu → ℕ → Run (ExceptionType ⊎ ℕ)
retrieve_page_entry m vpn =
    let in_table : Run (ExceptionType ⊎ ℕ) = (do
      e ← read_at (entries m) vpn
      ok (if not e.valid then inl page_fault else inr vpn)) in
    if is_null m.tlb
    then (if leb m.page_table_size vpn then ok (inl address_error) else in_table)
    else ok (or_fault (find_in_tlb (entries m) vpn 0))

-- `virtAddr & 0x3` and `virtAddr & 0x1` are remainders.
abbrev pub is_misaligned : ℕ → ℕ → Bool
is_misaligned virt_addr size =
    (size == 4 && not (virt_addr % 4 == 0)) || (size == 2 && not (virt_addr % 2 == 0))

-- `Translate` once the entry is known, with its index.
abbrev pub translate_entry :
    Mmu → ℕ → ℕ → Bool → ExceptionType ⊎ ℕ → Run (Mmu × (ExceptionType ⊎ ℕ))
translate_entry m virt_addr size writing (inl exception) = ok (m, inl exception)
translate_entry m virt_addr size writing (inr i) = do
  entry ← read_at (entries m) i
  es ← write_at (entries m) i (record entry { use_bit = true; dirty = writing || entry.dirty })
  let phys_addr = entry.physical_page * page_size + virt_addr % page_size
  let done : Run (Mmu × (ExceptionType ⊎ ℕ)) = (do
    assert (leb (phys_addr + size) memory_size)
    ok (with_entries m es, inr phys_addr))
  let in_memory = if leb num_phys_pages entry.physical_page then ok (m, inl bus_error) else done
  if entry.read_only && writing then ok (m, inl read_only_page) else in_memory

unfoldable pub translate : Mmu → ℕ → ℕ → Bool → Run (Mmu × (ExceptionType ⊎ ℕ))
translate m virt_addr size writing = do
  assert (not (is_null m.tlb) || not (is_null m.page_table))
  assert (is_null m.tlb || is_null m.page_table)
  let looked_up : Run (Mmu × (ExceptionType ⊎ ℕ)) = (do
    entry ← retrieve_page_entry m (virt_addr / page_size)
    translate_entry m virt_addr size writing entry)
  if is_misaligned virt_addr size then ok (m, inl address_error) else looked_up

-- The `n` bytes from an address on, as a little-endian number.
unfoldable pub read_bytes : ℕ → List ℕ → ℕ → Run ℕ
read_bytes zero memory addr = ok 0
read_bytes (suc n) memory addr = do
  byte ← read_at memory addr
  rest ← read_bytes n memory (addr + 1)
  ok (byte + 256 * rest)

unfoldable pub write_bytes : ℕ → List ℕ → ℕ → ℕ → Run (List ℕ)
write_bytes zero memory addr value = ok memory
write_bytes (suc n) memory addr value = do
  memory' ← write_at memory addr (value % 256)
  write_bytes n memory' (addr + 1) (value / 256)

-- A `char` converted to `int`.
abbrev pub sign_extend : ℕ → ℕ
sign_extend byte = if ltb byte 128 then byte else 2 ^ 32 - 256 + byte

abbrev pub is_access_size : ℕ → Bool
is_access_size size = size == 1 || size == 2 || size == 4

-- The value is that of `*value` when there is no exception.
abbrev pub read_physical : ℕ → Mmu × (ExceptionType ⊎ ℕ) → Run (Mmu × (ExceptionType ⊎ ℕ))
read_physical size (m, inl exception) = ok (m, inl exception)
read_physical size (m, inr phys_addr) = do
  assert (is_access_size size)
  data_read ← read_bytes size m.main_memory phys_addr
  ok (m, inr (if size == 1 then sign_extend data_read else data_read))

unfoldable pub read_mem : Mmu → ℕ → ℕ → Run (Mmu × (ExceptionType ⊎ ℕ))
read_mem m addr size = translate m addr size false >>= read_physical size

abbrev pub write_physical : ℕ → ℕ → Mmu × (ExceptionType ⊎ ℕ) → Run (Mmu × ExceptionType)
write_physical size value (m, inl exception) = ok (m, exception)
write_physical size value (m, inr phys_addr) = do
  assert (is_access_size size)
  memory ← write_bytes size m.main_memory phys_addr value
  ok (record m { main_memory = memory }, no_exception)

unfoldable pub write_mem : Mmu → ℕ → ℕ → ℕ → Run (Mmu × ExceptionType)
write_mem m addr size value = translate m addr size true >>= write_physical size value
