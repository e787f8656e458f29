-- ===== src/Mmu/Safe.antt =====
-- Accesses of machine/mmu.cc and the bounds of the memory and of the tables.
use so_ii.Base.{
  ℕ, zero, suc, ◌+◌, ◌*◌, ◌≤◌, ◌≡◌, refl, ap, ◌∙◌, true, false, ◌⊎◌, inl, inr, List, length, ok,
  read_at-get_or, get_or, if◌then◌else◌, ◌==◌, arith,
}
use so_ii.Mmu.{
  Mmu, ExceptionType, memory_size, is_access_size, read_bytes, read_physical, write_physical,
  read_mem, write_mem, no_exception, sign_extend,
}
use so_ii.Mmu.Bytes.{read_bytes-write_bytes}
use so_ii.Mmu.Translate.{IsReady, HasTable, address_of}
use so_ii.Mmu.Access.{translate-Translates}
use so_ii.Mmu.Store.{address_of-in_range}

read_bytes-runs :
    (n : ℕ) (memory : List ℕ) (addr : ℕ)
    → addr + n ≤ length memory
    → (x : ℕ) × (read_bytes n memory addr ≡ ok x)
unfolding read_bytes
read_bytes-runs zero memory addr h = (0, refl)
read_bytes-runs (suc n) memory addr h =
    let (x, run) = read_bytes-runs n memory (addr + 1) (omega arith) in
    (get_or memory addr 0 + 256 * x, rw (read_at-get_or memory addr 0 (omega arith), run) refl)

read_back :
    (size : ℕ) (m : Mmu) (r : ExceptionType ⊎ ℕ)
    → is_access_size size ≡ true
    → ((p : ℕ) → r ≡ inr p → p + size ≤ length m.main_memory)
    → (r' : ExceptionType ⊎ ℕ) × (read_physical size (m, r) ≡ ok (m, r'))
read_back size m (inl x) s h = (inl x, refl)
read_back size m (inr p) s h =
    let (x, run) = read_bytes-runs size m.main_memory p (h p refl) in
    (inr (if size == 1 then sign_extend x else x), rw (s, run) refl)

-- On a machine that is ready, a read of 1, 2 or 4 bytes ends with a value or an exception, and the
-- machine stays ready.
pub read_mem-IsReady :
    (m : Mmu) (addr size : ℕ)
    → IsReady m
    → is_access_size size ≡ true
    → (m' : Mmu) × (r : ExceptionType ⊎ ℕ) × (read_mem m addr size ≡ ok (m', r)) × IsReady m'
unfolding read_mem
read_mem-IsReady m addr size ready s =
    let t = translate-Translates m addr size false ready s in
    let full : length t.after.main_memory ≡ memory_size = ap length t.memory ∙ ready.full in
    let (r, run) =
      read_back size t.after (address_of m addr size false) s
        (λ p e. omega (arith, (address_of-in_range m addr size p false s e).0, full)) in
    (t.after, r, rw t.runs run, record { full = full; table = t.table })

written_back :
    (size value : ℕ) (m : Mmu) (r : ExceptionType ⊎ ℕ)
    → is_access_size size ≡ true
    → ((p : ℕ) → r ≡ inr p → p + size ≤ length m.main_memory)
    → HasTable m.tlb m.page_table m.page_table_size
    → (m' : Mmu) × (x : ExceptionType) × (write_physical size value (m, r) ≡ ok (m', x))
      × (length m'.main_memory ≡ length m.main_memory)
      × HasTable m'.tlb m'.page_table m'.page_table_size
written_back size value m (inl x) s h table = (m, x, refl, refl, table)
written_back size value m (inr p) s h table =
    let (memory, run, same, _, _) = read_bytes-write_bytes size m.main_memory p value (h p refl) in
    (record m { main_memory = memory }, no_exception, rw (s, run) refl, same, table)

-- On a machine that is ready, a write of 1, 2 or 4 bytes ends, with success or an exception, and the
-- machine stays ready.
pub write_mem-IsReady :
    (m : Mmu) (addr size value : ℕ)
    → IsReady m
    → is_access_size size ≡ true
    → (m' : Mmu) × (x : ExceptionType) × (write_mem m addr size value ≡ ok (m', x)) × IsReady m'
unfolding write_mem
write_mem-IsReady m addr size value ready s =
    let t = translate-Translates m addr size true ready s in
    let full : length t.after.main_memory ≡ memory_size = ap length t.memory ∙ ready.full in
    let (m', x, run, same, table) =
      written_back size value t.after (address_of m addr size true) s
        (λ p e. omega (arith, (address_of-in_range m addr size p true s e).0, full)) t.table in
    (m', x, rw t.runs run, record { full = same ∙ full; table = table })
