-- ===== src/Mmu/Store.antt =====
-- What `WriteMem` stores is what `ReadMem` then reads.
use so_ii.Base.{
  ℕ, ◌+◌, ◌/◌, ◌%◌, ◌^◌, ◌≤◌, ◌≡◌, refl, ap, ◌∙◌, Bool, true, false, List, inl, inr, length,
  Bool-cases, ◌==◌, if◌then◌else◌, ok, arith,
}
use so_ii.Mmu.{
  Mmu, ExceptionType, no_exception, page_size, memory_size, is_misaligned, translate, read_bytes,
  write_bytes, sign_extend, is_access_size, read_mem, write_mem,
}
use so_ii.Mmu.Bytes.{read_bytes-write_bytes}
use so_ii.Mmu.Translate.{IsReady, Frame, frame, physical, address_of, aligned_in_page}
use so_ii.Mmu.Access.{translate-Translates}

physical-in_range :
    (f : Frame) (a size p : ℕ) (w : Bool)
    → a % page_size + size ≤ page_size
    → physical f a w ≡ inr p
    → (p + size ≤ memory_size) × (physical f a false ≡ inr p)
physical-in_range (inl x) a size p w h e = absurd (ground arith)
physical-in_range (inr (page, read_only)) a size p w h e = (ground arith, ground arith)

pub address_of-in_range :
    (m : Mmu) (a size p : ℕ) (w : Bool)
    → is_access_size size ≡ true
    → address_of m a size w ≡ inr p
    → (p + size ≤ memory_size) × (address_of m a size false ≡ inr p)
address_of-in_range m a size p w s e = elim (Bool-cases (is_misaligned a size)) [
  | inl misaligned ↦ absurd (ground arith)
  | inr aligned ↦
      let (inside, again) =
        physical-in_range (frame m (a / page_size)) a size p w (aligned_in_page a size s aligned)
          (rw aligned at e) in
      (inside, rw aligned again)
]

pub address_of_congr :
    (m m' : Mmu) (a size : ℕ) (w : Bool)
    → ((vpn : ℕ) → frame m' vpn ≡ frame m vpn)
    → address_of m' a size w ≡ address_of m a size w
address_of_congr m m' a size w h = rw (h (a / page_size)) refl

-- What a value of `size` bytes is when it is read: the low bytes, of which a single one is signed.
abbrev pub stored : ℕ → ℕ → ℕ
stored size value = if size == 1 then sign_extend (value % 256 ^ size) else value % 256 ^ size

write_mem-run :
    (m m' : Mmu) (a size value p : ℕ) (memory : List ℕ)
    → is_access_size size ≡ true
    → translate m a size true ≡ ok (m', inr p)
    → write_bytes size m'.main_memory p value ≡ ok memory
    → write_mem m a size value ≡ ok (record m' { main_memory = memory }, no_exception)
unfolding write_mem
write_mem-run m m' a size value p memory s run written = rw (run, s, written) refl

read_mem-run :
    (m m' : Mmu) (a size p x : ℕ)
    → is_access_size size ≡ true
    → translate m a size false ≡ ok (m', inr p)
    → read_bytes size m'.main_memory p ≡ ok x
    → read_mem m a size ≡ ok (m', inr (if size == 1 then sign_extend x else x))
unfolding read_mem
read_mem-run m m' a size p x s run read = rw (run, s, read) refl

-- On a machine that is ready, where an address can be written: `WriteMem` of 1, 2 or 4 bytes
-- succeeds, the machine stays ready, and `ReadMem` of as many bytes at the address then returns the
-- value that was written, cut to those bytes, and sign-extended if it is one byte.
pub read_mem-write_mem :
    (m : Mmu) (a size value p : ℕ)
    → IsReady m
    → is_access_size size ≡ true
    → address_of m a size true ≡ inr p
    → (m₁ : Mmu) × (m₂ : Mmu) × (write_mem m a size value ≡ ok (m₁, no_exception))
      × IsReady m₁
      × (read_mem m₁ a size ≡ ok (m₂, inr (stored size value)))
read_mem-write_mem m a size value p ready s e =
    let (inside, readable) = address_of-in_range m a size p true s e in
    let t = translate-Translates m a size true ready s in
    let (memory, written, same, _, read) =
      read_bytes-write_bytes size t.after.main_memory p value
        (omega (arith, inside, ap length t.memory, ready.full)) in
    let m₁ : Mmu = record t.after { main_memory = memory } in
    let ready₁ : IsReady m₁ = record {
      full = same ∙ ap length t.memory ∙ ready.full;
      table = t.table;
    } in
    let u = translate-Translates m₁ a size false ready₁ s in
    (
      m₁,
      u.after,
      write_mem-run m t.after a size value p memory s (t.runs ∙ ap (λ r. ok (t.after, r)) e)
          written,
      ready₁,
      read_mem-run m₁ u.after a size p (value % 256 ^ size) s
          (u.runs
            ∙ ap (λ r. ok (u.after, r)) (address_of_congr m m₁ a size false t.frames ∙ readable))
          (ap (λ memory. read_bytes size memory p) u.memory ∙ read),
    )

-- On a machine that is ready, where the table gives an exception for an address: `WriteMem` returns
-- the exception and leaves the memory as it was.
pub write_mem_raises :
    (m : Mmu) (a size value : ℕ) (x : ExceptionType)
    → IsReady m
    → is_access_size size ≡ true
    → address_of m a size true ≡ inl x
    → (m' : Mmu) × (write_mem m a size value ≡ ok (m', x)) × (m'.main_memory ≡ m.main_memory)
unfolding write_mem
write_mem_raises m a size value x ready s e =
    let t = translate-Translates m a size true ready s in (t.after, rw (t.runs, e) refl, t.memory)
