-- ===== src/Mmu/Translate.antt =====
-- What `Translate` returns, and that what `WriteMem` stores is what `ReadMem` then reads.
use so_ii.Base.{
  ℕ, zero, suc, ◌+◌, ◌*◌, ◌/◌, ◌%◌, ◌≤◌, ◌<◌, ◌≡◌, refl, ap, Bool, true, false, ◌&&◌, ◌||◌, Option,
  none, some, List, [], ◌∷◌, ◌⊎◌, inl, inr, length, Bool-cases, le→leb, ltb, leb, ◌==◌,
  if◌then◌else◌, ok, read_at, write_at, arith,
}
use so_ii.Mmu.{
  Mmu, TranslationEntry, ExceptionType, page_fault, address_error, bus_error, read_only_page,
  page_size, num_phys_pages, memory_size, find_in_tlb, entries, with_entries, retrieve_page_entry,
  is_misaligned, translate, is_access_size,
}

-- A machine with a memory of the right length, and either a TLB or a page table that is as long as
-- the machine is told.
pub data HasTable
    : Option (List TranslationEntry) → Option (List TranslationEntry) → ℕ → Type 0 where
  by_tlb : {n : ℕ} (tlb : List TranslationEntry) → HasTable (some tlb) none n
  by_page_table : {n : ℕ} (es : List TranslationEntry) → n ≤ length es → HasTable none (some es) n

pub record IsReady (m : Mmu) : Type 0 where
  pub full : length m.main_memory ≡ memory_size
  pub table : HasTable m.tlb m.page_table m.page_table_size

-- The frame of a virtual page, and whether it is read-only.
abbrev pub Frame : Type 0
Frame = ExceptionType ⊎ (ℕ × Bool)

abbrev pub frame_in : List TranslationEntry → ℕ → Frame
frame_in [] vpn = inl page_fault
frame_in (e ∷ tlb) vpn =
    if e.valid && e.virtual_page == vpn
    then inr (e.physical_page, e.read_only)
    else frame_in tlb vpn

abbrev pub frame_at : List TranslationEntry → ℕ → Frame
frame_at [] vpn = inl page_fault
frame_at (e ∷ es) zero = if e.valid then inr (e.physical_page, e.read_only) else inl page_fault
frame_at (e ∷ es) (suc vpn) = frame_at es vpn

abbrev pub frame_by :
    Option (List TranslationEntry) → Option (List TranslationEntry) → ℕ → ℕ → Frame
frame_by (some tlb) page_table n vpn = frame_in tlb vpn
frame_by none none n vpn = inl page_fault
frame_by none (some es) n vpn = if ltb vpn n then frame_at es vpn else inl address_error

abbrev pub frame : Mmu → ℕ → Frame
frame m vpn = frame_by m.tlb m.page_table m.page_table_size vpn

-- The physical address in a frame, or the exception.
abbrev pub physical : Frame → ℕ → Bool → ExceptionType ⊎ ℕ
physical (inl exception) virt_addr writing = inl exception
physical (inr (page, read_only)) virt_addr writing =
    if read_only && writing
    then inl read_only_page
    else if ltb page num_phys_pages
    then inr (page * page_size + virt_addr % page_size)
    else inl bus_error

abbrev pub address_of : Mmu → ℕ → ℕ → Bool → ExceptionType ⊎ ℕ
address_of m virt_addr size writing =
    if is_misaligned virt_addr size
    then inl address_error
    else physical (frame m (virt_addr / page_size)) virt_addr writing

-- The bits that the hardware sets on an access.
abbrev pub touched : Bool → TranslationEntry → TranslationEntry
touched writing e = record e { use_bit = true; dirty = writing || e.dirty }

abbrev pub touch : List TranslationEntry → ℕ → Bool → List TranslationEntry
touch [] i writing = []
touch (e ∷ es) zero writing = touched writing e ∷ es
touch (e ∷ es) (suc i) writing = e ∷ touch es i writing

length-touch : (es : List TranslationEntry) (i : ℕ) (w : Bool) → length (touch es i w) ≡ length es
length-touch [] i w = refl
length-touch (e ∷ es) zero w = refl
length-touch (e ∷ es) (suc i) w = ap suc (length-touch es i w)

pub write_at-touch :
    (es : List TranslationEntry) (i : ℕ) (w : Bool) (e : TranslationEntry)
    → read_at es i ≡ ok e
    → write_at es i (touched w e) ≡ ok (touch es i w)
write_at-touch [] i w e h = absurd (ground arith)
write_at-touch (f ∷ es) zero w e h = ground (arith, h)
write_at-touch (f ∷ es) (suc i) w e h = rw (write_at-touch es i w e h) refl

frame_in-touch :
    (es : List TranslationEntry) (i : ℕ) (w : Bool) (vpn : ℕ)
    → frame_in (touch es i w) vpn ≡ frame_in es vpn
frame_in-touch [] i w vpn = refl
frame_in-touch (e ∷ es) zero w vpn = refl
frame_in-touch (e ∷ es) (suc i) w vpn = rw (frame_in-touch es i w vpn) refl

frame_at-touch :
    (es : List TranslationEntry) (i : ℕ) (w : Bool) (vpn : ℕ)
    → frame_at (touch es i w) vpn ≡ frame_at es vpn
frame_at-touch [] i w vpn = refl
frame_at-touch (e ∷ es) zero w zero = refl
frame_at-touch (e ∷ es) zero w (suc vpn) = refl
frame_at-touch (e ∷ es) (suc i) w zero = refl
frame_at-touch (e ∷ es) (suc i) w (suc vpn) = frame_at-touch es i w vpn

-- Where an entry is, by its index.
pub record IsAt (es : List TranslationEntry) (i : ℕ) (f : Frame) : Type 0 where
  pub entry : TranslationEntry
  pub at : read_at es i ≡ ok entry
  pub same : f ≡ inr (entry.physical_page, entry.read_only)

find_in_tlb-frame :
    (es : List TranslationEntry) (vpn j : ℕ)
    → ((find_in_tlb es vpn j ≡ none) × (frame_in es vpn ≡ inl page_fault))
      ⊎ ((i : ℕ) × (find_in_tlb es vpn j ≡ some (j + i)) × IsAt es i (frame_in es vpn))
unfolding find_in_tlb
find_in_tlb-frame [] vpn j = inl (refl, refl)
find_in_tlb-frame (e ∷ es) vpn j = elim (Bool-cases (e.valid && e.virtual_page == vpn)) [
  | inl hit ↦
      inr (0, rw hit (ap some (omega arith)), rw hit (record { entry = e; at = refl; same = refl }))
  | inr miss ↦ elim (find_in_tlb-frame es vpn (j + 1)) [
    | inl (none_found, fault) ↦ inl (rw miss none_found, rw miss fault)
    | inr (i, found, at) ↦ inr (
      suc i,
      rw (miss, found) (ap some (omega arith)),
      rw miss (record { entry = at.entry; at = at.at; same = at.same }),
    )
  ]
]

frame_at-read :
    (es : List TranslationEntry) (vpn : ℕ)
    → vpn < length es
    → (e : TranslationEntry) × (read_at es vpn ≡ ok e)
      × (frame_at es vpn ≡ (if e.valid then inr (e.physical_page, e.read_only) else inl page_fault))
frame_at-read [] vpn h = absurd (omega arith)
frame_at-read (e ∷ es) zero h = (e, refl, refl)
frame_at-read (e ∷ es) (suc vpn) h = frame_at-read es vpn (omega arith)

-- What `RetrievePageEntry` returns.
pub data Retrieves (m : Mmu) (vpn : ℕ) : Type 0 where
  raises :
      (x : ExceptionType)
      → retrieve_page_entry m vpn ≡ ok (inl x)
      → frame m vpn ≡ inl x
      → Retrieves m vpn
  returns :
      (i : ℕ)
      → retrieve_page_entry m vpn ≡ ok (inr i)
      → IsAt (entries m) i (frame m vpn)
      → Retrieves m vpn

pub retrieve_page_entry-frame :
    (memory : List ℕ) (tlb page_table : Option (List TranslationEntry)) (n vpn : ℕ)
    → HasTable tlb page_table n
    → Retrieves
        (record { main_memory = memory; tlb = tlb; page_table = page_table; page_table_size = n })
        vpn
retrieve_page_entry-frame memory tlb page_table n vpn (by_tlb es) =
    elim (find_in_tlb-frame es vpn 0) [
      | inl (missing, fault) ↦ raises page_fault (rw missing refl) fault
      | inr (i, found, at) ↦ returns i (rw found (ground arith)) at
    ]
retrieve_page_entry-frame memory tlb page_table n vpn (by_page_table es long) =
    elim (Bool-cases (ltb vpn n)) [
      | inr past ↦ raises address_error (rw (le→leb n vpn (ground arith)) refl) (rw past refl)
      | inl inside ↦
          let (e, at, f) = frame_at-read es vpn (ground arith) in
          let here : leb n vpn ≡ false = ground arith in
          elim (Bool-cases e.valid) [
            | inl valid ↦
                returns vpn (rw (here, at, valid) refl)
                  (record { entry = e; at = at; same = rw (inside, f, valid) refl })
            | inr invalid ↦
                raises page_fault (rw (here, at, invalid) refl) (rw (inside, f, invalid) refl)
          ]
    ]

-- An aligned access stays in its page.
pub aligned_in_page :
    (virt_addr size : ℕ)
    → is_access_size size ≡ true
    → is_misaligned virt_addr size ≡ false
    → virt_addr % page_size + size ≤ page_size
aligned_in_page virt_addr size s aligned = ground arith

-- What `Translate` does to a machine that is ready: it trips no assertion, returns the address or
-- the exception, and changes at most the use and dirty bits of an entry.
pub record Translates (m : Mmu) (virt_addr size : ℕ) (writing : Bool) : Type 0 where
  pub after : Mmu
  pub runs : translate m virt_addr size writing ≡ ok (after, address_of m virt_addr size writing)
  pub memory : after.main_memory ≡ m.main_memory
  pub table : HasTable after.tlb after.page_table after.page_table_size
  pub frames : (vpn : ℕ) → frame after vpn ≡ frame m vpn

-- The machine with the bits set.
unfoldable pub touched_mmu : Mmu → ℕ → Bool → Mmu
touched_mmu m i w = with_entries m (touch (entries m) i w)

pub touched-memory : (m : Mmu) (i : ℕ) (w : Bool) → (touched_mmu m i w).main_memory ≡ m.main_memory
unfolding touched_mmu
touched-memory m i w = ground arith

pub touched-frames :
    (m : Mmu) (i : ℕ) (w : Bool) (vpn : ℕ)
    → HasTable m.tlb m.page_table m.page_table_size
    → frame (touched_mmu m i w) vpn ≡ frame m vpn
unfolding touched_mmu
touched-frames m i w vpn t = go m.tlb m.page_table m.page_table_size t
  where
    go :
        (tlb page_table : Option (List TranslationEntry)) (n : ℕ)
        → HasTable tlb page_table n
        → frame
            (touched_mmu
              (record {
                main_memory = m.main_memory;
                tlb = tlb;
                page_table = page_table;
                page_table_size = n;
              })
              i
              w)
            vpn
          ≡ frame_by tlb page_table n vpn
    go tlb page_table n (by_tlb es) = frame_in-touch es i w vpn
    go tlb page_table n (by_page_table es long) = rw (frame_at-touch es i w vpn) refl

pub touched-HasTable :
    (m : Mmu) (i : ℕ) (w : Bool)
    → HasTable m.tlb m.page_table m.page_table_size
    → HasTable
        (touched_mmu m i w).tlb
        (touched_mmu m i w).page_table
        (touched_mmu m i w).page_table_size
unfolding touched_mmu
touched-HasTable m i w t = go m.tlb m.page_table m.page_table_size t
  where
    go :
        (tlb page_table : Option (List TranslationEntry)) (n : ℕ)
        → HasTable tlb page_table n
        → let m' =
            touched_mmu
              (record {
                main_memory = m.main_memory;
                tlb = tlb;
                page_table = page_table;
                page_table_size = n;
              })
              i
              w in
          HasTable m'.tlb m'.page_table m'.page_table_size
    go tlb page_table n (by_tlb es) = by_tlb (touch es i w)
    go tlb page_table n (by_page_table es long) =
        by_page_table (touch es i w) (omega (arith, long, length-touch es i w))
