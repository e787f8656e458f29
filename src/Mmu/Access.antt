-- ===== src/Mmu/Access.antt =====
-- `Translate`, `WriteMem` and `ReadMem` on a machine that is ready.
use so_ii.Base.{
  ℕ, ◌+◌, ◌*◌, ◌/◌, ◌%◌, ◌≡◌, refl, ap, sym, ◌∙◌, Bool, true, false, not, ◌&&◌, ◌||◌, Option, List,
  ◌⊎◌, inl, inr, Bool-cases, ltb, leb, le→leb, ltb→lt, if◌then◌else◌, ok, read_at, arith,
}
use so_ii.Mmu.{
  Mmu, TranslationEntry, ExceptionType, page_size, num_phys_pages, memory_size, is_null, entries,
  retrieve_page_entry, is_misaligned, translate_entry, translate, is_access_size,
}
use so_ii.Mmu.Translate.{
  HasTable, by_tlb, by_page_table, IsReady, Frame, frame, physical, address_of, write_at-touch,
  raises, returns, retrieve_page_entry-frame, aligned_in_page, Translates, touched_mmu,
  touched-memory, touched-frames, touched-HasTable,
}

has_one :
    (m : Mmu)
    → HasTable m.tlb m.page_table m.page_table_size
    → ((not (is_null m.tlb) || not (is_null m.page_table)) ≡ true)
      × ((is_null m.tlb || is_null m.page_table) ≡ true)
has_one m t = go m.tlb m.page_table m.page_table_size t
  where
    go :
        (tlb page_table : Option (List TranslationEntry)) (n : ℕ)
        → HasTable tlb page_table n
        → ((not (is_null tlb) || not (is_null page_table)) ≡ true)
          × ((is_null tlb || is_null page_table) ≡ true)
    go tlb page_table n (by_tlb es) = (refl, refl)
    go tlb page_table n (by_page_table es long) = (refl, refl)

-- The steps of `Translate` with an entry.
entry-run :
    (m : Mmu) (a size : ℕ) (w : Bool) (i : ℕ) (e : TranslationEntry)
    → is_access_size size ≡ true
    → is_misaligned a size ≡ false
    → read_at (entries m) i ≡ ok e
    → (b : Bool) × (translate_entry m a size w (inr i)
        ≡ ok
            (if b then touched_mmu m i w else m, physical (inr (e.physical_page, e.read_only)) a w))
unfolding touched_mmu
entry-run m a size w i e s aligned at = elim (Bool-cases (e.read_only && w)) [
  | inl refused ↦ (false, rw (at, write_at-touch (entries m) i w e at, refused) refl)
  | inr allowed ↦ elim (Bool-cases (leb num_phys_pages e.physical_page)) [
    | inl outside ↦
        let past : ltb e.physical_page num_phys_pages ≡ false = ground arith in
        (false, rw (at, write_at-touch (entries m) i w e at, allowed, outside, past) refl)
    | inr inside ↦
        let within : ltb e.physical_page num_phys_pages ≡ true = ground arith in
        let fits = le→leb (e.physical_page * page_size + a % page_size + size) memory_size (
          omega (
            arith,
            ltb→lt e.physical_page num_phys_pages within,
            aligned_in_page a size s aligned,
          )) in
        (true, rw (at, write_at-touch (entries m) i w e at, allowed, inside, within, fits) refl)
  ]
]

translate-run :
    (m : Mmu) (a size : ℕ) (w : Bool) (found : ExceptionType ⊎ ℕ) (r : Mmu × (ExceptionType ⊎ ℕ))
    → HasTable m.tlb m.page_table m.page_table_size
    → is_misaligned a size ≡ false
    → retrieve_page_entry m (a / page_size) ≡ ok found
    → translate_entry m a size w found ≡ ok r
    → translate m a size w ≡ ok r
unfolding translate
translate-run m a size w found r t aligned run step =
    rw ((has_one m t).0, (has_one m t).1, aligned, run) step

address_of-aligned :
    (m : Mmu) (a size : ℕ) (w : Bool) (f : Frame)
    → is_misaligned a size ≡ false
    → frame m (a / page_size) ≡ f
    → address_of m a size w ≡ physical f a w
address_of-aligned m a size w f aligned e = rw (aligned, e) refl

after_touch :
    (m : Mmu) (i : ℕ) (w b : Bool)
    → HasTable m.tlb m.page_table m.page_table_size
    → let m' = if b then touched_mmu m i w else m in
      (m'.main_memory ≡ m.main_memory)
      × HasTable m'.tlb m'.page_table m'.page_table_size
      × ((vpn : ℕ) → frame m' vpn ≡ frame m vpn)
after_touch m i w false t = (refl, t, λ vpn. refl)
after_touch m i w true t =
    (touched-memory m i w, touched-HasTable m i w t, λ vpn. touched-frames m i w vpn t)

-- On a machine that is ready, `Translate` of an access of 1, 2 or 4 bytes trips no assertion and
-- returns the physical address or the exception that the table gives. It leaves the memory, and no
-- page is translated in another way afterwards.
pub translate-Translates :
    (m : Mmu) (a size : ℕ) (w : Bool)
    → IsReady m
    → is_access_size size ≡ true
    → Translates m a size w
unfolding translate
translate-Translates m a size w ready s = elim (Bool-cases (is_misaligned a size)) [
  | inl misaligned ↦ record {
    after = m;
    memory = refl;
    table = ready.table;
    frames = λ vpn. refl;
    runs = rw ((has_one m ready.table).0, (has_one m ready.table).1, misaligned) refl;
  }
  | inr aligned ↦
      elim (retrieve_page_entry-frame m.main_memory m.tlb m.page_table m.page_table_size
        (a / page_size) ready.table) [
          | raises x run f ↦ record {
            after = m;
            memory = refl;
            table = ready.table;
            frames = λ vpn. refl;
            runs =
                translate-run m a size w (inl x) (m, inl x) ready.table aligned run refl
                ∙ ap (λ r. ok (m, r)) (sym (address_of-aligned m a size w (inl x) aligned f));
          }
          | returns i run at ↦
              let (b, step) = entry-run m a size w i at.entry s aligned at.at in
              let after = if b then touched_mmu m i w else m in
              let (memory, table, frames) = after_touch m i w b ready.table in
              record {
                after = after;
                memory = memory;
                table = table;
                frames = frames;
                runs =
                    translate-run m a size w (inr i) _ ready.table aligned run step
                    ∙ ap (λ r. ok (after, r))
                        (sym (
                          address_of-aligned m a size w
                            (inr (at.entry.physical_page, at.entry.read_only)) aligned at.same));
              }
        ]
]
