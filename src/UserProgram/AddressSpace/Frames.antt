-- ===== src/UserProgram/AddressSpace/Frames.antt =====
-- The frames of the pages of a program, which userprog/address_space.cc takes and gives back.
use so_ii.Base.{
  slice, slice-suc, Bool-cases, le→leb, ℕ, zero, suc, ◌+◌, ◌-◌, ◌%◌, ◌≤◌, ◌<◌, ◌≡◌, refl, sym, ap,
  ◌∙◌, inl, inr, none, some, List, [], ◌∷◌, ltb, length, length-replicate, replicate, get_or, map,
  ok, arith, if◌then◌else◌, read_at-get_or,
}
use mathlib.Core.Path.{subst}
use so_ii.Base.Memory.{memset, memcpy-Copies, is_within}
use so_ii.Bitmap.{Bitmap}
use so_ii.Bitmap.View.{IsValid, marked, marked-IsValid, cleared, cleared-IsValid, clear-cleared}
use so_ii.Bitmap.Find.{free_bits, find_lem}
use so_ii.Bitmap.Takes.{Takes, nil-Takes, cons-Takes}
use so_ii.FileHeader.Deallocate.{IsHeld, tail-IsHeld, cons_release}
use so_ii.Mmu.{TranslationEntry, page_size, num_phys_pages}
use so_ii.UserProgram.AddressSpace.{new_entry, map_pages, clear_pages}

abbrev pub frames : List TranslationEntry → List ℕ
frames table = map (λ entry. entry.physical_page) table

abbrev pub blank_entry : TranslationEntry
blank_entry = new_entry 0 none

abbrev pub entry_at : List TranslationEntry → ℕ → TranslationEntry
entry_at table i = get_or table i blank_entry

abbrev pub last_or : ℕ → List ℕ → ℕ
last_or d [] = d
last_or d (x ∷ xs) = last_or x xs

get_or-replicate_within : (n j value : ℕ) → j < n → get_or (replicate n value) j 0 ≡ value
get_or-replicate_within zero j value h = absurd (omega arith)
get_or-replicate_within (suc n) zero value h = refl
get_or-replicate_within (suc n) (suc j) value h = get_or-replicate_within n j value (omega arith)

-- What the loop over the pages leaves.
pub record Maps (rounds i : ℕ) (bm : Bitmap) (memory : List ℕ) : Type 0 where
  pub table : List TranslationEntry
  pub after : Bitmap
  pub memory_after : List ℕ
  pub runs : map_pages rounds i bm memory ≡ ok (table, after, memory_after)
  pub pages : length table ≡ rounds
  pub takes : Takes bm (frames table) after
  pub entries :
      (k : ℕ) → k < rounds → entry_at table k ≡ new_entry (i + k) (some (get_or (frames table) k 0))
  pub same_length : length memory_after ≡ length memory
  pub kept : (j : ℕ) → page_size ≤ j → get_or memory_after j 0 ≡ get_or memory j 0
  pub damaged :
      (j : ℕ) → j < page_size → get_or memory_after j 0 ≡ last_or (get_or memory j 0) (frames table)

-- What `memset` writes, which is always the frame 0.
record Fills (memory : List ℕ) (value : ℕ) : Type 0 where
  after : List ℕ
  runs : memset memory value page_size ≡ ok after
  same_length : length after ≡ length memory
  bytes_in : (j : ℕ) → get_or after j 0 ≡ (if ltb j page_size then value else get_or memory j 0)

memset-Fills :
    (memory : List ℕ) (value : ℕ) → page_size ≤ length memory → value < 256 → Fills memory value
memset-Fills memory value room small =
    let c =
      memcpy-Copies memory 0 (replicate page_size (value % 256))
        (omega (arith, length-replicate page_size (value % 256))) in
    record {
      after = c.after;
      runs = c.runs;
      same_length = c.same_length;
      bytes_in = λ j. c.bytes_in j ∙ rw (length-replicate page_size (value % 256)) (filled j);
    }
  where
    same_test : (j : ℕ) → is_within 0 page_size j ≡ ltb j page_size
    same_test j = ground arith

    filled :
        (j : ℕ)
        → (if is_within 0 page_size j
            then get_or (replicate page_size (value % 256)) (j - 0) 0
            else get_or memory j 0)
          ≡ (if ltb j page_size then value else get_or memory j 0)
    filled j = elim (Bool-cases (ltb j page_size)) [
      | inl inside ↦
          rw (same_test j, inside)
            ((get_or-replicate_within page_size (j - 0) (value % 256) (ground arith) ∙ omega arith))
      | inr past ↦ rw (same_test j, past) refl
    ]

pub map_pages-Maps :
    (rounds i : ℕ) (bm : Bitmap) (memory : List ℕ)
    → IsValid bm
    → bm.num_bits ≡ num_phys_pages
    → rounds ≤ free_bits bm
    → page_size ≤ length memory
    → Maps rounds i bm memory
unfolding map_pages
map_pages-Maps zero i bm memory v width enough room = record {
  table = [];
  after = bm;
  memory_after = memory;
  runs = refl;
  pages = refl;
  takes = nil-Takes v;
  entries = λ k less. absurd (omega arith);
  same_length = refl;
  kept = λ j past. refl;
  damaged = λ j inside. refl;
}
map_pages-Maps (suc rounds) i bm memory v width enough room = elim (find_lem bm v) [
  | inl (full, _) ↦ absurd (omega arith)
  | inr (k, f) ↦
      let fill = memset-Fills memory k room (omega (arith, f.in_range)) in
      let rest =
        map_pages-Maps rounds (i + 1) (marked bm k) fill.after (marked-IsValid bm k v) width
          (omega (arith, f.fewer)) (omega (arith, fill.same_length)) in
      record {
        table = new_entry i (some k) ∷ rest.table;
        after = rest.after;
        memory_after = rest.memory_after;
        runs = rw (f.returns, le→leb 0 k (omega arith), fill.runs, rest.runs) refl;
        pages = ap suc rest.pages;
        takes = cons-Takes v f rest.takes;
        entries = each k rest.table rest.entries;
        same_length = rest.same_length ∙ fill.same_length;
        kept = λ j past. rest.kept j past ∙ fill.bytes_in j ∙ ground arith;
        damaged = λ j inside.
            rest.damaged j inside
            ∙ ap (λ d. last_or d (frames rest.table)) (fill.bytes_in j ∙ ground arith);
      }
]
  where
    each :
        (frame : ℕ) (table : List TranslationEntry)
        → ((k : ℕ)
            → k < rounds
            → entry_at table k ≡ new_entry (i + 1 + k) (some (get_or (frames table) k 0)))
        → (k : ℕ) → k < suc rounds
        → entry_at (new_entry i (some frame) ∷ table) k
          ≡ new_entry (i + k) (some (get_or (frame ∷ frames table) k 0))
    each frame table h zero less =
        ap (λ p. new_entry p (some frame)) (let e : i ≡ i + 0 = omega arith in e)
    each frame table h (suc k) less =
        h k (omega arith)
        ∙ ap (λ p. new_entry p (some (get_or (frames table) k 0)))
            (let e : i + 1 + k ≡ i + suc k = omega arith in e)

-- What is held once is given back by the destructor.
pub clear_pages_lem :
    (rounds i : ℕ) (table : List TranslationEntry) (bm : Bitmap)
    → IsValid bm
    → i + rounds ≤ length table
    → IsHeld bm (frames (slice i rounds table))
    → (bm' : Bitmap) × (clear_pages rounds i table bm ≡ ok bm')
      × Takes bm' (frames (slice i rounds table)) bm
unfolding clear_pages
clear_pages_lem zero i table bm v fits held = (bm, refl, nil-Takes v)
clear_pages_lem (suc rounds) i table bm v fits held =
    let s = (entry_at table i).physical_page in
    let rest = frames (slice (i + 1) rounds table) in
    let split = ap frames (slice-suc i rounds table (new_entry 0 none) (omega arith)) in
    let held' = subst (IsHeld bm) split held in
    let (bm', run, t) =
      clear_pages_lem rounds (i + 1) table (cleared bm s) (cleared-IsValid bm s v) (omega arith)
        (tail-IsHeld bm s rest v held') in
    (
      bm',
      rw
          (
            read_at-get_or table i (new_entry 0 none) (omega arith),
            clear-cleared bm s v held'.in_range.0,
          )
          run,
      subst (λ xs. Takes bm' xs bm) (sym split) (cons_release bm s rest v held' t),
    )
