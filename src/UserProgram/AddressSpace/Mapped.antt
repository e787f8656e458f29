-- ===== src/UserProgram/AddressSpace/Mapped.antt =====
-- The frames that the pages of a program are in, by their indices.
use so_ii.Base.{
  ℕ, zero, suc, ◌≤◌, ◌<◌, ◌≡◌, refl, sym, ap, ◌∙◌, List, [], ◌∷◌, length, get_or, count, All, arith,
}
use so_ii.Bitmap.{Bitmap}
use so_ii.Bitmap.Takes.{Takes}
use so_ii.Mmu.{TranslationEntry, num_phys_pages}
use so_ii.UserProgram.AddressSpace.Frames.{frames, entry_at}
use so_ii.UserProgram.AddressSpace.Copy.{IsMapped}

-- A list in which a number stands once at most has it at one index at most.
pub count-get_or : (xs : List ℕ) (i : ℕ) → i < length xs → 1 ≤ count (get_or xs i 0) xs
count-get_or [] i h = absurd (omega arith)
count-get_or (x ∷ xs) zero h = ground arith
count-get_or (x ∷ xs) (suc i) h = omega (arith, count-get_or xs i (omega arith))

once_index :
    (xs : List ℕ)
    → ((s : ℕ) → count s xs ≤ 1)
    → (i j : ℕ) → i < length xs
    → j < length xs
    → get_or xs i 0 ≡ get_or xs j 0
    → i ≡ j
once_index [] once i j h k e = absurd (omega arith)
once_index (x ∷ xs) once zero zero h k e = refl
once_index (x ∷ xs) once zero (suc j) h k e =
    absurd (ground (arith, once (get_or xs j 0), count-get_or xs j (omega arith), e))
once_index (x ∷ xs) once (suc i) zero h k e =
    absurd (ground (arith, once (get_or xs i 0), count-get_or xs i (omega arith), e))
once_index (x ∷ xs) once (suc i) (suc j) h k e =
    ap suc (once_index xs (λ s. omega (arith, once s)) i j (omega arith) (omega arith) e)

pub length-frames : (table : List TranslationEntry) → length (frames table) ≡ length table
length-frames [] = refl
length-frames (e ∷ table) = ap suc (length-frames table)

pub get_or-frames :
    (table : List TranslationEntry) (i : ℕ)
    → i < length table
    → get_or (frames table) i 0 ≡ (entry_at table i).physical_page
get_or-frames [] i h = absurd (omega arith)
get_or-frames (e ∷ table) zero h = refl
get_or-frames (e ∷ table) (suc i) h = get_or-frames table i (omega arith)

pub All-get_or :
    (P : ℕ → Type 0) (xs : List ℕ) (i : ℕ) → i < length xs → All P xs → P (get_or xs i 0)
All-get_or P [] i h a = absurd (omega arith)
All-get_or P (x ∷ xs) zero h a = a.0
All-get_or P (x ∷ xs) (suc i) h a = All-get_or P xs i (omega arith) a.1

-- Frames that are taken from the bitmap are different frames of the memory.
pub Takes-IsMapped :
    (table : List TranslationEntry) (bm bm' : Bitmap)
    → bm.num_bits ≡ num_phys_pages
    → length table ≤ num_phys_pages
    → Takes bm (frames table) bm'
    → IsMapped table
Takes-IsMapped table bm bm' width few t = record {
  few = few;
  inside = λ i h. omega (
    arith,
    get_or-frames table i h,
    All-get_or (λ s. s < bm.num_bits) (frames table) i (omega (arith, length-frames table))
        t.in_range,
  );
  distinct = λ i j h k e.
      once_index (frames table) (λ s. ground (arith, t.exact s)) i j
        (omega (arith, length-frames table)) (omega (arith, length-frames table))
        (get_or-frames table i h ∙ e ∙ sym (get_or-frames table j k));
}
