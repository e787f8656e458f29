-- ===== src/FileHeader/Examples.antt =====
-- Examples of file headers.
use so_ii.Base.{
  ◌≡◌, refl, true, inl, inr, [], ◌∷◌, replicate, ok, count, to_nat, Bool-cases, ==_iff, ◌≤◌, ◌==◌,
  arith,
}
use mathlib.Core.Path.{subst}
use so_ii.Base.Bits.{bit}
use so_ii.Bitmap.{Bitmap}
use so_ii.Bitmap.View.{IsValid, is_set}
use so_ii.Bitmap.Find.{clears, free_bits}
use so_ii.Bitmap.Takes.{Takes}
use so_ii.FileHeader.{FileHeader, allocate, deallocate}
use so_ii.FileHeader.Allocate.{sectors_of, Allocates, allocate-Allocates}
use so_ii.FileHeader.Deallocate.{IsHeld, deallocate-Takes}

-- Eight sectors, of which 0 and 2 are marked.
abbrev eight : Bitmap
eight = record { num_bits = 8; num_words = 1; words = 5 ∷ [] }

eight-IsValid : IsValid eight
eight-IsValid = record { sized = refl; full = refl }

eight-free_bits : free_bits eight ≡ 6
unfolding clears is_set bit
eight-free_bits = refl

abbrev blank : FileHeader
blank = record { num_bytes = 0; num_sectors = 0; data_sectors = replicate 30 0 }

allocate-Allocates_example :
    (h' : FileHeader) × (bm' : Bitmap) × (allocate blank eight 300 ≡ ok (true, h', bm'))
    × Allocates eight 300 h' bm'
allocate-Allocates_example =
    allocate-Allocates blank eight 300 refl eight-IsValid (omega arith)
      (omega (arith, eight-free_bits))

-- A header that holds sector 2.
abbrev two : FileHeader
two = record { num_bytes = 10; num_sectors = 1; data_sectors = 2 ∷ replicate 29 0 }

two-IsHeld : IsHeld eight (sectors_of two)
unfolding is_set bit
two-IsHeld = record {
  in_range = (omega arith, tt);
  once = λ s. elim (Bool-cases (2 == s)) [
    | inl e ↦
        subst (λ n. count n (2 ∷ []) ≤ to_nat (is_set eight n)) ((==_iff 2 s).0 e) (omega arith)
    | inr other ↦ ground arith
  ];
}

deallocate-Takes_example :
    (bm' : Bitmap) × (deallocate two eight ≡ ok bm')
    × IsValid bm'
    × Takes bm' (sectors_of two) eight
deallocate-Takes_example = deallocate-Takes two eight eight-IsValid (omega arith) two-IsHeld
