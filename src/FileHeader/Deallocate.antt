-- ===== src/FileHeader/Deallocate.antt =====
-- `Deallocate` frees the sectors of a header again: it undoes `Allocate`.
use so_ii.Base.{
  ℕ, zero, suc, ◌+◌, ◌≤◌, ◌<◌, ◌≡◌, refl, sym, true, List, ◌∷◌, to_nat, length, get_or, slice,
  slice-suc, All, count, ok, read_at-get_or, arith,
}
use mathlib.Core.Path.{subst}
use so_ii.Bitmap.{Bitmap}
use so_ii.Bitmap.View.{
  IsValid, is_set, cleared, cleared-IsValid, clear-cleared, test-is_set, is_set-cleared,
}
use so_ii.Bitmap.Find.{clears-cleared}
use so_ii.FileHeader.{FileHeader, deallocate_from, deallocate}
use so_ii.Bitmap.Takes.{Takes}
use so_ii.FileHeader.Allocate.{sectors_of}

-- Every sector of the list lies on the disk, is marked, and stands in the list once.
pub record IsHeld (bm : Bitmap) (sectors : List ℕ) : Type 0 where
  pub in_range : All (λ s. s < bm.num_bits) sectors
  pub once : (s : ℕ) → count s sectors ≤ to_nat (is_set bm s)

module _ (bm : Bitmap) (s : ℕ) (rest : List ℕ) (v : IsValid bm) (held : IsHeld bm (s ∷ rest)) where
  head_marked : is_set bm s ≡ true
  head_marked = ground (arith, held.once s)

  pub tail-IsHeld : IsHeld (cleared bm s) rest
  tail-IsHeld = record {
    in_range = held.in_range.1;
    once = λ t. ground (arith, held.once t, is_set-cleared bm s v held.in_range.0 t);
  }

  pub cons_release : {bm' : Bitmap} → Takes bm' rest (cleared bm s) → Takes bm' (s ∷ rest) bm
  cons_release {bm'} t = record {
    valid = v;
    width = t.width;
    in_range = (rw (← t.width) held.in_range.0, t.in_range);
    exact = λ u. ground (arith, t.exact u, is_set-cleared bm s v held.in_range.0 u, head_marked);
    fewer = omega (
      arith,
      t.fewer,
      clears-cleared bm s v held.in_range.0 bm.num_bits 0 (omega arith)
          (omega (arith, held.in_range.0)) head_marked,
    );
  }

deallocate_from_lem :
    (rounds i : ℕ) (h : FileHeader) (bm : Bitmap)
    → IsValid bm
    → i + rounds ≤ length h.data_sectors
    → IsHeld bm (slice i rounds h.data_sectors)
    → (bm' : Bitmap) × (deallocate_from rounds i h bm ≡ ok bm')
      × IsValid bm'
      × Takes bm' (slice i rounds h.data_sectors) bm
unfolding deallocate_from
deallocate_from_lem zero i h bm v fits held = (
  bm,
  refl,
  v,
  record { valid = v; width = refl; in_range = tt; exact = λ s. omega arith; fewer = omega arith },
)
deallocate_from_lem (suc rounds) i h bm v fits held =
    let s = get_or h.data_sectors i 0 in
    let rest = slice (i + 1) rounds h.data_sectors in
    let split = slice-suc i rounds h.data_sectors 0 (omega arith) in
    let held' = subst (IsHeld bm) split held in
    let lt = held'.in_range.0 in
    let (bm', run, v', t) =
      deallocate_from_lem rounds (i + 1) h (cleared bm s) (cleared-IsValid bm s v) (omega arith)
        (tail-IsHeld bm s rest v held') in
    (
      bm',
      rw
          (
            read_at-get_or h.data_sectors i 0 (omega arith),
            test-is_set bm s v lt,
            head_marked bm s rest v held',
            clear-cleared bm s v lt,
          )
          run,
      v',
      subst (λ xs. Takes bm' xs bm) (sym split) (cons_release bm s rest v held' t),
    )

-- If the sectors of a header are held, each once, `Deallocate` trips no assertion, and leaves a
-- free map from which those sectors would just have to be taken to get the old one.
pub deallocate-Takes :
    (h : FileHeader) (bm : Bitmap)
    → IsValid bm
    → h.num_sectors ≤ length h.data_sectors
    → IsHeld bm (sectors_of h)
    → (bm' : Bitmap) × (deallocate h bm ≡ ok bm') × IsValid bm' × Takes bm' (sectors_of h) bm
unfolding deallocate
deallocate-Takes h bm v fits held = deallocate_from_lem h.num_sectors 0 h bm v (omega arith) held
