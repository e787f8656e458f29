-- ===== src/Bitmap/Create.antt =====
-- The constructor of `Bitmap`: whatever its words hold at first, every bit ends up clear.
use so_ii.Base.{
  ℕ, zero, suc, ◌+◌, ◌≤◌, ◌<◌, ◌≡◌, refl, false, ◌&&◌, List, ltb, leb, lt→ltb, if◌then◌else◌,
  length, ok, arith,
}
use so_ii.Bitmap.{Bitmap, bits_in_word, div_round_up, clear_from, new_bitmap}
use so_ii.Bitmap.View.{IsValid, is_set, cleared, cleared-IsValid, clear-cleared, is_set-cleared}

clear_from_lem :
    (rounds i : ℕ) (bm : Bitmap)
    → IsValid bm
    → i + rounds ≤ bm.num_bits
    → (bm' : Bitmap) × (clear_from rounds i bm ≡ ok bm')
      × IsValid bm'
      × (bm'.num_bits ≡ bm.num_bits)
      × ((j : ℕ) → is_set bm' j ≡ (if leb i j && ltb j (i + rounds) then false else is_set bm j))
unfolding clear_from
clear_from_lem zero i bm v h = (bm, refl, v, refl, λ j. ground arith)
clear_from_lem (suc rounds) i bm v h =
    let (bm', run, v', same, bits) =
      clear_from_lem rounds (i + 1) (cleared bm i) (cleared-IsValid bm i v) (omega arith) in
    (
      bm',
      rw (clear-cleared bm i v (omega arith)) run,
      v',
      same,
      λ j. ground (arith, bits j, is_set-cleared bm i v (omega arith) j),
    )

-- A bitmap of `n > 0` bits is constructed without a failed assertion or a stray access, whatever
-- its fresh words hold, and none of its `n` bits is set.
pub new_bitmap-is_clear :
    (n : ℕ) (garbage : List ℕ)
    → 0 < n
    → length garbage ≡ div_round_up n bits_in_word
    → (bm : Bitmap) × (new_bitmap n garbage ≡ ok bm)
      × IsValid bm
      × (bm.num_bits ≡ n)
      × ((j : ℕ) → j < n → is_set bm j ≡ false)
unfolding new_bitmap
new_bitmap-is_clear n garbage pos full =
    let (bm, run, v, same, bits) =
      clear_from_lem n 0 start (record { sized = refl; full = full }) (omega arith) in
    (bm, rw (lt→ltb 0 n pos) run, v, same, λ j h. ground (arith, bits j))
  where
    start : Bitmap
    start = record { num_bits = n; num_words = div_round_up n bits_in_word; words = garbage }
