-- ===== src/Bitmap.antt =====
-- lib/bitmap.cc and lib/bitmap.hh: an array of bits in 32-bit words. `FetchFrom` and `WriteBack`
-- move the words of a bitmap to and from a file, and stand in FileSystem.
pub mod View
pub mod Find
pub mod Create
pub mod Takes
mod Examples
use so_ii.Base.{
  ℕ, zero, suc, ◌+◌, ◌-◌, ◌/◌, ◌%◌, ◌^◌, Bool, true, false, not, Option, none, some, List, [], ◌∷◌,
  bit_and, bit_or, ltb, ◌==◌, if◌then◌else◌, replicate, Run, ok, fault, ◌>>=◌, ◌>>◌, assert,
  read_at, write_at,
}

abbrev pub bits_in_word : ℕ
bits_in_word = 32

pub record Bitmap : Type 0 where
  pub num_bits : ℕ
  pub num_words : ℕ
  pub words : List ℕ

-- lib/utility.hh
abbrev pub div_round_up : ℕ → ℕ → ℕ
div_round_up n s = n / s + (if ltb 0 (n % s) then 1 else 0)

abbrev pub div_round_down : ℕ → ℕ → ℕ
div_round_down n s = n / s

-- `1 << which % BITS_IN_WORD`
abbrev pub mask : ℕ → ℕ
mask which = 2 ^ (which % bits_in_word)

-- `~mask` at 32 bits
abbrev pub mask_complement : ℕ → ℕ
mask_complement which = 2 ^ 32 - 1 - 2 ^ (which % bits_in_word)

unfoldable pub mark : Bitmap → ℕ → Run Bitmap
mark bm which = do
  assert (ltb which bm.num_bits)
  word ← read_at bm.words (which / bits_in_word)
  words' ← write_at bm.words (which / bits_in_word) (bit_or word (mask which))
  ok (record bm { words = words' })

unfoldable pub clear : Bitmap → ℕ → Run Bitmap
clear bm which = do
  assert (ltb which bm.num_bits)
  word ← read_at bm.words (which / bits_in_word)
  words' ← write_at bm.words (which / bits_in_word) (bit_and word (mask_complement which))
  ok (record bm { words = words' })

unfoldable pub test : Bitmap → ℕ → Run Bool
test bm which = do
  assert (ltb which bm.num_bits)
  word ← read_at bm.words (which / bits_in_word)
  ok (not (bit_and word (mask which) == 0))

-- `for (i = start; i < start + rounds; i++) Clear(i);`
pub clear_from : ℕ → ℕ → Bitmap → Run Bitmap
clear_from zero i bm = ok bm
clear_from (suc rounds) i bm = clear bm i >>= clear_from rounds (i + 1)

-- The constructor. `garbage` is what the new words hold before they are cleared.
pub new_bitmap : ℕ → List ℕ → Run Bitmap
unfolding clear_from clear
new_bitmap nitems garbage = do
  assert (ltb 0 nitems)
  clear_from nitems 0
      (record { num_bits = nitems; num_words = div_round_up nitems bits_in_word; words = garbage })

-- The loop of `Find`, with the rounds left. The result -1 is `none`.
pub find_from : ℕ → ℕ → Bitmap → Run (Bitmap × Option ℕ)
find_from zero i bm = ok (bm, none)
find_from (suc rounds) i bm =
    let rest = find_from rounds (i + 1) bm in
    let found : Run (Bitmap × Option ℕ) = (do bm' ← mark bm i; ok (bm', some i)) in
    do is_marked ← test bm i; if not is_marked then found else rest

unfoldable pub find : Bitmap → Run (Bitmap × Option ℕ)
unfolding find_from mark test
find bm = find_from bm.num_bits 0 bm

-- The loop of `CountClear`, with the rounds left.
pub count_from : ℕ → ℕ → ℕ → Bitmap → Run ℕ
count_from zero i acc bm = ok acc
count_from (suc rounds) i acc bm = do
  is_marked ← test bm i
  count_from rounds (i + 1) (if not is_marked then acc + 1 else acc) bm

unfoldable pub count_clear : Bitmap → Run ℕ
unfolding count_from test
count_clear bm = count_from bm.num_bits 0 0 bm
