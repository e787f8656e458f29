-- ===== src/Bitmap/View.antt =====
-- A bitmap as a function from indices to bits, and the effect of `Mark`, `Clear` and `Test` on it.
use so_ii.Base.{
  ℕ, zero, suc, ◌*◌, ◌/◌, ◌%◌, ◌^◌, ◌<◌, ◌≡◌, ap, Bool, true, false, not, bit_and, bit_or, lt→ltb,
  ◌==◌, if◌then◌else◌, length, get_or, set, length-set, get_or-set, ok, read_at-get_or,
  write_at-set, arith,
}
use native.Mathlib.Nat.{one-le-pow}
use so_ii.Base.Bits.{bit, bit-lt, bit-bit_or, bit-bit_and, bit-pow, bit_complement, bit_and-pow}
use so_ii.Bitmap.{Bitmap, bits_in_word, div_round_up, mask, mask_complement, mark, clear, test}

-- The state that every constructed bitmap is in.
pub record IsValid (bm : Bitmap) : Type 0 where
  pub sized : bm.num_words ≡ div_round_up bm.num_bits bits_in_word
  pub full : length bm.words ≡ bm.num_words

abbrev pub word_of : Bitmap → ℕ → ℕ
word_of bm i = get_or bm.words (i / 32) 0

-- Bit `i` of the bitmap.
unfoldable pub is_set : Bitmap → ℕ → Bool
is_set bm i = bit (word_of bm i) (i % 32) == 1

-- What `Mark` and `Clear` make of the bitmap.
abbrev pub marked : Bitmap → ℕ → Bitmap
marked bm i = record bm { words = set bm.words (i / 32) (bit_or (word_of bm i) (mask i)) }

abbrev pub cleared : Bitmap → ℕ → Bitmap
cleared bm i = record bm {
  words = set bm.words (i / 32) (bit_and (word_of bm i) (mask_complement i));
}

pub marked-IsValid : (bm : Bitmap) (i : ℕ) → IsValid bm → IsValid (marked bm i)
marked-IsValid bm i v =
    omega (arith, v.full, length-set bm.words (i / 32) (bit_or (word_of bm i) (mask i)))

pub cleared-IsValid : (bm : Bitmap) (i : ℕ) → IsValid bm → IsValid (cleared bm i)
cleared-IsValid bm i v =
    omega (arith, v.full, length-set bm.words (i / 32) (bit_and (word_of bm i) (mask_complement i)))

flag : (b p : ℕ) → b < 2 → 0 < p → not (b * p == 0) ≡ b == 1
flag zero p h q = ground arith
flag (suc zero) p h q = ground arith
flag (suc (suc b)) p h q = absurd (omega arith)

module _ (bm : Bitmap) (i : ℕ) (v : IsValid bm) (h : i < bm.num_bits) where
  pub word_in_range : i / 32 < length bm.words
  word_in_range = ground arith

  pub mark-marked : mark bm i ≡ ok (marked bm i)
  unfolding mark
  mark-marked = rw (
    lt→ltb _ _ h,
    read_at-get_or bm.words (i / 32) 0 word_in_range,
    write_at-set bm.words (i / 32) (bit_or (word_of bm i) (mask i)) word_in_range,
  )

  pub clear-cleared : clear bm i ≡ ok (cleared bm i)
  unfolding clear
  clear-cleared = rw (
    lt→ltb _ _ h,
    read_at-get_or bm.words (i / 32) 0 word_in_range,
    write_at-set bm.words (i / 32) (bit_and (word_of bm i) (mask_complement i)) word_in_range,
  )

  pub test-is_set : test bm i ≡ ok (is_set bm i)
  unfolding test is_set
  test-is_set =
      rw
        (
          lt→ltb _ _ h,
          read_at-get_or bm.words (i / 32) 0 word_in_range,
          bit_and-pow (word_of bm i) (i % 32),
        )
        (ap ok (
          flag (bit (word_of bm i) (i % 32)) (2 ^ (i % 32)) (bit-lt _ _)
            (one-le-pow _ _ (omega arith))))

  pub is_set-marked : (j : ℕ) → is_set (marked bm i) j ≡ (if i == j then true else is_set bm j)
  unfolding is_set
  is_set-marked j = ground (
    arith,
    get_or-set bm.words (i / 32) (j / 32) (bit_or (word_of bm i) (mask i)) 0 word_in_range,
    bit-bit_or (word_of bm i) (mask i) (j % 32),
    bit-pow (i % 32) (j % 32),
    bit-lt (word_of bm i) (j % 32),
  )

  pub is_set-cleared : (j : ℕ) → is_set (cleared bm i) j ≡ (if i == j then false else is_set bm j)
  unfolding is_set
  is_set-cleared j = ground (
    arith,
    get_or-set bm.words (i / 32) (j / 32) (bit_and (word_of bm i) (mask_complement i)) 0
        word_in_range,
    bit-bit_and (word_of bm i) (mask_complement i) (j % 32),
    bit_complement 32 (i % 32) (j % 32) (omega arith) (omega arith),
    bit-lt (word_of bm i) (j % 32),
  )

-- `Mark` of a bit below the number of bits trips no assertion and keeps the bitmap valid; `Test`
-- then finds that bit set, and each other bit as it was.
pub test-mark :
    (bm : Bitmap) (i j : ℕ)
    → IsValid bm
    → i < bm.num_bits
    → j < bm.num_bits
    → (bm' : Bitmap) × (mark bm i ≡ ok bm')
      × IsValid bm'
      × (test bm' j ≡ (if i == j then ok true else test bm j))
test-mark bm i j v h p =
    let v' = marked-IsValid bm i v in
    (
      marked bm i,
      mark-marked bm i v h,
      v',
      ground
          (arith, test-is_set (marked bm i) j v' p, test-is_set bm j v p, is_set-marked bm i v h j),
    )

-- `Clear` of a bit below the number of bits trips no assertion and keeps the bitmap valid; `Test`
-- then finds that bit clear, and each other bit as it was.
pub test-clear :
    (bm : Bitmap) (i j : ℕ)
    → IsValid bm
    → i < bm.num_bits
    → j < bm.num_bits
    → (bm' : Bitmap) × (clear bm i ≡ ok bm')
      × IsValid bm'
      × (test bm' j ≡ (if i == j then ok false else test bm j))
test-clear bm i j v h p =
    let v' = cleared-IsValid bm i v in
    (
      cleared bm i,
      clear-cleared bm i v h,
      v',
      ground (
        arith,
        test-is_set (cleared bm i) j v' p,
        test-is_set bm j v p,
        is_set-cleared bm i v h j,
      ),
    )
