-- ===== src/Bitmap/Examples.antt =====
-- Examples of bitmaps.
use so_ii.Base.{◌≡◌, refl, some, [], ◌∷◌, ok}
use so_ii.Bitmap.{Bitmap, find}
use so_ii.Bitmap.View.{IsValid}

-- Forty bits, of which 0, 2 and 33 are set.
abbrev forty : Bitmap
forty = record { num_bits = 40; num_words = 2; words = 5 ∷ 2 ∷ [] }

forty-IsValid : IsValid forty
forty-IsValid = record { sized = refl; full = refl }

find-forty : find forty ≡ ok (record forty { words = 7 ∷ 2 ∷ [] }, some 1)
unfolding find
find-forty = refl
