-- ===== src/OpenFile/Examples.antt =====
-- Examples of an open file.
use so_ii.Base.{
  ℕ, zero, suc, ◌<◌, ◌≡◌, refl, ap, ◌∙◌, List, [], ◌∷◌, length, length-replicate, replicate, get_or,
  arith,
}
use so_ii.FileHeader.{FileHeader}
use so_ii.FileSystem.{num_sectors}
use so_ii.OpenFile.Sectors.{IsFile, sector_of}
use so_ii.OpenFile.Read.{Gets, read_at-Gets}
use so_ii.OpenFile.Write.{Puts, write_at-Puts}

abbrev pub sector : List ℕ
sector = replicate 128 7

unfoldable pub disk : List (List ℕ)
disk = replicate num_sectors sector

-- A file of 200 bytes in the sectors 9 and 5.
abbrev pub header : FileHeader
header = record { num_bytes = 200; num_sectors = 2; data_sectors = 9 ∷ 5 ∷ [] }

get_or-replicate_inside : (n i : ℕ) (xs : List ℕ) → i < n → get_or (replicate n xs) i [] ≡ xs
get_or-replicate_inside zero i xs h = absurd (omega arith)
get_or-replicate_inside (suc n) zero xs h = refl
get_or-replicate_inside (suc n) (suc i) xs h = get_or-replicate_inside n i xs (omega arith)

sectors_inside : (i : ℕ) → i < 2 → sector_of header i < num_sectors
sectors_inside zero h = omega arith
sectors_inside (suc zero) h = omega arith
sectors_inside (suc (suc i)) h = absurd (omega arith)

sectors_distinct : (i j : ℕ) → i < 2 → j < 2 → sector_of header i ≡ sector_of header j → i ≡ j
sectors_distinct zero zero h k e = refl
sectors_distinct zero (suc zero) h k e = absurd (omega arith)
sectors_distinct (suc zero) zero h k e = absurd (omega arith)
sectors_distinct (suc zero) (suc zero) h k e = refl
sectors_distinct (suc (suc i)) j h k e = absurd (omega arith)
sectors_distinct i (suc (suc j)) h k e = absurd (omega arith)

pub file : IsFile header disk
unfolding disk
file = record {
  full = length-replicate num_sectors sector;
  whole = λ s h.
      ap (length {A = ℕ}) (get_or-replicate_inside num_sectors s sector h)
      ∙ length-replicate {A = ℕ} 128 7;
  few = omega arith;
  listed = omega arith;
  enough = omega arith;
  inside = sectors_inside;
  distinct = sectors_distinct;
}

read_at-Gets_example : Gets (λ i. i) header disk 100 120
read_at-Gets_example = read_at-Gets (λ i. i) header disk file 100 120 (omega arith) (omega arith)

write_at-Puts_example : Puts (λ i. i) header disk (1 ∷ 2 ∷ 3 ∷ 4 ∷ []) 4 126
write_at-Puts_example =
    write_at-Puts (λ i. i) header disk file (1 ∷ 2 ∷ 3 ∷ 4 ∷ []) 4 126 (omega arith) (omega arith)
      (omega arith)
