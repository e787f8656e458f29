-- ===== src/Directory/Examples.antt =====
-- Examples of directories.
use so_ii.Base.{ℕ, ◌≡◌, refl, true, false, none, some, List, [], ◌∷◌, if◌then◌else◌, ok, arith}
use so_ii.CString.{strn_equal}
use so_ii.Directory.{Directory, find, add}
use so_ii.Directory.Table.{lookup, has_free, Distinct}
use so_ii.Directory.Names.{find-add}

-- "a" and "b"
abbrev name_a : List ℕ
name_a = 97 ∷ 0 ∷ []

abbrev name_b : List ℕ
name_b = 98 ∷ 0 ∷ []

-- A file "a" with its header in sector 7, and an unused entry.
abbrev one_file : Directory
one_file = record {
  table_size = 2;
  table =
      record { in_use = true; sector = 7; name = 97 ∷ 0 ∷ 0 ∷ 0 ∷ 0 ∷ 0 ∷ 0 ∷ 0 ∷ 0 ∷ 0 ∷ [] }
      ∷ record { in_use = false; sector = 3; name = 1 ∷ 1 ∷ 1 ∷ 1 ∷ 1 ∷ 1 ∷ 1 ∷ 1 ∷ 1 ∷ 1 ∷ [] }
      ∷ [];
}

one_file-Distinct : Distinct one_file.table
unfolding lookup strn_equal
one_file-Distinct = (omega arith, λ _. refl, (omega arith, λ used. refl, tt))

one_file-has_free : has_free one_file.table ≡ true
unfolding has_free
one_file-has_free = refl

one_file-a : lookup one_file.table name_a ≡ some 7
unfolding lookup strn_equal
one_file-a = refl

one_file-b : lookup one_file.table name_b ≡ none
unfolding lookup strn_equal
one_file-b = refl

find-add_example :
    (d' : Directory) × (add one_file name_b 9 ≡ ok (true, d'))
    × Distinct d'.table
    × (find d' name_a ≡ (if strn_equal 9 name_b name_a then ok 9 else find one_file name_a))
find-add_example =
    find-add one_file name_b name_a 9 refl one_file-Distinct one_file-has_free one_file-b
