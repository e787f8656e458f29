-- ===== src/Directory/Names.antt =====
-- The directory as a map from names: what `Find` returns after `Add` and after `Remove`.
use so_ii.Base.{ℕ, ◌≡◌, true, none, some, List, if◌then◌else◌, ◌∙◌, ok, arith}
use so_ii.CString.{strn_equal}
use so_ii.Directory.{Directory, file_name_max_len, minus_one, find, add, remove}
use so_ii.Directory.Table.{
  lookup, has_free, fill, release, Distinct, lookup-fill, lookup-release, fill-Distinct,
  release-Distinct, length-fill, length-release,
}
use so_ii.Directory.Loops.{IsSized, find-lookup, add-fill, remove-release}

-- In a directory without two equal names, of which an entry is free, `Add` of a name that is not
-- there succeeds. `Find` then returns the new sector for every name that agrees with it in the
-- first nine bytes, and for the others what it returned before; no two names are equal.
pub find-add :
    (d : Directory) (name other : List ℕ) (s : ℕ)
    → IsSized d
    → Distinct d.table
    → has_free d.table ≡ true
    → lookup d.table name ≡ none
    → (d' : Directory) × (add d name s ≡ ok (true, d'))
      × Distinct d'.table
      × (find d' other ≡ (if strn_equal file_name_max_len name other then ok s else find d other))
find-add d name other s sized distinct free absent =
    let d' = record d { table = fill d.table name s } in
    (
      d',
      rw (add-fill d name s sized, absent, free),
      fill-Distinct d.table name s distinct free absent,
      ground (
        arith,
        find-lookup d' other (length-fill d.table name s ∙ sized),
        find-lookup d other sized,
        lookup-fill d.table name other s distinct free absent,
      ),
    )

-- In a directory without two equal names, `Remove` of a name that is there succeeds. `Find` then
-- returns -1 for every name that agrees with it in the first nine bytes, and for the others what it
-- returned before; no two names are equal.
pub find-remove :
    (d : Directory) (name other : List ℕ) (s : ℕ)
    → IsSized d
    → Distinct d.table
    → lookup d.table name ≡ some s
    → (d' : Directory) × (remove d name ≡ ok (true, d'))
      × Distinct d'.table
      × (find d' other
          ≡ (if strn_equal file_name_max_len name other then ok minus_one else find d other))
find-remove d name other s sized distinct hit =
    let d' = record d { table = release d.table name } in
    (
      d',
      rw (remove-release d name sized, hit),
      release-Distinct d.table name distinct,
      ground (
        arith,
        find-lookup d' other (length-release d.table name ∙ sized),
        find-lookup d other sized,
        lookup-release d.table name other distinct,
      ),
    )
