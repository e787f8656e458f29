-- ===== src/Table/Examples.antt =====
-- Examples of tables.
use so_ii.Base.{ℕ, ◌≡◌, ◌⊎◌, arith, refl, false, [], ◌∷◌, replicate, ok, ◌>>=◌}
use so_ii.Base.Int.{pos, negsuc, ◌-ℤ◌}
use so_ii.LinkedList.{node, has, has_node, sorted_pop}
use so_ii.Table.Add.{IsValid, Adds, add-Adds}
use so_ii.Table.{Table, add, remove, has_key, get, shrink}

-- Items at 1 and 3; the items at 0 and 2 were removed.
abbrev two_freed : Table ℕ
two_freed = record {
  data_items = 10 ∷ 11 ∷ 12 ∷ 13 ∷ replicate 16 0;
  current = pos 4;
  freed = record { nodes = node (pos 0) (pos 0) ∷ node (pos 2) (pos 2) ∷ []; size = pos 2 };
}

-- Index 0 has no item.
no_zero : has_key two_freed (pos 0) ≡ ok false
unfolding has_key has has_node
no_zero = refl

-- `Remove` of index 3 brings back the item at index 0.
back_again : (do (_, t) ← remove 0 two_freed (pos 3); get 0 t (pos 0)) ≡ ok 10
unfolding remove get has_key shrink has has_node sorted_pop ◌-ℤ◌
back_again = refl

two_freed-IsValid : IsValid two_freed
unfolding has_node
two_freed-IsValid = record {
  bound = 4;
  current = refl;
  small = omega arith;
  full = refl;
  freed = ((0, refl, omega arith, refl), ((2, refl, omega arith, refl), tt));
}

add-Adds_example :
    ((two_freed.freed.nodes ≡ [])
      × (two_freed.current ≡ pos 20)
      × (add two_freed 99 ≡ ok (negsuc 0, two_freed)))
    ⊎ ((i : ℕ) × (t' : Table ℕ) × Adds 0 two_freed 99 i t')
add-Adds_example = add-Adds 0 99 two_freed two_freed-IsValid
