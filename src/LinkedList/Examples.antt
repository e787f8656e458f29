-- ===== src/LinkedList/Examples.antt =====
-- Examples of lists.
use so_ii.Base.{ℕ, ◌≡◌, refl, [], ◌∷◌, length, ◌==◌, arith}
use so_ii.Base.Int.{pos, negsuc}
use so_ii.LinkedList.{LinkedList, node, sorted_insert}
use so_ii.LinkedList.Sorted.{InsertsAt, sorted_insert-InsertsAt}
use so_ii.LinkedList.Size.{IsCounted, sorted_insert_uncounted, removes, change, change-IsCounted}

-- Two items, with keys -1 and 5.
abbrev two_items : LinkedList ℕ
two_items = record { nodes = node 10 (negsuc 0) ∷ node 20 (pos 5) ∷ []; size = pos 2 }

sorted_insert-InsertsAt_example :
    InsertsAt (node 30 (pos 3)) two_items.nodes (sorted_insert two_items 30 (pos 3)).nodes
sorted_insert-InsertsAt_example =
    sorted_insert-InsertsAt two_items 30 (pos 3) ((omega arith, tt), (tt, tt))

sorted_insert_uncounted_example :
    ((sorted_insert two_items 30 (pos 3)).size ≡ pos 2)
    × (length (sorted_insert two_items 30 (pos 3)).nodes ≡ 3)
sorted_insert_uncounted_example =
    sorted_insert_uncounted two_items 30 (pos 3) (node 10 (negsuc 0)) (node 20 (pos 5) ∷ []) refl
      refl refl

change-IsCounted_example : IsCounted (change ◌==◌ 0 two_items (removes 20))
change-IsCounted_example = change-IsCounted ◌==◌ 0 two_items (removes 20) refl
