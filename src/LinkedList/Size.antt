-- ===== src/LinkedList/Size.antt =====
-- The size that `List` keeps against the number of its nodes.
use so_ii.Base.{
  suc, ◌≡◌, refl, Bool, true, false, ◌||◌, List, [], ◌∷◌, if◌then◌else◌, length, length-append,
  Bool-cases, inl, inr, arith,
}
use so_ii.Base.Int.{add_one, sub_one, ℤ, pos, ltb_ℤ}
use so_ii.LinkedList.{
  ListElement, LinkedList, node, insert_after, sorted_insert, append, prepend, pop, pop_nodes,
  sorted_pop, remove, remove_node,
}

module _ {ℓ} {A : Type ℓ} where
  abbrev pub IsCounted : LinkedList A → Type 0
  IsCounted l = l.size ≡ pos (length l.nodes)

  -- Some node has a larger key.
  abbrev pub any_above : ℤ → List (ListElement A) → Bool
  any_above k [] = false
  any_above k (e ∷ es) = ltb_ℤ k e.key || any_above k es

  length-insert_after :
      (new e : ListElement A) (es : List (ListElement A))
      → length (insert_after new e es).0 ≡ suc (suc (length es))
  unfolding insert_after
  length-insert_after new e [] = refl
  length-insert_after new e (f ∷ es) = ground (arith, length-insert_after new f es)

  insert_after-returns :
      (new e : ListElement A) (es : List (ListElement A))
      → (insert_after new e es).1 ≡ any_above new.key es
  unfolding insert_after
  insert_after-returns new e [] = refl
  insert_after-returns new e (f ∷ es) = elim (Bool-cases (ltb_ℤ new.key f.key)) [
    | inl less ↦ rw less refl
    | inr more ↦ rw more (insert_after-returns new f es)
  ]

  -- `SortedInsert` between two nodes, behind one whose key is not larger and before one whose key
  -- is, adds a node but leaves the size as it was.
  pub sorted_insert_uncounted :
      (l : LinkedList A) (item : A) (k : ℤ) (e : ListElement A) (es : List (ListElement A))
      → l.nodes ≡ e ∷ es
      → ltb_ℤ k e.key ≡ false
      → any_above k es ≡ true
      → ((sorted_insert l item k).size ≡ l.size)
        × (length (sorted_insert l item k).nodes ≡ suc (length l.nodes))
  unfolding sorted_insert
  sorted_insert_uncounted l item k e es h first above =
      simp (h, first, insert_after-returns (node item k) e es, above)
        (refl, length-insert_after (node item k) e es)

-- The operations that keep the count.
pub data Change {ℓ} (A : Type ℓ) : Type ℓ where
  appends prepends removes : (item : A) → Change A
  pops : Change A

module _ {ℓ} {A : Type ℓ} (same : A → A → Bool) where
  abbrev pub change : A → LinkedList A → Change A → LinkedList A
  change default l (appends item) = append l item
  change default l (prepends item) = prepend l item
  change default l (removes item) = remove same l item
  change default l pops = (pop default l).1

  length-remove_node :
      (item : A) (nodes : List (ListElement A))
      → length nodes ≡ (
          if (remove_node same item nodes).1
          then suc (length (remove_node same item nodes).0)
          else length (remove_node same item nodes).0)
  unfolding remove_node
  length-remove_node item [] = refl
  length-remove_node item (e ∷ es) = ground (arith, length-remove_node item es)

  -- `Append`, `Prepend`, `Pop` and `Remove` keep the size at the number of nodes.
  pub change-IsCounted :
      (default : A) (l : LinkedList A) (c : Change A) → IsCounted l → IsCounted (change default l c)
  unfolding append prepend remove pop sorted_pop
  change-IsCounted default l (appends item) h =
      ground (arith, length-append l.nodes (node item (pos 0) ∷ []), h, add_one (length l.nodes))
  change-IsCounted default l (prepends item) h = ground (arith, h, add_one (length l.nodes))
  change-IsCounted default l (removes item) h = ground (
    arith,
    length-remove_node item l.nodes,
    h,
    sub_one (length (remove_node same item l.nodes).0),
  )
  change-IsCounted default l pops h = go l.nodes l.size h
    where
      go :
          (nodes : List (ListElement A)) (size : ℤ)
          → size ≡ pos (length nodes)
          → IsCounted (pop_nodes default size nodes).2
      go [] size h = h
      go (e ∷ es) size h = simp (h) (sub_one (length es))
