-- ===== src/LinkedList.antt =====
-- lib/list.hh: `List<Item>`, a singly linked list with its size. A list is the sequence of its nodes
-- from `first` to `last`; both pointers and the `next` of each node are given by the sequence. The
-- destructor and `Apply` are not modelled.
pub mod Sorted
pub mod Size
mod Examples
use so_ii.Base.{
  ℕ, Bool, true, false, not, Option, none, some, List, [], ◌∷◌, ◌++◌, if◌then◌else◌, Run, ok, ◌>>=◌,
  ◌>>◌, assert,
}
use so_ii.Base.Int.{ℤ, pos, negsuc, ◌+ℤ◌, ◌-ℤ◌, ltb_ℤ}

pub record ListElement {ℓ} (A : Type ℓ) : Type ℓ where
  pub key : ℤ
  pub item : A

pub record LinkedList {ℓ} (A : Type ℓ) : Type ℓ where
  pub nodes : List (ListElement A)
  pub size : ℤ

module _ {ℓ} {A : Type ℓ} where
  abbrev pub empty : LinkedList A
  empty = record { nodes = []; size = pos 0 }

  abbrev pub node : A → ℤ → ListElement A
  node item sort_key = record { key = sort_key; item = item }

  abbrev pub is_nil : List (ListElement A) → Bool
  is_nil [] = true
  is_nil (e ∷ es) = false

  unfoldable pub is_empty : LinkedList A → Bool
  is_empty l = is_nil l.nodes

  unfoldable pub append : LinkedList A → A → LinkedList A
  append l item = record { nodes = l.nodes ++ node item (pos 0) ∷ []; size = l.size +ℤ pos 1 }

  unfoldable pub prepend : LinkedList A → A → LinkedList A
  prepend l item = record { nodes = node item (pos 0) ∷ l.nodes; size = l.size +ℤ pos 1 }

  first_item : List (ListElement A) → A → A
  first_item [] default = default
  first_item (e ∷ es) default = e.item

  -- The assertion makes `default` unused.
  pub head : A → LinkedList A → Run A
  unfolding first_item is_empty
  head default l = do assert (not (is_empty l)); ok (first_item l.nodes default)

  abbrev pub pop_nodes : A → ℤ → List (ListElement A) → A × Option ℤ × LinkedList A
  pop_nodes default size [] = (default, none, record { nodes = []; size = size })
  pop_nodes default size (e ∷ es) =
      (e.item, some e.key, record { nodes = es; size = size -ℤ pos 1 })

  -- `default` is `Item()`. The second result is what is written to `*keyPtr`, if anything is.
  unfoldable pub sorted_pop : A → LinkedList A → A × Option ℤ × LinkedList A
  sorted_pop default l = pop_nodes default l.size l.nodes

  unfoldable pub pop : A → LinkedList A → A × LinkedList A
  unfolding sorted_pop
  pop default l = let (item, _, l') = sorted_pop default l in (item, l')

  -- The loop of `SortedInsert` from the node `e` on: the nodes, and whether it returned early.
  unfoldable pub insert_after :
      ListElement A → ListElement A → List (ListElement A) → List (ListElement A) × Bool
  insert_after element e [] = (e ∷ element ∷ [], false)
  insert_after element e (f ∷ es) =
      let rest = insert_after element f es in
      if ltb_ℤ element.key f.key then (e ∷ element ∷ f ∷ es, true) else (e ∷ rest.0, rest.1)

  abbrev pub insert_nodes : ListElement A → ℤ → List (ListElement A) → LinkedList A
  insert_nodes element size [] = record { nodes = element ∷ []; size = size +ℤ pos 1 }
  insert_nodes element size (e ∷ es) =
      if ltb_ℤ element.key e.key
      then record { nodes = element ∷ e ∷ es; size = size +ℤ pos 1 }
      else let (nodes, returned) = insert_after element e es in
        record { nodes = nodes; size = if returned then size else size +ℤ pos 1 }

  unfoldable pub sorted_insert : LinkedList A → A → ℤ → LinkedList A
  unfolding insert_after
  sorted_insert l item sort_key = insert_nodes (node item sort_key) l.size l.nodes

  pub get_size : LinkedList A → ℤ
  get_size l = l.size

-- `same` is the `==` of the items.
module _ {ℓ} {A : Type ℓ} (same : A → A → Bool) where
  unfoldable pub has_node : A → List (ListElement A) → Bool
  has_node item [] = false
  has_node item (e ∷ es) = if same item e.item then true else has_node item es

  unfoldable pub has : LinkedList A → A → Bool
  unfolding has_node
  has l item = has_node item l.nodes

  -- The loop of `Remove`.
  unfoldable pub remove_node : A → List (ListElement A) → List (ListElement A) × Bool
  remove_node item [] = ([], false)
  remove_node item (e ∷ es) =
      let rest = remove_node item es in
      if same item e.item then (es, true) else (e ∷ rest.0, rest.1)

  unfoldable pub remove : LinkedList A → A → LinkedList A
  unfolding remove_node
  remove l item =
      let (nodes, is_removed) = remove_node item l.nodes in
      record { nodes = nodes; size = if is_removed then l.size -ℤ pos 1 else l.size }
