-- ===== src/LinkedList/Sorted.antt =====
-- Where `SortedInsert` puts an item.
use so_ii.Base.{◌≡◌, refl, ap, true, false, List, [], ◌∷◌, ◌++◌, All, Bool-cases, inl, inr, arith}
use so_ii.Base.Int.{ℤ, ltb_ℤ, ◌≤ℤ◌}
use so_ii.LinkedList.{ListElement, LinkedList, node, insert_after, insert_nodes, sorted_insert}

module _ {ℓ} {A : Type ℓ} where
  -- Keys in increasing order.
  abbrev pub IsSorted : List (ListElement A) → Type 0
  IsSorted [] = Unit {0}
  IsSorted (e ∷ es) = All (λ f. e.key ≤ℤ f.key) es × IsSorted es

  abbrev pub Above : ℤ → List (ListElement A) → Type 0
  Above k = All (λ (e : ListElement A). ltb_ℤ k e.key ≡ true)

  abbrev pub UpTo : ℤ → List (ListElement A) → Type 0
  UpTo k = All (λ (e : ListElement A). e.key ≤ℤ k)

  -- `new` stands in `result` behind all nodes of `nodes` whose keys are not larger, and before all
  -- others; nothing else has changed.
  pub record InsertsAt (new : ListElement A) (nodes result : List (ListElement A)) : Type ℓ where
    pub front : List (ListElement A)
    pub back : List (ListElement A)
    pub before : nodes ≡ front ++ back
    pub after : result ≡ front ++ new ∷ back
    pub not_larger : UpTo new.key front
    pub larger : Above new.key back

  All-Above :
      (k : ℤ) (e : ListElement A) (es : List (ListElement A))
      → ltb_ℤ k e.key ≡ true
      → All (λ f. e.key ≤ℤ f.key) es
      → Above k es
  All-Above k e [] h s = tt
  All-Above k e (f ∷ es) h s = (ground arith, All-Above k e es h s.1)

  insert_after-InsertsAt :
      (new e : ListElement A) (es : List (ListElement A))
      → ltb_ℤ new.key e.key ≡ false
      → IsSorted (e ∷ es)
      → InsertsAt new (e ∷ es) (insert_after new e es).0
  unfolding insert_after
  insert_after-InsertsAt new e [] h s = record {
    front = e ∷ [];
    back = [];
    before = refl;
    after = refl;
    not_larger = (ground arith, tt);
    larger = tt;
  }
  insert_after-InsertsAt new e (f ∷ es) h s = elim (Bool-cases (ltb_ℤ new.key f.key)) [
    | inl less ↦ rw less (record {
      front = e ∷ [];
      back = f ∷ es;
      before = refl;
      after = refl;
      not_larger = (ground arith, tt);
      larger = (less, All-Above new.key f es less s.1.0);
    })
    | inr more ↦
        let r = insert_after-InsertsAt new f es more s.1 in
        rw more (record {
          front = e ∷ r.front;
          back = r.back;
          before = ap (◌∷◌ e) r.before;
          after = ap (◌∷◌ e) r.after;
          not_larger = (ground arith, r.not_larger);
          larger = r.larger;
        })
  ]

  -- `SortedInsert` into a sorted list puts the item behind all whose keys are not larger and before
  -- the others, so that items of one key stay in the order in which they came.
  pub sorted_insert-InsertsAt :
      (l : LinkedList A) (item : A) (k : ℤ)
      → IsSorted l.nodes
      → InsertsAt (node item k) l.nodes (sorted_insert l item k).nodes
  unfolding sorted_insert
  sorted_insert-InsertsAt l item k s = go l.nodes s
    where
      go :
          (nodes : List (ListElement A))
          → IsSorted nodes
          → InsertsAt (node item k) nodes (insert_nodes (node item k) l.size nodes).nodes
      go [] s = record {
        front = [];
        back = [];
        before = refl;
        after = refl;
        not_larger = tt;
        larger = tt;
      }
      go (e ∷ es) s = elim (Bool-cases (ltb_ℤ k e.key)) [
        | inl less ↦ rw less (record {
          front = [];
          back = e ∷ es;
          before = refl;
          after = refl;
          not_larger = tt;
          larger = (less, All-Above k e es less s.0);
        })
        | inr more ↦ rw more (insert_after-InsertsAt (node item k) e es more s)
      ]
