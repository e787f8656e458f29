-- ===== src/Threads/Scheduling.antt =====
-- Which thread runs next, and which priorities a ready thread may have.
use mathlib.Core.Path.{subst}
use so_ii.Base.{
  ℕ, zero, suc, ◌≤◌, ◌<◌, ◌≡◌, refl, Option, none, some, List, [], ◌∷◌, ◌⊎◌, inl, inr, length, set,
  get_or, Bool-cases, ltb, Run, ok, read_at, read_at-get_or, write_at-set, arith,
}
use so_ii.Base.Int.{ℤ, pos, ◌-ℤ◌}
use so_ii.LinkedList
use so_ii.LinkedList.{LinkedList, ListElement, is_empty, pop, sorted_pop, append}
use so_ii.Threads.{Scheduler, priority_size, find_next_below, find_next_to_run}

-- The threads of a priority, in order.
abbrev pub queue : Scheduler → ℕ → List (ListElement ℕ)
queue s p = (get_or s.ready_lists p LinkedList.empty).nodes

-- What `FindNextToRun` takes: the first thread of the highest priority that has one.
pub record Takes (s : Scheduler) (bound : ℕ) (r : Run (Option ℕ × Scheduler)) : Type 0 where
  pub priority : ℕ
  pub first : ListElement ℕ
  pub others : List (ListElement ℕ)
  pub in_range : priority < bound
  pub highest : (q : ℕ) → priority < q → q < bound → queue s q ≡ []
  pub here : queue s priority ≡ first ∷ others
  pub after : LinkedList ℕ
  pub left : after.nodes ≡ others
  pub returns :
      r ≡ ok (some first.item, record s { ready_lists = set s.ready_lists priority after })

step_empty :
    (i : ℕ) (s : Scheduler) (size : ℤ)
    → read_at s.ready_lists i ≡ ok (record { nodes = []; size = size })
    → find_next_below (suc i) s ≡ find_next_below i s
unfolding find_next_below is_empty
step_empty i s size h = rw h refl

step_found :
    (i : ℕ) (s : Scheduler) (e : ListElement ℕ) (es : List (ListElement ℕ)) (size : ℤ)
    → i < length s.ready_lists
    → read_at s.ready_lists i ≡ ok (record { nodes = e ∷ es; size = size })
    → find_next_below (suc i) s
      ≡ ok (
        some e.item,
        record s {
          ready_lists = set s.ready_lists i (record { nodes = es; size = size -ℤ pos 1 });
        },
      )
unfolding find_next_below is_empty pop sorted_pop
step_found i s e es size lt h =
    rw (h, write_at-set s.ready_lists i (record { nodes = es; size = size -ℤ pos 1 }) lt) refl

rest_none : (s : Scheduler) → find_next_below zero s ≡ ok (none, s)
unfolding find_next_below
rest_none s = refl

Outcome : Scheduler → ℕ → Run (Option ℕ × Scheduler) → Type 0
Outcome s i r = ((r ≡ ok (none, s)) × ((q : ℕ) → q < i → queue s q ≡ [])) ⊎ Takes s i r

find_next_below-Takes :
    (i : ℕ) (s : Scheduler) → i ≤ length s.ready_lists → Outcome s i (find_next_below i s)
unfolding Outcome
find_next_below-Takes zero s h = inl (rest_none s, λ q p. absurd (omega arith))
find_next_below-Takes (suc i) s h =
    go (get_or s.ready_lists i LinkedList.empty).nodes
      (get_or s.ready_lists i LinkedList.empty).size refl
      (read_at-get_or s.ready_lists i LinkedList.empty (omega arith))
      (find_next_below-Takes i s (omega arith))
  where
    go :
        (nodes : List (ListElement ℕ)) (size : ℤ)
        → queue s i ≡ nodes
        → read_at s.ready_lists i ≡ ok (record { nodes = nodes; size = size })
        → Outcome s i (find_next_below i s)
        → Outcome s (suc i) (find_next_below (suc i) s)
    go [] size e current lower = rw (step_empty i s size current) (elim lower [
      | inl (returns, none_below) ↦ inl (
        returns,
        λ q p. elim (Bool-cases (ltb q i)) [
          | inl below ↦ none_below q (ground arith)
          | inr last ↦ subst (λ p. queue s p ≡ []) (ground arith) e
        ],
      )
      | inr t ↦ inr (record {
        priority = t.priority;
        first = t.first;
        others = t.others;
        in_range = omega (arith, t.in_range);
        highest = λ q p lt. elim (Bool-cases (ltb q i)) [
          | inl below ↦ t.highest q p (ground arith)
          | inr last ↦ subst (λ p. queue s p ≡ []) (ground arith) e
        ];
        here = t.here;
        after = t.after;
        left = t.left;
        returns = t.returns;
      })
    ])
    go (f ∷ es) size e current lower = inr (record {
      priority = i;
      first = f;
      others = es;
      in_range = omega arith;
      highest = λ q p lt. absurd (omega arith);
      here = e;
      after = record { nodes = es; size = size -ℤ pos 1 };
      left = refl;
      returns = step_found i s f es size (omega arith) current;
    })

-- With a ready list for each priority, `FindNextToRun` returns null and changes nothing if no
-- thread is ready; otherwise it removes and returns the first thread of the highest priority that
-- has one, and leaves the other threads in their order.
pub find_next_to_run-Takes :
    (s : Scheduler)
    → length s.ready_lists ≡ priority_size
    → ((find_next_to_run s ≡ ok (none, s)) × ((q : ℕ) → q < priority_size → queue s q ≡ []))
      ⊎ Takes s priority_size (find_next_to_run s)
unfolding find_next_to_run Outcome
find_next_to_run-Takes s h = find_next_below-Takes priority_size s (omega (arith, h))
