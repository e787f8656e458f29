-- ===== src/Synchronization/Invariant.antt =====
-- What holds of a lock and of the places of the threads in every reachable state.
use so_ii.Base.{
  ℕ, ◌+◌, ◌-◌, ◌≤◌, ◌==◌, ◌≡◌, ◌≢◌, refl, sym, ap, ◌∙◌, Bool, true, false, inl, inr, ◌⊎◌, Option,
  none, some, List, [], ◌∷◌, ◌++◌, ==_refl, to_nat, arith,
}
use so_ii.Base.Int.{pos}
use so_ii.LinkedList.{ListElement, node}
use so_ii.Synchronization.{is_thread}
use so_ii.Synchronization.Steps.{Place, outside, trying, sleeping, taken, holding, leaving, move}

-- Past `P` in `Acquire` and not yet through `V` in `Release`.
abbrev pub is_inside : Place → Bool
is_inside taken = true
is_inside holding = true
is_inside leaving = true
is_inside _ = false

abbrev pub is_asleep : Place → Bool
is_asleep sleeping = true
is_asleep _ = false

abbrev pub is_holding : Place → Bool
is_holding holding = true
is_holding _ = false

abbrev pub is_trying : Place → Bool
is_trying trying = true
is_trying _ = false

abbrev pub occurrences : ℕ → List (ListElement ℕ) → ℕ
occurrences t [] = 0
occurrences t (e ∷ es) = to_nat (t == e.item) + occurrences t es

pub record Inv (value : ℕ) (queue : List (ListElement ℕ)) (locker : Option ℕ) (place : ℕ → Place)
    : Type 0 where
  pub few : value ≤ 1
  pub closed : (t : ℕ) → is_inside (place t) ≡ true → value ≡ 0
  pub unique : (t u : ℕ) → is_inside (place t) ≡ true → is_inside (place u) ≡ true → t ≡ u
  pub owned : value ≡ 0 → (t : ℕ) × (is_inside (place t) ≡ true)
  pub holder : (t : ℕ) → is_thread locker t ≡ is_holding (place t)
  pub queued : (t : ℕ) → occurrences t queue ≡ to_nat (is_asleep (place t))
  pub awake : (value ≡ 0) ⊎ ((queue ≡ []) ⊎ ((t : ℕ) × (is_trying (place t) ≡ true)))

occurrences-append :
    (u t : ℕ) (es : List (ListElement ℕ))
    → occurrences u (es ++ node t (pos 0) ∷ []) ≡ occurrences u es + to_nat (u == t)
occurrences-append u t [] = omega arith
occurrences-append u t (e ∷ es) = omega (arith, occurrences-append u t es)

module _ (value : ℕ) (queue : List (ListElement ℕ)) (locker : Option ℕ) (place : ℕ → Place)
    (inv : Inv value queue locker place) (t : ℕ) where
  pub after_acquire : place t ≡ outside → Inv value queue locker (move place t trying)
  after_acquire e = record {
    few = inv.few;
    closed = λ u. ground (arith, inv.closed u);
    unique = λ u w. ground (arith, inv.unique u w);
    owned = λ h. let (u, i) = inv.owned h in (u, ground arith);
    holder = λ u. ground (arith, inv.holder u);
    queued = λ u. ground (arith, inv.queued u);
    awake = inr (inr (t, ground arith));
  }

  pub after_sleep :
      place t ≡ trying
      → value ≡ 0
      → Inv value (queue ++ node t (pos 0) ∷ []) locker (move place t sleeping)
  after_sleep e none_left = record {
    few = inv.few;
    closed = λ u. ground (arith, inv.closed u);
    unique = λ u w. ground (arith, inv.unique u w);
    owned = λ h. let (u, i) = inv.owned h in (u, ground arith);
    holder = λ u. ground (arith, inv.holder u);
    queued = λ u. ground (arith, inv.queued u, occurrences-append u t queue);
    awake = inl none_left;
  }

  pub after_take : place t ≡ trying → value ≢ 0 → Inv (value - 1) queue locker (move place t taken)
  after_take e left = record {
    few = omega (arith, inv.few);
    closed = λ u h. omega (arith, inv.few);
    unique = λ u w h k. alone u h ∙ sym (alone w k);
    owned = λ h. (t, ground arith);
    holder = λ u. ground (arith, inv.holder u);
    queued = λ u. ground (arith, inv.queued u);
    awake = inl (omega (arith, inv.few));
  }
    where
      alone : (u : ℕ) → is_inside (move place t taken u) ≡ true → u ≡ t
      alone u h = ground (arith, inv.closed u)

  pub after_set : place t ≡ taken → Inv value queue (some t) (move place t holding)
  after_set e = record {
    few = inv.few;
    closed = λ u. ground (arith, inv.closed u);
    unique = λ u w. ground (arith, inv.unique u w);
    owned = λ h. (t, ground arith);
    holder = λ u. ground (arith, inv.unique u t);
    queued = λ u. ground (arith, inv.queued u);
    awake = inl (inv.closed t (ground arith));
  }

  pub after_release : place t ≡ holding → Inv value queue none (move place t leaving)
  after_release e = record {
    few = inv.few;
    closed = λ u. ground (arith, inv.closed u);
    unique = λ u w. ground (arith, inv.unique u w);
    owned = λ h. (t, ground arith);
    holder = λ u. ground (arith, inv.unique u t);
    queued = λ u. ground (arith, inv.queued u);
    awake = inl (inv.closed t (ground arith));
  }

  -- Nobody else is inside while `t` is about to call `V`, and nobody is inside after it.
  left_alone : place t ≡ leaving → (u : ℕ) → is_inside (place u) ≡ true → u ≡ t
  left_alone e u h = inv.unique u t h (ground arith)

  was_closed : place t ≡ leaving → value ≡ 0
  was_closed e = inv.closed t (ground arith)

  pub after_signal :
      place t ≡ leaving → queue ≡ [] → Inv (value + 1) [] locker (move place t outside)
  after_signal e empty = record {
    few = omega (arith, was_closed e);
    closed = λ u. ground (arith, left_alone e u);
    unique = λ u w. ground (arith, left_alone e u);
    owned = λ h. absurd (omega arith);
    holder = λ u. ground (arith, inv.holder u);
    queued = λ u. ground (arith, counts u);
    awake = inr (inl refl);
  }
    where
      counts : (u : ℕ) → 0 ≡ to_nat (is_asleep (place u))
      counts u = sym (ap (occurrences u) empty) ∙ inv.queued u

  pub after_wake :
      (first : ListElement ℕ) (rest : List (ListElement ℕ))
      → place t ≡ leaving
      → queue ≡ first ∷ rest
      → Inv (value + 1) rest locker (move (move place first.item trying) t outside)
  after_wake first rest e split = record {
    few = omega (arith, was_closed e);
    closed = λ u. ground (arith, left_alone e u, asleep);
    unique = λ u w. ground (arith, left_alone e u, asleep);
    owned = λ h. absurd (omega arith);
    holder = λ u. ground (arith, inv.holder u, asleep);
    queued = λ u. ground (arith, counts u, asleep);
    awake = inr (inr (first.item, ground (arith, asleep)));
  }
    where
      counts :
          (u : ℕ) → to_nat (u == first.item) + occurrences u rest ≡ to_nat (is_asleep (place u))
      counts u = sym (ap (occurrences u) split) ∙ inv.queued u

      asleep : is_asleep (place first.item) ≡ true
      asleep = ground (arith, counts first.item, ==_refl first.item)
