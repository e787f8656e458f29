-- ===== src/Synchronization/Exclusion.antt =====
-- The threads of threads/lock.cc that hold a lock and that wait for it.
use so_ii.Base.{
  ℕ, ◌+◌, ◌-◌, ◌==◌, ◌≡◌, ◌≢◌, refl, sym, ap, ◌∙◌, true, false, Bool-cases, inl, inr, ◌⊎◌, none,
  List, [], ◌∷◌, Run, ok, fault, ◌>>=◌, to_nat, arith,
}
use so_ii.LinkedList.{ListElement, append, is_empty, pop, sorted_pop}
use so_ii.Threads.{Scheduler, ready_to_run}
use so_ii.Synchronization.{Semaphore, Lock, new_lock, is_held_by, try_p, v, before_v}
use so_ii.Synchronization.Steps.{
  System, Place, outside, trying, sleeping, leaving, move, wake, Step, acquire, sleep, take,
  set_locker, release, signal, Reach, start, next,
}
use so_ii.Synchronization.Invariant.{
  Inv, is_inside, is_asleep, is_trying, is_holding, occurrences, after_acquire, after_sleep,
  after_take, after_set, after_release, after_signal, after_wake,
}

abbrev Holds : System → Type 0
Holds s = Inv s.lock.semaphore.value s.lock.semaphore.queue.nodes s.lock.locker s.place

try_p_sleeps :
    (s s' : Semaphore) (t : ℕ)
    → try_p s t ≡ (false, s')
    → (s.value ≡ 0) × (s' ≡ record s { queue = append s.queue t })
try_p_sleeps s s' t e = elim (Bool-cases (s.value == 0)) [
  | inl nothing ↦ (ground arith, sym (ap (λ p. p.1) (rw nothing at e)))
  | inr left ↦ absurd (ground arith)
]

try_p_takes :
    (s s' : Semaphore) (t : ℕ)
    → try_p s t ≡ (true, s')
    → (s.value ≢ 0) × (s' ≡ record s { value = s.value - 1 })
try_p_takes s s' t e = elim (Bool-cases (s.value == 0)) [
  | inl nothing ↦ absurd (ground arith)
  | inr left ↦ (ground arith, sym (ap (λ p. p.1) (rw left at e)))
]

abbrev after_v : Semaphore → Semaphore
after_v s = record { value = s.value + 1; queue = (pop 0 s.queue).1 }

abbrev result_of : Semaphore → Run (Scheduler × Semaphore) → Semaphore
result_of d (ok (scheduler, s)) = s
result_of d (fault e) = d

v_leaves :
    (scheduler scheduler' : Scheduler) (s s' : Semaphore)
    → v scheduler s ≡ ok (scheduler', s')
    → s' ≡ after_v s
unfolding v
v_leaves scheduler scheduler' s s' e = elim (Bool-cases (is_empty s.queue)) [
  | inl empty ↦ sym (ap (result_of s') (rw empty at e))
  | inr left ↦ through (ready_to_run scheduler (pop 0 s.queue).0) (rw left at e)
]
  where
    through :
        (r : Run Scheduler)
        → ◌≡◌ {A = Run (Scheduler × Semaphore)}
            (r >>= λ after. ok (after, after_v s))
            (ok (scheduler', s'))
        → s' ≡ after_v s
    through (ok after) e = sym (ap (result_of s') e)
    through (fault x) e = absurd (ground arith)

abbrev lock_of : Lock → Run (Scheduler × Lock) → Lock
lock_of d (ok (scheduler, l)) = l
lock_of d (fault e) = d

before_v_frees :
    (scheduler scheduler' : Scheduler) (l l' : Lock) (t : ℕ)
    → before_v scheduler l t ≡ ok (scheduler', l')
    → l' ≡ record l { locker = none }
unfolding before_v
before_v_frees scheduler scheduler' l l' t e = elim (Bool-cases (is_held_by l t)) [
  | inl held ↦ sym (ap (lock_of l') (rw held at e))
  | inr other ↦ absurd (ground arith)
]

waken :
    (s : System) (t : ℕ) (inv : Holds s)
    → s.place t ≡ leaving
    → (nodes : List (ListElement ℕ)) → s.lock.semaphore.queue.nodes ≡ nodes
    → Inv
        (s.lock.semaphore.value + 1)
        (pop 0 s.lock.semaphore.queue).1.nodes
        s.lock.locker
        (move (wake s.lock.semaphore s.place) t outside)
unfolding pop sorted_pop is_empty
waken s t inv e [] split = rw split (after_signal _ _ _ _ inv t e split)
waken s t inv e (first ∷ rest) split = rw split (after_wake _ _ _ _ inv t first rest e split)

step-Holds : {s s' : System} → Holds s → Step s s' → Holds s'
unfolding append
step-Holds inv (acquire t e run) = after_acquire _ _ _ _ inv t e
step-Holds {s} inv (sleep t {semaphore} e run) =
    let (nothing, same) = try_p_sleeps s.lock.semaphore semaphore t run in
    rw same (after_sleep _ _ _ _ inv t e nothing)
step-Holds {s} inv (take t {semaphore} e run) =
    let (left, same) = try_p_takes s.lock.semaphore semaphore t run in
    rw same (after_take _ _ _ _ inv t e left)
step-Holds inv (set_locker t e) = after_set _ _ _ _ inv t e
step-Holds {s} inv (release t {scheduler} {l} e run) =
    rw (before_v_frees s.scheduler scheduler s.lock l t run) (after_release _ _ _ _ inv t e)
step-Holds {s} inv (signal t {scheduler} {semaphore} e run) =
    rw (v_leaves s.scheduler scheduler s.lock.semaphore semaphore run)
      (waken s t inv e s.lock.semaphore.queue.nodes refl)

new_lock-Holds :
    (scheduler : Scheduler)
    → Holds (record { scheduler = scheduler; lock = new_lock; place = λ t. outside })
new_lock-Holds scheduler = record {
  few = omega arith;
  closed = λ t h. absurd (ground arith);
  unique = λ t u h. absurd (ground arith);
  owned = λ h. absurd (ground arith);
  holder = λ t. refl;
  queued = λ t. refl;
  awake = inr (inl refl);
}

pub reach-Holds : {scheduler : Scheduler} {s : System} → Reach scheduler s → Holds s
reach-Holds {scheduler} start = new_lock-Holds scheduler
reach-Holds (next r step) = step-Holds (reach-Holds r) step

-- In every state that threads reach from a new lock, by steps of `Acquire` and `Release` in any order,
-- at most one thread is between the end of `P` and the call of `V`.
pub mutual_exclusion :
    {scheduler : Scheduler} {s : System}
    → Reach scheduler s
    → (t u : ℕ) → is_inside (s.place t) ≡ true
    → is_inside (s.place u) ≡ true
    → t ≡ u
mutual_exclusion r t u = (reach-Holds r).unique t u

-- In every reachable state, if a thread sleeps in `Acquire`, then some thread is past `P` and has not
-- called `V`, or the lock is free and some thread that is awake is about to try for it: no wake-up is
-- lost.
pub no_lost_wake :
    {scheduler : Scheduler} {s : System}
    → Reach scheduler s
    → (t : ℕ) → s.place t ≡ sleeping
    → (u : ℕ) × ((is_inside (s.place u) ≡ true)
        ⊎ ((s.place u ≡ trying) × (s.lock.semaphore.value ≢ 0)))
no_lost_wake {s} r t asleep = elim (Bool-cases (s.lock.semaphore.value == 0)) [
  | inl nothing ↦ let (u, h) = inv.owned (ground arith) in (u, inl h)
  | inr left ↦ waiting (ground arith) inv.awake
]
  where
    inv : Holds s
    inv = reach-Holds r

    counted : s.lock.semaphore.queue.nodes ≡ [] → 0 ≡ to_nat (is_asleep (s.place t))
    counted empty = sym (ap (occurrences t) empty) ∙ inv.queued t

    is_trying-trying : (p : Place) → is_trying p ≡ true → p ≡ trying
    is_trying-trying p h = ground arith

    waiting :
        s.lock.semaphore.value ≢ 0
        → (s.lock.semaphore.value ≡ 0)
          ⊎ ((s.lock.semaphore.queue.nodes ≡ []) ⊎ ((u : ℕ) × (is_trying (s.place u) ≡ true)))
        → (u : ℕ) × ((is_inside (s.place u) ≡ true)
            ⊎ ((s.place u ≡ trying) × (s.lock.semaphore.value ≢ 0)))
    waiting left (inl h) = absurd (left h)
    waiting left (inr (inl empty)) = absurd (ground (arith, counted empty))
    waiting left (inr (inr (u, h))) = (u, inr (is_trying-trying (s.place u) h, left))

-- In every reachable state, the assertion of `Release` holds for the thread with the lock, and that of
-- `Acquire` for every thread that has not got it; `lockerThread` is the thread with the lock.
pub is_held_by_lem :
    {scheduler : Scheduler} {s : System}
    → Reach scheduler s
    → (t : ℕ) → is_held_by s.lock t ≡ is_holding (s.place t)
is_held_by_lem r t = (reach-Holds r).holder t
