-- ===== src/Synchronization/Examples.antt =====
-- Examples of threads and a lock.
use so_ii.Base.{ℕ, ◌≡◌, ◌≢◌, refl, true, ◌⊎◌, some, [], ok, fault, out_of_bounds}
use so_ii.Base.Int.{pos, negsuc}
use so_ii.LinkedList.{append}
use so_ii.Threads.{Scheduler, running, ready_to_run}
use so_ii.Synchronization.{Lock, new_semaphore, before_p, before_v}
use so_ii.Synchronization.Steps.{
  System, trying, acquire, sleep, take, set_locker, Reach, start, next,
}
use so_ii.Synchronization.Invariant.{is_inside}
use so_ii.Synchronization.Exclusion.{mutual_exclusion, no_lost_wake}
use so_ii.Synchronization.Priority.{before_v_loses_priority}

abbrev scheduler : Scheduler
scheduler = record {
  ready_lists = [];
  threads = λ t. record { status = running; priority = pos 0; priority_temp = negsuc 0 };
}

-- Thread 0 holds the lock, and thread 1 sleeps.
contended : (s : System) × Reach scheduler s
unfolding before_p append
contended = (
  _,
  next
      (next (next (next (next start (acquire 0 refl refl)) (take 0 refl refl)) (set_locker 0 refl))
        (acquire 1 refl refl))
      (sleep 1 refl refl),
)

mutual_exclusion_example : ◌≡◌ {A = ℕ} 0 0
unfolding contended
mutual_exclusion_example = mutual_exclusion contended.1 0 0 refl refl

no_lost_wake_example :
    (u : ℕ) × ((is_inside (contended.0.place u) ≡ true)
      ⊎ ((contended.0.place u ≡ trying) × (contended.0.lock.semaphore.value ≢ 0)))
unfolding contended
no_lost_wake_example = no_lost_wake contended.1 1 refl

-- Thread 3 holds a lock and runs with the priority 4 of another thread; its own is 1.
abbrev boosted : Scheduler
boosted = record {
  ready_lists = [];
  threads = λ t. record { status = running; priority = pos 4; priority_temp = pos 1 };
}

abbrev held_by_3 : Lock
held_by_3 = record { semaphore = new_semaphore 0; locker = some 3 }

before_v_loses_priority_example :
    (scheduler' : Scheduler) × (l' : Lock) × (before_v boosted held_by_3 3 ≡ ok (scheduler', l'))
    × ((scheduler'.threads 3).priority ≡ negsuc 0)
    × (ready_to_run scheduler' 3 ≡ fault out_of_bounds)
before_v_loses_priority_example = before_v_loses_priority boosted held_by_3 3 refl refl
