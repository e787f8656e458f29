-- ===== src/Synchronization/Steps.antt =====
-- Threads that acquire and release one lock, in any order of their steps.
use so_ii.Base.{ℕ, ◌==◌, ◌≡◌, true, false, some, if◌then◌else◌, ok}
use so_ii.LinkedList.{is_empty, pop}
use so_ii.Threads.{Scheduler}
use so_ii.Synchronization.{Semaphore, Lock, new_lock, try_p, v, before_p, before_v}

-- Where a thread is: outside of the lock's procedures and without the lock; in the loop of `P`; asleep
-- in it; after `P` in `Acquire`; with the lock; before `V` in `Release`.
pub data Place : Type 0 where
  outside trying sleeping taken holding leaving : Place

pub record System : Type 0 where
  pub scheduler : Scheduler
  pub lock : Lock
  pub place : ℕ → Place

abbrev pub move : (ℕ → Place) → ℕ → Place → ℕ → Place
move place t p u = if u == t then p else place u

-- The thread that `V` wakes goes on in the loop of `P`.
abbrev pub wake : Semaphore → (ℕ → Place) → ℕ → Place
wake s place = if is_empty s.queue then place else move place (pop 0 s.queue).0 trying

-- The step of a thread; which thread is running is left open.
pub data Step (s : System) : System → Type 0 where
  acquire :
      (t : ℕ) {scheduler : Scheduler}
      → s.place t ≡ outside
      → before_p s.scheduler s.lock t ≡ ok scheduler
      → Step s (record s { scheduler = scheduler; place = move s.place t trying })
  sleep :
      (t : ℕ) {semaphore : Semaphore}
      → s.place t ≡ trying
      → try_p s.lock.semaphore t ≡ (false, semaphore)
      → Step s (record s {
        lock = record s.lock { semaphore = semaphore };
        place = move s.place t sleeping;
      })
  take :
      (t : ℕ) {semaphore : Semaphore}
      → s.place t ≡ trying
      → try_p s.lock.semaphore t ≡ (true, semaphore)
      → Step s (record s {
        lock = record s.lock { semaphore = semaphore };
        place = move s.place t taken;
      })
  set_locker :
      (t : ℕ)
      → s.place t ≡ taken
      → Step s
          (record s { lock = record s.lock { locker = some t }; place = move s.place t holding })
  release :
      (t : ℕ) {scheduler : Scheduler} {l : Lock}
      → s.place t ≡ holding
      → before_v s.scheduler s.lock t ≡ ok (scheduler, l)
      → Step s (record { scheduler = scheduler; lock = l; place = move s.place t leaving })
  signal :
      (t : ℕ) {scheduler : Scheduler} {semaphore : Semaphore}
      → s.place t ≡ leaving
      → v s.scheduler s.lock.semaphore ≡ ok (scheduler, semaphore)
      → Step s (record {
        scheduler = scheduler;
        lock = record s.lock { semaphore = semaphore };
        place = move (wake s.lock.semaphore s.place) t outside;
      })

-- The states that threads reach from a new lock.
pub data Reach (scheduler : Scheduler) : System → Type 0 where
  start : Reach scheduler (record { scheduler = scheduler; lock = new_lock; place = λ t. outside })
  next : {s s' : System} → Reach scheduler s → Step s s' → Reach scheduler s'
