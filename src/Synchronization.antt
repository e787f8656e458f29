-- ===== src/Synchronization.antt =====
-- threads/semaphore.cc and threads/lock.cc. A thread is named by a number. `P`, `V` and the parts of
-- `Acquire` and `Release` around them are functions of the state that they change; interrupts are off
-- within `P` and `V`, so that a round of `P` and the whole of `V` are single steps.
pub mod Priority
pub mod Steps
pub mod Invariant
pub mod Exclusion
mod Examples
use so_ii.Base.{
  ℕ, ◌+◌, ◌-◌, ◌==◌, Bool, true, false, not, Option, none, some, if◌then◌else◌, Run, ok, ◌>>=◌,
  ◌>>◌, assert,
}
use so_ii.Base.Int.{ℤ, pos, negsuc, ltb_ℤ}
use so_ii.LinkedList
use so_ii.LinkedList.{LinkedList, append, is_empty, pop}
use so_ii.Threads.{
  Thread, Scheduler, set_priority, set_priority_temp, is_unset, with_thread, is_ready,
  remove_from_priority_list, add_to_priority_list, ready_to_run,
}

-- The threads in the queue are the ones that sleep.
pub record Semaphore : Type 0 where
  pub value : ℕ
  pub queue : LinkedList ℕ

abbrev pub new_semaphore : ℕ → Semaphore
new_semaphore initial_value = record { value = initial_value; queue = LinkedList.empty }

-- A round of the loop of `P`: the thread goes to sleep in the queue, to try again when it is woken
-- (false), or it takes the semaphore (true).
abbrev pub try_p : Semaphore → ℕ → Bool × Semaphore
try_p s t =
    if s.value == 0
    then (false, record s { queue = append s.queue t })
    else (true, record s { value = s.value - 1 })

-- The queue is never asked for a thread that it does not have; `Pop` of an empty one gives null.
unfoldable pub v : Scheduler → Semaphore → Run (Scheduler × Semaphore)
v scheduler s =
    let (thread, queue) = pop 0 s.queue in
    let after : Semaphore = record { value = s.value + 1; queue = queue } in
    let woken : Run (Scheduler × Semaphore) = (do
      scheduler' ← ready_to_run scheduler thread
      ok (scheduler', after)) in
    if is_empty s.queue then ok (scheduler, after) else woken

-- `locker` is `lockerThread`.
pub record Lock : Type 0 where
  pub semaphore : Semaphore
  pub locker : Option ℕ

abbrev pub new_lock : Lock
new_lock = record { semaphore = new_semaphore 1; locker = none }

abbrev pub is_thread : Option ℕ → ℕ → Bool
is_thread none current = false
is_thread (some t) current = t == current

-- `IsHeldByCurrentThread`
abbrev pub is_held_by : Lock → ℕ → Bool
is_held_by l current = is_thread l.locker current

-- A thread that holds the lock takes the priority of one that waits for it.
abbrev pub boost : Scheduler → ℕ → ℕ → Run Scheduler
boost scheduler locker current =
    let priority_locker = (scheduler.threads locker).priority in
    let priority_current = (scheduler.threads current).priority in
    let raised =
      with_thread scheduler locker
        (set_priority_temp (scheduler.threads locker) priority_current) in
    let moved : Run Scheduler = (do
      is_locker_ready ← is_ready raised locker priority_locker
      let requeued : Run Scheduler = (do
        removed ← remove_from_priority_list raised locker priority_locker
        add_to_priority_list removed locker priority_current)
      if is_locker_ready then requeued else ok raised) in
    if ltb_ℤ priority_locker priority_current then moved else ok scheduler

abbrev pub boost_locker : Scheduler → Option ℕ → ℕ → Run Scheduler
boost_locker scheduler none current = ok scheduler
boost_locker scheduler (some locker) current = boost scheduler locker current

-- `Acquire` up to the call of `P`.
unfoldable pub before_p : Scheduler → Lock → ℕ → Run Scheduler
before_p scheduler l current = do
  assert (not (is_held_by l current))
  boost_locker scheduler l.locker current

-- What `Release` does to the priority of its thread.
abbrev pub restored : Thread → Thread
restored t =
    if is_unset t.priority_temp
    then t
    else set_priority_temp (set_priority t t.priority_temp) (negsuc 0)

-- `Release` up to the call of `V`.
unfoldable pub before_v : Scheduler → Lock → ℕ → Run (Scheduler × Lock)
before_v scheduler l current = do
  assert (is_held_by l current)
  let scheduler' = with_thread scheduler current (restored (scheduler.threads current))
  ok (scheduler', record l { locker = none })
