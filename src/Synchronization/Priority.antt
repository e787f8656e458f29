-- ===== src/Synchronization/Priority.antt =====
-- What becomes of the priority that a thread lends to the holder of a lock.
use so_ii.Base.{ℕ, ◌≡◌, refl, true, false, ==_refl, none, ok, fault, out_of_bounds}
use so_ii.Base.Int.{negsuc}
use so_ii.Threads.{
  Scheduler, set_priority_temp, is_unset, with_thread, add_to_priority_list, ready_to_run,
}
use so_ii.Synchronization.{Lock, is_held_by, restored, before_v}

-- `Release` of a lock by its holder, whose priority was raised by a waiting thread (so that its
-- original priority is put aside), does not give the thread its original priority back: it leaves
-- the priority -1, and the next `ReadyToRun` of the thread accesses the ready lists out of bounds.
pub before_v_loses_priority :
    (scheduler : Scheduler) (l : Lock) (current : ℕ)
    → is_held_by l current ≡ true
    → is_unset (scheduler.threads current).priority_temp ≡ false
    → (scheduler' : Scheduler) × (l' : Lock) × (before_v scheduler l current ≡ ok (scheduler', l'))
      × ((scheduler'.threads current).priority ≡ negsuc 0)
      × (ready_to_run scheduler' current ≡ fault out_of_bounds)
unfolding before_v ready_to_run add_to_priority_list set_priority_temp
before_v_loses_priority scheduler l current held raised =
    let lost : (restored (scheduler.threads current)).priority ≡ negsuc 0 = rw raised refl in
    let here : ((with_thread scheduler current (restored (scheduler.threads current))).threads
          current).priority
        ≡ negsuc 0 =
      rw (==_refl current) lost in
    (
      with_thread scheduler current (restored (scheduler.threads current)),
      record l { locker = none },
      rw held refl,
      here,
      rw here refl,
    )
