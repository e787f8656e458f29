-- ===== src/Threads/Examples.antt =====
-- Examples of ready lists.
use so_ii.Base.{ℕ, ◌<◌, ◌≡◌, refl, ◌⊎◌, none, [], ◌∷◌, ok, fault, out_of_bounds, replicate}
use so_ii.Base.Int.{pos, negsuc}
use so_ii.LinkedList
use so_ii.LinkedList.{LinkedList, node}
use so_ii.Threads.{
  Thread, just_created, Scheduler, priority_size, set_priority, with_thread, add_to_priority_list,
  ready_to_run, find_next_to_run,
}
use so_ii.Threads.Scheduling.{queue, Takes, find_next_to_run-Takes}

abbrev thread : Thread
thread = record { status = just_created; priority = pos 0; priority_temp = negsuc 0 }

-- Thread 4 waits with priority 0 and thread 7 with priority 2.
abbrev scheduler : Scheduler
scheduler = record {
  ready_lists =
      record { nodes = node 4 (pos 0) ∷ []; size = pos 1 }
      ∷ LinkedList.empty
      ∷ record { nodes = node 7 (pos 0) ∷ []; size = pos 1 }
      ∷ replicate 2 LinkedList.empty;
  threads = λ t. thread;
}

find_next_to_run-Takes_example :
    ((find_next_to_run scheduler ≡ ok (none, scheduler))
      × ((q : ℕ) → q < priority_size → queue scheduler q ≡ []))
    ⊎ Takes scheduler priority_size (find_next_to_run scheduler)
find_next_to_run-Takes_example = find_next_to_run-Takes scheduler refl

-- A thread with the priority that `setPriority` makes of 5 has no ready list.
no_list :
    ready_to_run (with_thread scheduler 9 (set_priority thread (pos 5))) 9 ≡ fault out_of_bounds
unfolding ready_to_run set_priority add_to_priority_list
no_list = refl
