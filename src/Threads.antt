-- ===== src/Threads.antt =====
-- threads/scheduler.cc, and the status and the priority of a thread from threads/thread.cc. A
-- thread is named by a number.
pub mod Scheduling
mod Examples
use so_ii.Base.{
  ℕ, zero, suc, ◌==◌, Bool, true, false, not, Option, none, some, List, if◌then◌else◌, replicate,
  Run, ok, fault, out_of_bounds, ◌>>=◌, read_at, write_at,
}
use so_ii.Base.Int.{ℤ, pos, negsuc, ltb_ℤ}
use so_ii.LinkedList
use so_ii.LinkedList.{LinkedList, has, append, is_empty, pop}

abbrev pub priority_size : ℕ
priority_size = 5

pub data ThreadStatus : Type 0 where
  just_created running ready blocked finished : ThreadStatus

pub record Thread : Type 0 where
  pub status : ThreadStatus
  pub priority : ℤ
  pub priority_temp : ℤ

-- `setPriority`
abbrev pub bounded_priority : ℤ → ℤ
bounded_priority p =
    if ltb_ℤ (pos priority_size) p then pos priority_size else if ltb_ℤ p (pos 0) then pos 0 else p

unfoldable pub set_priority : Thread → ℤ → Thread
set_priority t p = record t { priority = bounded_priority p }

abbrev pub is_unset : ℤ → Bool
is_unset (pos n) = false
is_unset (negsuc n) = n == 0

unfoldable pub set_priority_temp : Thread → ℤ → Thread
set_priority_temp t p = record t {
  priority_temp = if is_unset t.priority_temp then t.priority else t.priority_temp;
  priority = p;
}

pub record Scheduler : Type 0 where
  pub ready_lists : List (LinkedList ℕ)
  pub threads : ℕ → Thread

pub new_scheduler : (ℕ → Thread) → Scheduler
new_scheduler threads = record {
  ready_lists = replicate priority_size LinkedList.empty;
  threads = threads;
}

-- `readyLists[priority]`
abbrev pub ready_list : Scheduler → ℤ → Run (LinkedList ℕ)
ready_list s (pos p) = read_at s.ready_lists p
ready_list s (negsuc p) = fault out_of_bounds

abbrev pub with_ready_list : Scheduler → ℤ → LinkedList ℕ → Run Scheduler
with_ready_list s (pos p) l = do
  lists ← write_at s.ready_lists p l
  ok (record s { ready_lists = lists })
with_ready_list s (negsuc p) l = fault out_of_bounds

unfoldable pub is_ready : Scheduler → ℕ → ℤ → Run Bool
is_ready s t priority = do l ← ready_list s priority; ok (has ◌==◌ l t)

unfoldable pub remove_from_priority_list : Scheduler → ℕ → ℤ → Run Scheduler
remove_from_priority_list s t priority = do
  l ← ready_list s priority
  with_ready_list s priority (LinkedList.remove ◌==◌ l t)

unfoldable pub add_to_priority_list : Scheduler → ℕ → ℤ → Run Scheduler
add_to_priority_list s t priority = do
  l ← ready_list s priority
  with_ready_list s priority (append l t)

abbrev pub with_thread : Scheduler → ℕ → Thread → Scheduler
with_thread s t thread = record s { threads = λ u. if u == t then thread else s.threads u }

unfoldable pub ready_to_run : Scheduler → ℕ → Run Scheduler
unfolding add_to_priority_list
ready_to_run s t =
    add_to_priority_list (with_thread s t (record (s.threads t) { status = ready })) t
      (s.threads t).priority

-- The loop of `FindNextToRun` over the priorities below `i`, downwards.
unfoldable pub find_next_below : ℕ → Scheduler → Run (Option ℕ × Scheduler)
find_next_below zero s = ok (none, s)
find_next_below (suc i) s =
    let rest = find_next_below i s in
    let take_first : LinkedList ℕ → Run (Option ℕ × Scheduler) =
      λ l. (do let (t, l') = pop 0 l; s' ← with_ready_list s (pos i) l'; ok (some t, s')) in
    do l ← ready_list s (pos i); if not (is_empty l) then take_first l else rest

unfoldable pub find_next_to_run : Scheduler → Run (Option ℕ × Scheduler)
unfolding find_next_below
find_next_to_run s = find_next_below priority_size s
