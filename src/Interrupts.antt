-- ===== src/Interrupts.antt =====
-- machine/interrupt.cc: the clock of the simulated machine and its pending interrupts. A handler with
-- its argument is a value of a type of its own; what it does is a parameter, as is `Yield`. The status
-- of the machine is the one in the state of the processor.
pub mod Due
mod Examples
use so_ii.Base.{
  ℕ, zero, suc, ◌+◌, ◌-◌, ◌%◌, ◌^◌, ◌==◌, Bool, true, false, not, ◌&&◌, ◌||◌, Option, none, some,
  List, [], ◌∷◌, ltb, to_nat, if◌then◌else◌, Run, ok, ◌>>=◌, ◌>>◌, assert,
}
use so_ii.Base.Int.{ℤ, pos, negsuc}
use so_ii.LinkedList
use so_ii.LinkedList.{LinkedList, ListElement, is_empty, sorted_insert, sorted_pop}
use so_ii.Processor.{Machine, MachineStatus, idle_mode, system_mode, user_mode, delayed_load}
use so_ii.Processor.Signed.{to_int}

pub data IntStatus : Type 0 where
  int_off int_on : IntStatus

pub data IntType : Type 0 where
  timer_int disk_int console_write_int console_read_int network_send_int network_recv_int : IntType

pub record PendingInterrupt (H : Type 0) : Type 0 where
  pub handler : H
  pub when : ℕ
  pub kind : IntType

pub record Statistics : Type 0 where
  pub total_ticks : ℕ
  pub idle_ticks : ℕ
  pub system_ticks : ℕ
  pub user_ticks : ℕ
  pub tick_resets : ℕ
  pub num_disk_reads : ℕ
  pub num_disk_writes : ℕ

pub record Interrupt (H : Type 0) : Type 0 where
  pub level : IntStatus
  pub pending : LinkedList (PendingInterrupt H)
  pub in_handler : Bool
  pub yield_on_return : Bool
  pub stats : Statistics
  pub machine : Machine

abbrev pub is_off : IntStatus → Bool
is_off int_off = true
is_off int_on = false

abbrev pub is_idle : MachineStatus → Bool
is_idle idle_mode = true
is_idle _ = false

abbrev pub is_system : MachineStatus → Bool
is_system system_mode = true
is_system _ = false

abbrev pub is_timer : IntType → Bool
is_timer timer_int = true
is_timer _ = false

-- The conversion of the key, an `int`, to the `unsigned` that `SortedPop` writes.
abbrev pub from_int : ℤ → ℕ
from_int (pos n) = n % 2 ^ 32
from_int (negsuc n) = 2 ^ 32 - 1 - n

abbrev pub user_tick : ℕ
user_tick = 1

abbrev pub system_tick : ℕ
system_tick = 10

-- `UINT_MAX - stats->totalTicks < fromNow`, on `unsigned long`.
abbrev pub is_too_late : ℕ → ℕ → Bool
is_too_late total_ticks from_now = ltb ((2 ^ 32 - 1 + (2 ^ 64 - total_ticks)) % 2 ^ 64) from_now

module _ {H : Type 0} where
  pub new_interrupt : Machine → Statistics → Interrupt H
  new_interrupt machine stats = record {
    level = int_off;
    pending = LinkedList.empty;
    in_handler = false;
    yield_on_return = false;
    stats = stats;
    machine = record machine { status = system_mode };
  }

  abbrev pub with_status : Interrupt H → MachineStatus → Interrupt H
  with_status s status = record s { machine = record s.machine { status = status } }

  abbrev pub with_pending : Interrupt H → LinkedList (PendingInterrupt H) → Interrupt H
  with_pending s pending = record s { pending = pending }

  abbrev pub change_level : Interrupt H → IntStatus → Interrupt H
  change_level s now = record s { level = now }

  -- The loop of `RestartTicks` over the old list, whose items `SortedPop` gives in their order.
  unfoldable pub restart_from :
      ℕ
      → List (ListElement (PendingInterrupt H))
      → LinkedList (PendingInterrupt H)
      → LinkedList (PendingInterrupt H)
  restart_from total_ticks [] pending = pending
  restart_from total_ticks (e ∷ es) pending =
      let new_when = (from_int e.key + (2 ^ 64 - total_ticks)) % 2 ^ 32 in
      restart_from total_ticks es (sorted_insert pending e.item (to_int new_when))

  unfoldable pub restart_ticks : Interrupt H → Interrupt H
  unfolding restart_from
  restart_ticks s = record s {
    pending = restart_from s.stats.total_ticks s.pending.nodes LinkedList.empty;
    stats = record s.stats { total_ticks = 0; tick_resets = s.stats.tick_resets + 1 };
  }

  -- `Schedule`; `when` is an `unsigned`, and the key of the list an `int`.
  unfoldable pub schedule : Interrupt H → H → ℕ → IntType → Run (Interrupt H)
  schedule s handler from_now kind = do
    assert (ltb 0 from_now)
    let s' = if is_too_late s.stats.total_ticks from_now then restart_ticks s else s
    let when = (s'.stats.total_ticks + from_now) % 2 ^ 32
    ok (
        with_pending s' (
          sorted_insert s'.pending (record { handler = handler; when = when; kind = kind })
            (to_int when)))

  -- `YieldOnReturn`
  abbrev pub request_yield : Interrupt H → Interrupt H
  request_yield s = record s { yield_on_return = true }

  -- The advance of the clock to the next interrupt.
  abbrev pub advanced : Interrupt H → ℕ → Interrupt H
  advanced s when = record s {
    stats = record s.stats {
      idle_ticks = s.stats.idle_ticks + (when - s.stats.total_ticks);
      total_ticks = when;
    };
  }

  -- The interrupts whose time has come.
  abbrev pub count_due : ℕ → List (ListElement (PendingInterrupt H)) → ℕ
  count_due total_ticks [] = 0
  count_due total_ticks (e ∷ es) =
      to_nat (not (ltb total_ticks (from_int e.key))) + count_due total_ticks es

  -- One round for each interrupt that is due, and one to see that none is.
  abbrev pub rounds_for : Interrupt H → ℕ
  rounds_for s = suc (count_due s.stats.total_ticks s.pending.nodes)

  abbrev pub ticked : Interrupt H → Interrupt H
  ticked s =
      let stats = s.stats in
      record s {
        stats =
            if is_system s.machine.status
            then record stats {
              total_ticks = stats.total_ticks + system_tick;
              system_ticks = stats.system_ticks + system_tick;
            }
            else record stats {
              total_ticks = stats.total_ticks + user_tick;
              user_ticks = stats.user_ticks + user_tick;
            };
      }

  abbrev pub resumed : Option (Interrupt H) → Option (Interrupt H)
  resumed none = none
  resumed (some s) = some (with_status (record s { yield_on_return = false }) system_mode)

  abbrev pub again :
      (Interrupt H → Run (Option (Interrupt H))) → Bool × Interrupt H → Run (Option (Interrupt H))
  again rest (true, s) = rest s
  again rest (false, s) = ok (some s)

  -- `null` is what `SortedPop` gives for an empty list, and is not used.
  module _ (call : H → Interrupt H → Run (Interrupt H)) (null : PendingInterrupt H) where
    -- The call of a handler, in the kernel.
    abbrev pub invoke : Interrupt H → PendingInterrupt H → Run (Bool × Interrupt H)
    invoke s to_occur = do
      machine ← delayed_load s.machine 0 0
      after ←
          call to_occur.handler
            (record s { in_handler = true; machine = record machine { status = system_mode } })
      ok (
        true,
        record after {
          in_handler = false;
          machine = record after.machine { status = s.machine.status };
        },
      )

    -- From the test for the time-slice daemon on.
    abbrev pub fire : Interrupt H → PendingInterrupt H → ℤ → Run (Bool × Interrupt H)
    fire s to_occur key =
        if is_idle s.machine.status && is_timer to_occur.kind && is_empty s.pending
        then ok (false, with_pending s (sorted_insert s.pending to_occur key))
        else invoke s to_occur

    abbrev pub check_popped :
        Bool
        → Interrupt H
        → PendingInterrupt H × Option ℤ × LinkedList (PendingInterrupt H)
        → Run (Bool × Interrupt H)
    check_popped advance_clock s (to_occur, none, rest) = ok (false, s)
    check_popped advance_clock s (to_occur, some key, rest) =
        let when = from_int key in
        let popped = with_pending s rest in
        let put_back : Interrupt H = with_pending s (sorted_insert rest to_occur key) in
        let later : Run (Bool × Interrupt H) =
          if advance_clock
          then fire (advanced popped when) to_occur key
          else ok (false, put_back) in
        if ltb s.stats.total_ticks when then later else fire popped to_occur key

    unfoldable pub check_if_due : Bool → Interrupt H → Run (Bool × Interrupt H)
    check_if_due advance_clock s = do
      assert (is_off s.level)
      check_popped advance_clock s (sorted_pop null s.pending)

    -- The loops `while (CheckIfDue(false)) {}`, on a number of rounds; `none` where the rounds are
    -- used up.
    unfoldable pub fire_due : ℕ → Interrupt H → Run (Option (Interrupt H))
    fire_due zero s = ok none
    fire_due (suc rounds) s = let rest = fire_due rounds in check_if_due false s >>= again rest

    module _ (yield : Interrupt H → Run (Interrupt H)) where
      -- What `OneTick` does after its loop.
      abbrev pub after_tick : MachineStatus → Option (Interrupt H) → Run (Option (Interrupt H))
      after_tick old none = ok none
      after_tick old (some s) =
          let on = change_level s int_on in
          let yielded : Run (Option (Interrupt H)) = (do
            s' ← yield (with_status (record on { yield_on_return = false }) system_mode)
            ok (some (with_status s' old))) in
          if s.yield_on_return then yielded else ok (some on)

      unfoldable pub one_tick : Interrupt H → Run (Option (Interrupt H))
      one_tick s =
          let off = change_level (ticked s) int_off in
          fire_due (rounds_for off) off >>= after_tick s.machine.status

      -- The result has the old level.
      unfoldable pub set_level : Interrupt H → IntStatus → Run (IntStatus × Option (Interrupt H))
      set_level s now =
          let changed = change_level s now in
          let advanced : Run (IntStatus × Option (Interrupt H)) = (do
            s' ← one_tick changed
            ok (s.level, s')) in
          do
            assert (is_off now || not s.in_handler)
            if not (is_off now) && is_off s.level then advanced else ok (s.level, some changed)

    -- What `Idle` does with the answer of its first check; it halts the machine without a result.
    abbrev pub after_check : Bool × Interrupt H → Run (Option (Interrupt H))
    after_check (false, s) = ok none
    after_check (true, s) = do fired ← fire_due (rounds_for s) s; ok (resumed fired)

    unfoldable pub idle : Interrupt H → Run (Option (Interrupt H))
    idle s = check_if_due true (with_status s idle_mode) >>= after_check
