-- ===== src/Interrupts/Due.antt =====
-- The rounds of the loop of `OneTick` in machine/interrupt.cc.
use so_ii.Base.{
  ℕ, zero, suc, ◌≤◌, ◌<◌, ◌≡◌, refl, ap, Bool, true, false, ◌&&◌, Bool-cases, Option, none, some,
  List, [], ◌∷◌, inl, inr, ltb, Run, arith,
}
use so_ii.Base.Safe.{Returns, bind-Returns}
use so_ii.Base.Int.{ℤ}
use so_ii.LinkedList.{ListElement, is_empty, sorted_pop}
use so_ii.Processor.{Machine, MachineStatus, system_mode}
use so_ii.Processor.Keep.{IsMid, after_load, delayed_load-after_load, after_load-IsRunning}
use so_ii.Interrupts.{
  Interrupt, PendingInterrupt, from_int, count_due, check_if_due, check_popped, fire, invoke,
  fire_due, one_tick, after_tick, again, is_idle, is_timer, is_off, int_off,
}

of_status : (m : Machine) (status : MachineStatus) → IsMid m → IsMid (record m { status = status })
of_status m status mid = record { full = mid.full; pending = mid.pending; ready = mid.ready }

module _ {H : Type 0} where
  abbrev pub due : Interrupt H → ℕ
  due s = count_due s.stats.total_ticks s.pending.nodes

  -- Interrupts are off, and the processor is well-formed.
  abbrev pub IsQuiet : Interrupt H → Type 0
  IsQuiet s = (s.level ≡ int_off) × IsMid s.machine

  -- Handlers that return, with interrupts still off and the processor well-formed, that leave the clock
  -- alone and make no interrupt due.
  abbrev pub IsPatient : (H → Interrupt H → Run (Interrupt H)) → Type 0
  IsPatient call =
      (h : H) (s : Interrupt H)
      → IsQuiet s
      → Returns (λ s'. IsQuiet s' × (s'.stats.total_ticks ≡ s.stats.total_ticks) × (due s' ≤ due s))
          (call h s)

  -- A round of the loop that fires an interrupt leaves fewer of them due.
  abbrev Shrinks : ℕ → Bool × Interrupt H → Type 0
  Shrinks bound (true, s) = (due s < bound) × IsQuiet s
  Shrinks bound (false, s) = Unit

  -- The end of the loop before its rounds are used up.
  abbrev pub IsEnd : Option (Interrupt H) → Type 0
  IsEnd none = ⊥
  IsEnd (some s) = Unit

  again-IsEnd :
      (rest : Interrupt H → Run (Option (Interrupt H))) (bound : ℕ)
      → ((s : Interrupt H) → IsQuiet s → due s < bound → Returns IsEnd (rest s))
      → (r : Bool × Interrupt H) → Shrinks bound r
      → Returns IsEnd (again rest r)
  again-IsEnd rest bound k (true, s) (less, quiet) = k s quiet less
  again-IsEnd rest bound k (false, s) h = tt

  module _ (call : H → Interrupt H → Run (Interrupt H)) (null : PendingInterrupt H)
      (patient : IsPatient call) where
    invoke-Shrinks :
        (s : Interrupt H) (to_occur : PendingInterrupt H) (bound : ℕ)
        → IsQuiet s
        → due s < bound
        → Returns (Shrinks bound) (invoke call null s to_occur)
    invoke-Shrinks s to_occur bound (off, mid) h =
        let loaded = after_load s.machine 0 0 in
        let kernel : Interrupt H = record s {
          in_handler = true;
          machine = record loaded { status = system_mode };
        } in
        rw (delayed_load-after_load s.machine 0 0 mid) (
          bind-Returns
            (λ s'. IsQuiet s' × (s'.stats.total_ticks ≡ s.stats.total_ticks) × (due s' ≤ due s))
            (Shrinks bound) (call to_occur.handler kernel) _
            (patient to_occur.handler kernel (
              off,
              of_status loaded system_mode
                  (after_load-IsRunning s.machine 0 0 mid (omega arith)).mid,
            ))
            (λ after (quiet, same, fewer). (
              omega (arith, fewer, h),
              (quiet.0, of_status after.machine s.machine.status quiet.1),
            )))

    fire-Shrinks :
        (s : Interrupt H) (to_occur : PendingInterrupt H) (key : ℤ) (bound : ℕ)
        → IsQuiet s
        → due s < bound
        → Returns (Shrinks bound) (fire call null s to_occur key)
    fire-Shrinks s to_occur key bound quiet h =
        elim (Bool-cases
          (is_idle s.machine.status && is_timer to_occur.kind && is_empty s.pending)) [
            | inl done ↦ rw done tt
            | inr more ↦ rw more (invoke-Shrinks s to_occur bound quiet h)
          ]

    popped-Shrinks :
        (s : Interrupt H) (nodes : List (ListElement (PendingInterrupt H))) (bound : ℕ)
        → IsQuiet s
        → s.pending.nodes ≡ nodes
        → due s ≤ bound
        → Returns (Shrinks bound) (check_popped call null false s (sorted_pop null s.pending))
    unfolding sorted_pop
    popped-Shrinks s [] bound quiet split h = rw split tt
    popped-Shrinks s (e ∷ rest) bound quiet split h =
        elim (Bool-cases (ltb s.stats.total_ticks (from_int e.key))) [
          | inl later ↦ rw (split, later) tt
          | inr now ↦ rw (split, now) (fire-Shrinks _ e.item e.key bound quiet (fewer now))
        ]
      where
        fewer :
            ltb s.stats.total_ticks (from_int e.key) ≡ false
            → count_due s.stats.total_ticks rest < bound
        fewer now = ground (arith, ap (count_due s.stats.total_ticks) split, h)

    check_if_due-Shrinks :
        (s : Interrupt H) → IsQuiet s → Returns (Shrinks (due s)) (check_if_due call null false s)
    unfolding check_if_due
    check_if_due-Shrinks s quiet =
        rw (ap is_off quiet.0) (popped-Shrinks s s.pending.nodes (due s) quiet refl (omega arith))

    fire_due-IsEnd :
        (rounds : ℕ) (s : Interrupt H)
        → IsQuiet s
        → due s < rounds
        → Returns IsEnd (fire_due call null rounds s)
    unfolding fire_due
    fire_due-IsEnd zero s quiet h = absurd (omega arith)
    fire_due-IsEnd (suc rounds) s quiet h =
        bind-Returns (Shrinks (due s)) IsEnd _ _ (check_if_due-Shrinks s quiet) (
          again-IsEnd (fire_due call null rounds) (due s)
            (λ s' quiet' less. fire_due-IsEnd rounds s' quiet' (omega (arith, less, h))))

    -- `OneTick` returns, and its loop is not cut short: one round for each interrupt that is due and one
    -- more are enough. This is for a processor that is well-formed, a `Yield` that returns, and handlers
    -- that return, leave the clock alone, make no interrupt due, and keep interrupts off and the
    -- processor well-formed.
    pub one_tick-IsEnd :
        (yield : Interrupt H → Run (Interrupt H)) (s : Interrupt H)
        → ((u : Interrupt H) → Returns (λ u'. Unit {0}) (yield u))
        → IsMid s.machine
        → Returns IsEnd (one_tick call null yield s)
    unfolding one_tick
    one_tick-IsEnd yield s yields mid =
        bind-Returns IsEnd IsEnd (fire_due call null _ _) _
          (fire_due-IsEnd _ _ (refl, mid) (omega arith)) ended
      where
        ended :
            (r : Option (Interrupt H))
            → IsEnd r
            → Returns IsEnd (after_tick call null yield s.machine.status r)
        ended none h = absurd h
        ended (some u) h = elim (Bool-cases u.yield_on_return) [
          | inl asked ↦
              rw asked (bind-Returns (λ u'. Unit {0}) IsEnd (yield _) _ (yields _) (λ u' x. tt))
          | inr quiet ↦ rw quiet tt
        ]
