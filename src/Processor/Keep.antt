-- ===== src/Processor/Keep.antt =====
-- When a machine of machine/machine.cc is well-formed, and its steps on such a machine.
use so_ii.Base.{
  ℕ, zero, suc, ◌<◌, ◌≡◌, ◌≢◌, refl, ap, ◌∙◌, Bool, true, false, Bool-cases, ◌==◌, List, [], ◌∷◌,
  ◌⊎◌, inl, inr, Option, none, some, length, length-set, get_or, set, Run, ok, ◌>>=◌, read_at,
  read_at-get_or, write_at-set, arith,
}
use so_ii.Base.Safe.{Safe, bind-Safe, read_at-Safe, assert-Safe, if-Safe}
use so_ii.Mmu.{Mmu, ExceptionType, is_access_size}
use so_ii.Mmu.Translate.{IsReady}
use so_ii.Mmu.Safe.{read_mem-IsReady, write_mem-IsReady}
use so_ii.Processor
use so_ii.Processor.{
  Machine, MachineStatus, system_mode, user_mode, Handlers, num_gp_regs, num_total_regs, load_reg,
  load_value_reg, bad_vaddr_reg, new_machine, put, write_register, read_register, delayed_load,
  is_registered, call, raise_exception, after_read, after_write, is_success,
}

-- While an instruction is executed: all the registers are there, the delayed load is of a general
-- register, and the memory management unit is ready.
pub record IsMid (m : Machine) : Type 0 where
  pub full : length m.registers ≡ num_total_regs
  pub pending : get_or m.registers load_reg 0 < num_gp_regs
  pub ready : IsReady m.mmu

-- Between two instructions, register 0 holds 0 as well.
pub record IsRunning (m : Machine) : Type 0 where
  pub mid : IsMid m
  pub zero_reg : get_or m.registers 0 0 ≡ 0

-- Handlers that keep a machine well-formed, unless an assertion stops them.
abbrev pub Keeping : Handlers → Type 0
Keeping handlers =
    (e : ExceptionType) (h : Machine → Run Machine)
    → handlers e ≡ some h
    → (m : Machine) → IsRunning m
    → Safe IsRunning (h m)

get_or-set_other : (xs : List ℕ) (i j v d : ℕ) → i ≢ j → get_or (set xs i v) j d ≡ get_or xs j d
get_or-set_other [] i j v d h = refl
get_or-set_other (x ∷ xs) zero zero v d h = absurd (h refl)
get_or-set_other (x ∷ xs) zero (suc j) v d h = refl
get_or-set_other (x ∷ xs) (suc i) zero v d h = refl
get_or-set_other (x ∷ xs) (suc i) (suc j) v d h = get_or-set_other xs i j v d (λ e. h (ap suc e))

get_or-set_here : (xs : List ℕ) (i v d : ℕ) → i < length xs → get_or (set xs i v) i d ≡ v
get_or-set_here [] i v d h = absurd (omega arith)
get_or-set_here (x ∷ xs) zero v d h = refl
get_or-set_here (x ∷ xs) (suc i) v d h = get_or-set_here xs i v d (omega arith)

abbrev pub with_reg : Machine → ℕ → ℕ → Machine
with_reg m r v = record m { registers = set m.registers r v }

pub put-with_reg :
    (m : Machine) (r v : ℕ) → r < length m.registers → put m r v ≡ ok (with_reg m r v)
put-with_reg m r v h = rw (write_at-set m.registers r v h) refl

-- Any register but that of the delayed load can be set.
pub with_reg-IsMid : (m : Machine) (r v : ℕ) → IsMid m → r ≢ load_reg → IsMid (with_reg m r v)
with_reg-IsMid m r v mid other = record {
  full = length-set m.registers r v ∙ mid.full;
  pending = rw (get_or-set_other m.registers r load_reg v 0 other) mid.pending;
  ready = mid.ready;
}

pub with_reg-IsRunning :
    (m : Machine) (r v : ℕ) → IsRunning m → r ≢ load_reg → r ≢ 0 → IsRunning (with_reg m r v)
with_reg-IsRunning m r v running other other₀ = record {
  mid = with_reg-IsMid m r v running.mid other;
  zero_reg = get_or-set_other m.registers r 0 v 0 other₀ ∙ running.zero_reg;
}

pub with_load-IsMid :
    (m : Machine) (v : ℕ) → IsMid m → v < num_gp_regs → IsMid (with_reg m load_reg v)
with_load-IsMid m v mid small = record {
  full = length-set m.registers load_reg v ∙ mid.full;
  pending = rw (get_or-set_here m.registers load_reg v 0 (omega (arith, mid.full))) small;
  ready = mid.ready;
}

pub with_zero-IsRunning : (m : Machine) → IsMid m → IsRunning (with_reg m 0 0)
with_zero-IsRunning m mid = record {
  mid = with_reg-IsMid m 0 0 mid (omega arith);
  zero_reg = get_or-set_here m.registers 0 0 0 (omega (arith, mid.full));
}

-- Register `load_reg` can be set as well, to the number of a general register.
pub with_any-IsRunning :
    (m : Machine) (r v : ℕ)
    → IsRunning m
    → r ≢ 0
    → (r ≡ load_reg → v < num_gp_regs)
    → IsRunning (with_reg m r v)
with_any-IsRunning m r v running other h = record {
  mid = elim (Bool-cases (r == load_reg)) [
    | inl e ↦ rw (same_reg e) (with_load-IsMid m v running.mid (h (same_reg e)))
    | inr e ↦ with_reg-IsMid m r v running.mid (ground arith)
  ];
  zero_reg = get_or-set_other m.registers r 0 v 0 other ∙ running.zero_reg;
}
  where
    same_reg : (r == load_reg) ≡ true → r ≡ load_reg
    same_reg e = ground arith

-- The state that `DelayedLoad` leaves.
abbrev pub after_load : Machine → ℕ → ℕ → Machine
after_load m next_reg next_value =
    with_reg
      (with_reg
        (with_reg (with_reg m (get_or m.registers load_reg 0) (get_or m.registers load_value_reg 0))
          load_reg next_reg)
        load_value_reg next_value)
      0 0

-- `DelayedLoad`, on a machine whose delayed load is of a general register, puts the value under way
-- into its register, takes the next one, and sets register 0 to 0.
pub delayed_load-after_load :
    (m : Machine) (next_reg next_value : ℕ)
    → IsMid m
    → delayed_load m next_reg next_value ≡ ok (after_load m next_reg next_value)
unfolding delayed_load
delayed_load-after_load m r v mid =
    let t = get_or m.registers load_reg 0 in
    let m₁ = with_reg m t (get_or m.registers load_value_reg 0) in
    let same₁ = length-set m.registers t (get_or m.registers load_value_reg 0) in
    let m₂ = with_reg m₁ load_reg r in
    let same₂ = length-set m₁.registers load_reg r in
    let m₃ = with_reg m₂ load_value_reg v in
    let same₃ = length-set m₂.registers load_value_reg v in
    rw
      (
        read_at-get_or m.registers load_reg 0 (omega (arith, mid.full)),
        read_at-get_or m.registers load_value_reg 0 (omega (arith, mid.full)),
        write_at-set m.registers t (get_or m.registers load_value_reg 0)
            (omega (arith, mid.full, mid.pending)),
        write_at-set m₁.registers load_reg r (omega (arith, mid.full, same₁)),
        write_at-set m₂.registers load_value_reg v (omega (arith, mid.full, same₁, same₂)),
        write_at-set m₃.registers 0 0 (omega (arith, mid.full, same₁, same₂, same₃)),
      )
      refl

pub after_load-IsRunning :
    (m : Machine) (next_reg next_value : ℕ)
    → IsMid m
    → next_reg < num_gp_regs
    → IsRunning (after_load m next_reg next_value)
after_load-IsRunning m r v mid small =
    let m₁ = with_reg m (get_or m.registers load_reg 0) (get_or m.registers load_value_reg 0) in
    let mid₁ =
      with_reg-IsMid m (get_or m.registers load_reg 0) (get_or m.registers load_value_reg 0) mid
        (omega (arith, mid.pending)) in
    let mid₂ = with_load-IsMid m₁ r mid₁ small in
    let m₂ = with_reg m₁ load_reg r in
    with_zero-IsRunning (with_reg m₂ load_value_reg v)
      (with_reg-IsMid m₂ load_value_reg v mid₂ (omega arith))

pub reg-Safe {κ} :
    {B : Type 0} (Q : B → Type κ) (m : Machine) (r : ℕ) (f : ℕ → Run B)
    → IsMid m
    → r < num_total_regs
    → ((a : ℕ) → Safe Q (f a))
    → Safe Q (read_at m.registers r >>= f)
reg-Safe Q m r f mid h k = read_at-Safe Q m.registers r f (omega (arith, mid.full)) (λ a e. k a)

pub put-Safe {κ} :
    {B : Type 0} (Q : B → Type κ) (m : Machine) (r v : ℕ) (f : Machine → Run B)
    → IsMid m
    → r < num_total_regs
    → Safe Q (f (with_reg m r v))
    → Safe Q (put m r v >>= f)
put-Safe Q m r v f mid h k = rw (put-with_reg m r v (omega (arith, mid.full))) k

abbrev pub with_status : Machine → MachineStatus → Machine
with_status m status = record m { status = status }

with_status-IsRunning :
    (m : Machine) (status : MachineStatus) → IsRunning m → IsRunning (with_status m status)
with_status-IsRunning m status running = record {
  mid = record {
    full = running.mid.full;
    pending = running.mid.pending;
    ready = running.mid.ready;
  };
  zero_reg = running.zero_reg;
}

with_mmu-IsMid : (m : Machine) (mmu : Mmu) → IsMid m → IsReady mmu → IsMid (record m { mmu = mmu })
with_mmu-IsMid m mmu mid ready = record { full = mid.full; pending = mid.pending; ready = ready }

-- After an access that raised an exception, the handler is done; after another one, the
-- instruction goes on.
abbrev pub IsRead : Machine × Option ℕ → Type 0
IsRead (m, none) = IsRunning m
IsRead (m, some value) = IsMid m

abbrev pub IsWritten : Machine × Bool → Type 0
IsWritten (m, false) = IsRunning m
IsWritten (m, true) = IsMid m

module _ (handlers : Handlers) (keeping : Keeping handlers) where
  called : (m : Machine) (e : ExceptionType) → IsRunning m → Safe IsRunning (call (handlers e) m)
  called m e running = go (handlers e) refl
    where
      go : (h : Option (Machine → Run Machine)) → handlers e ≡ h → Safe IsRunning (call h m)
      go none p = tt
      go (some h) p = keeping e h p m running

  pub raise_exception-Safe :
      (m : Machine) (e : ExceptionType) (bad_vaddr : ℕ)
      → IsMid m
      → Safe IsRunning (raise_exception handlers m e bad_vaddr)
  unfolding raise_exception
  raise_exception-Safe m e bad mid =
      let m₁ = with_reg m bad_vaddr_reg bad in
      let mid₁ = with_reg-IsMid m bad_vaddr_reg bad mid (omega arith) in
      assert-Safe IsRunning (is_registered (handlers e)) _ (λ registered.
        put-Safe IsRunning m bad_vaddr_reg bad _ mid (omega arith) (
          rw (delayed_load-after_load m₁ 0 0 mid₁) (
            bind-Safe IsRunning IsRunning
              (call (handlers e) (with_status (after_load m₁ 0 0) system_mode)) _
              (called (with_status (after_load m₁ 0 0) system_mode) e (
                with_status-IsRunning _ system_mode
                  (after_load-IsRunning m₁ 0 0 mid₁ (omega arith))))
              (λ m₃ running. with_status-IsRunning m₃ user_mode running))))

  pub read_mem-Safe :
      (m : Machine) (addr size : ℕ)
      → IsMid m
      → is_access_size size ≡ true
      → Safe IsRead (Processor.read_mem handlers m addr size)
  unfolding Processor.read_mem
  read_mem-Safe m addr size mid s =
      let (mmu, r, run, ready) = read_mem-IsReady m.mmu addr size mid.ready s in
      rw run (read mmu r ready)
    where
      read :
          (mmu : Mmu) (r : ExceptionType ⊎ ℕ)
          → IsReady mmu
          → Safe IsRead (after_read handlers m addr (mmu, r))
      read mmu (inl e) ready =
          bind-Safe IsRunning IsRead _ _
            (raise_exception-Safe _ e addr (with_mmu-IsMid m mmu mid ready)) (λ m' running. running)
      read mmu (inr value) ready = with_mmu-IsMid m mmu mid ready

  pub write_mem-Safe :
      (m : Machine) (addr size value : ℕ)
      → IsMid m
      → is_access_size size ≡ true
      → Safe IsWritten (Processor.write_mem handlers m addr size value)
  unfolding Processor.write_mem
  write_mem-Safe m addr size value mid s =
      let (mmu, x, run, ready) = write_mem-IsReady m.mmu addr size value mid.ready s in
      rw run (
        if-Safe IsWritten (is_success handlers x) _ _ (with_mmu-IsMid m mmu mid ready) (
          bind-Safe IsRunning IsWritten _ _
            (raise_exception-Safe _ x addr (with_mmu-IsMid m mmu mid ready))
            (λ m' running. running)))
