-- ===== src/Kernel/Spinlock/Cpus.antt =====
-- kern/spinlock.c with several CPUs. A step is the `xchg`, a store, or the test of `holding` with what
-- follows it: the reads of `holding` and the store to `lk->cpu` behind them are one step.
use csdi_jos.Common.{ℕ, Bool, true, false, none, some, List, [], ◌∷◌, if◌then◌else◌, update}
use csdi_jos.Kernel.State.{Spinlock}
use csdi_jos.Kernel.Spinlock.{holding, spin_initlock}

-- Where a CPU stands: outside; in the loop of `spin_lock`; between the `xchg` that found the lock free
-- and the store to `lk->cpu`; between the two calls; and between the store to `lk->cpu` and the `xchg`
-- of `spin_unlock`.
pub data Phase : Type 0 where
  outside spinning won inside leaving : Phase

pub record System : Type 0 where
  pub lock : Spinlock
  pub phase : ℕ → Phase
  pub panicked : Bool

abbrev pub start : System
unfolding spin_initlock
start = record { lock = spin_initlock; phase = λ c. outside; panicked = false }

-- The next step of CPU `c`, by where it stands.
unfoldable pub step_from : Phase → (c : ℕ) → System → System
unfolding holding
step_from outside c s =
    if holding s.lock c
    then record s { panicked = true }
    else record s { phase = update s.phase c spinning }
step_from spinning c s =
    if s.lock.locked
    then s
    else record s { lock = record s.lock { locked = true }; phase = update s.phase c won }
step_from won c s = record s {
  lock = record s.lock { cpu = some c };
  phase = update s.phase c inside;
}
step_from inside c s =
    if holding s.lock c
    then record s { lock = record s.lock { cpu = none }; phase = update s.phase c leaving }
    else record s { panicked = true }
step_from leaving c s = record s {
  lock = record s.lock { locked = false };
  phase = update s.phase c outside;
}

unfoldable pub step : (c : ℕ) → System → System
unfolding step_from
step c s = step_from (s.phase c) c s

-- The CPUs take their steps in this order.
unfoldable pub run : List ℕ → System → System
unfolding step
run [] s = s
run (c ∷ cs) s = run cs (step c s)

-- The states that some order of steps leads to.
pub data Reachable : System → Type 0 where
  initial : Reachable start
  next : (c : ℕ) {s : System} → Reachable s → Reachable (step c s)
