-- ===== src/Kernel/Sched.antt =====
-- kern/sched.c, and `env_destroy`, which calls the scheduler.
pub mod Choice
pub mod Fair
use csdi_jos.Common.{
  ℕ, zero, suc, ◌+◌, Bool, false, not, ◌&&◌, ◌||◌, ◌==◌, Option, none, some, if◌then◌else◌,
  same_ptr,
}
use csdi_jos.Kernel.State.{
  Kernel, Env, is_idle, ret, monitor, panic, K, pure, and_then, ◌>>=◌, ◌>>◌, get, put, set_env,
  status_runnable, status_running, status_dying,
}
use csdi_jos.Kernel.State.Layout.{n_env, envx}
use csdi_jos.Kernel.Envs.Switch.{env_run}
use csdi_jos.Kernel.Envs.Free.{env_free}

-- The test of the first loop.
abbrev pub is_candidate : Env → Bool
is_candidate env = not (is_idle env.env_type) && env.env_status == status_runnable

-- `++i; if (i == NENV) i = 0`
abbrev pub next_index : ℕ → ℕ
next_index i = if i + 1 == n_env then 0 else i + 1

-- The do-while loop comes back to its start after `NENV` rounds; `n` are left.
unfoldable pub find_runnable : (n i : ℕ) → Kernel → Option ℕ
find_runnable zero i k = none
find_runnable (suc n) i k =
    if is_candidate (k.envs i) then some i else find_runnable n (next_index i) k

-- The second loop: is any environment but the idle ones runnable or running, from `i` on?
unfoldable pub any_active : (n i : ℕ) → Kernel → Bool
any_active zero i k = false
any_active (suc n) i k =
    (not (is_idle (k.envs i).env_type)
      && ((k.envs i).env_status == status_runnable || (k.envs i).env_status == status_running))
    || any_active n (suc i) k

abbrev pub start_index : Kernel → ℕ
start_index k = elim k.curenv [ none ↦ 0 | some c ↦ next_index (envx (k.envs c).env_id) ]

-- The second loop, and what follows it.
unfoldable pub idle_or_monitor : K (Unit {0})
unfolding any_active env_run
idle_or_monitor k =
    let idle = k.cpunum in
    if any_active n_env 0 k
    then (if (k.envs idle).env_status == status_runnable
          || (k.envs idle).env_status == status_running
        then env_run idle k
        else panic)
    else monitor k

-- What follows the first loop.
unfoldable pub yield_rest : K (Unit {0})
unfolding env_run idle_or_monitor
yield_rest k = elim k.curenv [
  | none ↦ idle_or_monitor k
  | some c ↦ if (k.envs c).env_status == status_running then env_run c k else idle_or_monitor k
]

unfoldable pub sched_yield : K (Unit {0})
unfolding find_runnable env_run yield_rest
sched_yield k = elim (find_runnable n_env (start_index k) k) [
  | some i ↦ env_run i k
  | none ↦ yield_rest k
]

unfoldable pub env_destroy : (e : ℕ) → K (Unit {0})
unfolding env_free sched_yield
env_destroy e k =
    if (k.envs e).env_status == status_running && not (same_ptr k.curenv (some e))
    then ret tt (set_env e (record (k.envs e) { env_status = status_dying }) k)
    else (do
      env_free e
      k' ← get
      if same_ptr k'.curenv (some e)
          then (do put (record k' { curenv = none }); sched_yield)
          else pure tt)
        k
