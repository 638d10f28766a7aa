-- ===== src/Kernel/Envs/Run.antt =====
-- `env_run`: the state in which an environment is entered.
use csdi_jos.Common.{
  ℕ, ◌+◌, ◌%◌, ◌^◌, ◌≡◌, ◌≢◌, inl, inr, refl, true, false, ◌&&◌, ◌==◌, none, some, if◌then◌else◌,
  same_ptr, eq_of_same_ptr, arith, Bool-cases,
}
use csdi_jos.Kernel.State.{Kernel, set_env, enter, status_runnable, status_running}
use csdi_jos.Kernel.Envs.Switch.{env_run, switch_to}
use csdi_jos.Kernel.Spinlock.{holding}

-- The state `k'` in which `env_run` enters `e`, whose directory is `d`.
pub record Entered (k k' : Kernel) (e d : ℕ) : Type 0 where
  pub current : k'.curenv ≡ some e
  pub space : k'.cr3 ≡ (if same_ptr k.curenv (some e) then k.cr3 else d)
  pub status :
      (k'.envs e).env_status
      ≡ (if same_ptr k.curenv (some e) then (k.envs e).env_status else status_running)
  pub runs : (k'.envs e).env_runs ≡ (
      if same_ptr k.curenv (some e)
      then (k.envs e).env_runs
      else ((k.envs e).env_runs + 1) % 2 ^ 32)
  pub frame : (k'.envs e).env_tf ≡ (k.envs e).env_tf
  pub on_cpu : (k'.envs e).env_cpunum ≡ k.cpunum
  pub demoted :
      (i : ℕ)
      → i ≢ e
      → (k'.envs i).env_status ≡ (
          if same_ptr k.curenv (some i) && (k.envs i).env_status == status_running
          then status_runnable
          else (k.envs i).env_status)
  pub unlocked : k'.kernel_lock.locked ≡ false
  pub memory : k'.frames ≡ k.frames

entered : (k : Kernel) (e : ℕ) → Kernel
entered k e =
    set_env e (record (k.envs e) { env_cpunum = k.cpunum })
      (record k { kernel_lock = record { locked = false; cpu = none } })

module _ {k : Kernel} (e : ℕ) {d : ℕ} (held : holding k.kernel_lock k.cpunum ≡ true)
    (dir : (k.envs e).env_pgdir ≡ some d) where
  env_run_current :
      same_ptr k.curenv (some e) ≡ true
      → (k' : Kernel) × (env_run e k ≡ enter e k') × Entered k k' e d
  unfolding env_run entered
  env_run_current h = (
    entered k e,
    ground (arith, held),
    record {
      current = eq_of_same_ptr k.curenv e h;
      space = ground arith;
      status = ground arith;
      runs = ground arith;
      frame = ground arith;
      on_cpu = ground arith;
      demoted = λ i ne. ground (arith, eq_of_same_ptr k.curenv e h);
      unlocked = refl;
      memory = refl;
    },
  )

  env_run_other :
      same_ptr k.curenv (some e) ≡ false
      → (k' : Kernel) × (env_run e k ≡ enter e k') × Entered k k' e d
  unfolding env_run entered switch_to
  env_run_other h = (
    entered (record (switch_to e k) { cr3 = d }) e,
    ground (arith, held, dir, h),
    record {
      current = ground arith;
      space = ground arith;
      status = ground arith;
      runs = ground arith;
      frame = ground arith;
      on_cpu = ground arith;
      demoted = λ i ne. ground arith;
      unlocked = refl;
      memory = ground arith;
    },
  )

  -- With the kernel lock held by this CPU and a page directory for `e`, `env_run` does not return:
  -- it enters `e` as the current environment, with its saved registers and its directory loaded and
  -- the lock released. A switch counts a run of `e` and makes the environment that was running
  -- before runnable; where `e` is current already neither happens. The status of no other
  -- environment changes.
  pub env_run_lem : (k' : Kernel) × (env_run e k ≡ enter e k') × Entered k k' e d
  env_run_lem = elim (Bool-cases (same_ptr k.curenv (some e))) [
    | inl h ↦ env_run_current h
    | inr h ↦ env_run_other h
  ]
