-- ===== src/Kernel/Syscall/Blocking.antt =====
-- `sys_ipc_recv` gives up the CPU: it does not return, and does not enter the environment that waits.
use csdi_jos.Common.{
  ℕ, ◌%◌, ◌<◌, ◌≡◌, ◌≢◌, inl, inr, sym, ap, subst, false, not, ◌&&◌, ◌==◌, ltb, Option, none, some,
  if◌then◌else◌, same_ptr, arith, Bool-cases,
}
use csdi_jos.Kernel.State.{
  Kernel, Outcome, ret, enter, monitor, panic, fault, diverge, K, pure, put, set_env, and_then,
  ◌>>◌, status_not_runnable,
}
use csdi_jos.Kernel.State.Layout.{u_top, pg_size}
use csdi_jos.Kernel.Envs.Switch.{env_run, lcr3, switch_to, env_pop_tf}
use csdi_jos.Kernel.Spinlock.{unlock_kernel, holding}
use csdi_jos.Kernel.Sched.{sched_yield}
use csdi_jos.Kernel.Sched.Choice.{Decides, run_next, same, rest, no_idle, all_done, sched_yield_lem}
use csdi_jos.Kernel.Syscall.Ipc.{sys_ipc_recv, wait_for, start_recv}

-- The call ends without a return, and not in the environment `c`.
abbrev pub Leaves : {A : Type 0} → (c : ℕ) → Outcome A → Type 0
Leaves c (ret a k) = ⊥
Leaves c (enter e k) = e ≢ c
Leaves c (monitor k) = Unit
Leaves c panic = Unit
Leaves c fault = ⊥
Leaves c diverge = ⊥

-- A step that returns or panics.
abbrev Goes : {A : Type 0} → Outcome A → Type 0
Goes (ret a k) = Unit
Goes panic = Unit
Goes _ = ⊥

module _ {A B : Type 0} where
  Leaves-and_then :
      (c : ℕ) (o : Outcome A) (f : A → K B)
      → Goes o
      → ((a : A) (k : Kernel) → Leaves c (f a k))
      → Leaves c (and_then o f)
  Leaves-and_then c (ret a k) f h after = after a k
  Leaves-and_then c panic f h after = tt
  Leaves-and_then c (enter e k) f h after = absurd h
  Leaves-and_then c (monitor k) f h after = absurd h
  Leaves-and_then c fault f h after = absurd h
  Leaves-and_then c diverge f h after = absurd h

  -- What comes after a call that leaves is never reached.
  Leaves-left : (c : ℕ) (o : Outcome A) (f : A → K B) → Leaves c o → Leaves c (and_then o f)
  Leaves-left c (ret a k) f h = absurd h
  Leaves-left c panic f h = tt
  Leaves-left c (enter e k) f h = h
  Leaves-left c (monitor k) f h = tt
  Leaves-left c fault f h = absurd h
  Leaves-left c diverge f h = absurd h

unlock_kernel-Goes : (k : Kernel) → Goes (unlock_kernel k)
unfolding unlock_kernel
unlock_kernel-Goes k = elim (Bool-cases (holding k.kernel_lock k.cpunum)) [
  | inl e ↦ rw e tt
  | inr e ↦ rw e tt
]

lcr3-Goes : (pgdir : Option ℕ) (k : Kernel) → Goes (lcr3 pgdir k)
unfolding lcr3
lcr3-Goes none k = tt
lcr3-Goes (some d) k = tt

-- The part of `env_run` before it drops into user mode.
prepare : (e : ℕ) → K (Unit {0})
unfolding switch_to lcr3
prepare e k =
    (if same_ptr k.curenv (some e)
        then pure tt
        else (do put (switch_to e k); lcr3 ((switch_to e k).envs e).env_pgdir))
      k

prepare-Goes : (e : ℕ) (k : Kernel) → Goes (prepare e k)
unfolding prepare
prepare-Goes e k = elim (Bool-cases (same_ptr k.curenv (some e))) [
  | inl h ↦ rw h tt
  | inr h ↦ rw h (lcr3-Goes ((switch_to e k).envs e).env_pgdir (switch_to e k))
]

pub env_run-Leaves : (c e : ℕ) (k : Kernel) → e ≢ c → Leaves c (env_run e k)
unfolding env_run prepare env_pop_tf
env_run-Leaves c e k ne = Leaves-and_then c (prepare e k) _ (prepare-Goes e k) λ _ k'.
    Leaves-and_then c (unlock_kernel k') (λ _. env_pop_tf e) (unlock_kernel-Goes k') λ _ k''. ne

Decides-Leaves :
    (c : ℕ) (k : Kernel) (o : Outcome (Unit {0}))
    → k.curenv ≡ some c
    → (k.envs c).env_status ≡ status_not_runnable
    → Decides k o
    → Leaves c o
Decides-Leaves c k o running blocked (run_next e first) =
    env_run-Leaves c e k
      λ eq. ground (arith, first.runnable, ap (λ (i : ℕ). (k.envs i).env_status) eq, blocked)
Decides-Leaves c k o running blocked (same c' none_next current run) =
    absurd (ground (arith, running, current, blocked, run))
Decides-Leaves c k o running blocked (rest d stuck near active ready) =
    env_run-Leaves c k.cpunum k
      λ eq. ground (arith, ready, ap (λ (i : ℕ). (k.envs i).env_status) eq, blocked)
Decides-Leaves c k o running blocked (no_idle d stuck near active not_ready) = tt
Decides-Leaves c k o running blocked (all_done stuck all) = tt

wait_for-Leaves : (k : Kernel) (c dstva : ℕ) → k.curenv ≡ some c → Leaves c (wait_for dstva c k)
unfolding wait_for start_recv
wait_for-Leaves k c dstva running =
    let waits : Kernel = set_env c (start_recv dstva (k.envs c)) k in
    let blocked : (waits.envs c).env_status ≡ status_not_runnable = ground arith in
    Leaves-left c (sched_yield waits) (λ _. pure 0)
      (Decides-Leaves c waits (sched_yield waits) running blocked (sched_yield_lem waits))

-- `sys_ipc_recv` by the current environment `c`, with a page-aligned `dstva` or one at or above
-- `UTOP`, does not return: it enters an environment other than `c`, stays in the monitor, or
-- panics.
pub sys_ipc_recv-Leaves :
    (k : Kernel) (c dstva : ℕ)
    → k.curenv ≡ some c
    → (dstva < u_top → dstva % pg_size ≡ 0)
    → Leaves c (sys_ipc_recv dstva k)
unfolding sys_ipc_recv
sys_ipc_recv-Leaves k c dstva running aligned =
    let valid : (ltb dstva u_top && not (dstva % pg_size == 0)) ≡ false = ground (arith, aligned) in
    let called : sys_ipc_recv dstva k ≡ wait_for dstva c k = ground (arith, valid, running) in
    subst (Leaves c) (sym called) (wait_for-Leaves k c dstva running)
