-- ===== src/Kernel/Trap/Ends.antt =====
-- A trap does not return to its caller.
use csdi_jos.Common.{
  ℕ, suc, arith, ◌%◌, inl, inr, Bool, ◌==◌, Option, none, some, if◌then◌else◌, Bool-cases,
}
use csdi_jos.Kernel.State.{
  Kernel, Outcome, ret, enter, monitor, panic, fault, diverge, K, pure, and_then, status_running,
}
use csdi_jos.Kernel.State.Layout.{Trapframe}
use csdi_jos.Kernel.Envs.Switch.{env_run}
use csdi_jos.Kernel.Syscall.Blocking.{Leaves, env_run-Leaves}
use csdi_jos.Kernel.Sched.{sched_yield}
use csdi_jos.Kernel.Sched.Choice.{Decides, run_next, same, rest, no_idle, all_done, sched_yield_lem}
use csdi_jos.Kernel.Trap.{trap, leave_trap, trap_dispatch, enter_kernel}

abbrev pub NoReturn : {A : Type 0} → Outcome A → Type 0
NoReturn (ret a k) = ⊥
NoReturn _ = Unit

NoReturn-and_then :
    {A B : Type 0} (o : Outcome A) (f : A → K B)
    → ((a : A) (k : Kernel) → NoReturn (f a k))
    → NoReturn (and_then o f)
NoReturn-and_then (ret a k) f h = h a k
NoReturn-and_then (enter e k) f h = tt
NoReturn-and_then (monitor k) f h = tt
NoReturn-and_then panic f h = tt
NoReturn-and_then fault f h = tt
NoReturn-and_then diverge f h = tt

Leaves-NoReturn : {A : Type 0} (c : ℕ) (o : Outcome A) → Leaves c o → NoReturn o
Leaves-NoReturn c (ret a k) h = h
Leaves-NoReturn c (enter e k) h = tt
Leaves-NoReturn c (monitor k) h = tt
Leaves-NoReturn c panic h = tt
Leaves-NoReturn c fault h = tt
Leaves-NoReturn c diverge h = tt

env_run-NoReturn : (e : ℕ) (k : Kernel) → NoReturn (env_run e k)
env_run-NoReturn e k =
    Leaves-NoReturn (suc e) (env_run e k) (env_run-Leaves (suc e) e k (omega arith))

Decides-NoReturn : (k : Kernel) (o : Outcome (Unit {0})) → Decides k o → NoReturn o
Decides-NoReturn k o (run_next e first) = env_run-NoReturn e k
Decides-NoReturn k o (same c none_next current run) = env_run-NoReturn c k
Decides-NoReturn k o (rest d stuck near active ready) = env_run-NoReturn k.cpunum k
Decides-NoReturn k o (no_idle d stuck near active not_ready) = tt
Decides-NoReturn k o (all_done stuck all) = tt

sched_yield-NoReturn : (k : Kernel) → NoReturn (sched_yield k)
sched_yield-NoReturn k = Decides-NoReturn k (sched_yield k) (sched_yield_lem k)

module _ (k : Kernel) where
  resume_or_yield : Option ℕ → Outcome (Unit {0})
  resume_or_yield none = sched_yield k
  resume_or_yield (some c) =
      if (k.envs c).env_status == status_running then env_run c k else sched_yield k

  resume_or_yield-NoReturn : (o : Option ℕ) → NoReturn (resume_or_yield o)
  unfolding resume_or_yield
  resume_or_yield-NoReturn none = sched_yield-NoReturn k
  resume_or_yield-NoReturn (some c) = elim (Bool-cases ((k.envs c).env_status == status_running)) [
    | inl e ↦ rw e (env_run-NoReturn c k)
    | inr e ↦ rw e (sched_yield-NoReturn k)
  ]

  leave_trap-NoReturn : NoReturn (leave_trap k)
  unfolding leave_trap resume_or_yield
  leave_trap-NoReturn = resume_or_yield-NoReturn k.curenv

-- `trap` returns to its caller for no frame and in no state: it enters an environment, stays in the
-- monitor, panics, faults, or spins on the lock.
pub trap-NoReturn :
    (fault_va : ℕ) (leaves : Bool) (tf : Trapframe) (k : Kernel)
    → NoReturn (trap fault_va leaves tf k)
unfolding trap
trap-NoReturn fault_va leaves tf k =
    NoReturn-and_then ((if tf.tf_cs % 4 == 3 then enter_kernel tf else pure tt) k) _ λ _ k'.
      NoReturn-and_then (trap_dispatch fault_va leaves tf k') (λ _. leave_trap)
        λ _ k''. leave_trap-NoReturn k''
