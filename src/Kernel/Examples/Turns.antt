-- ===== src/Kernel/Examples/Turns.antt =====
-- The bound on the wait of an environment, on the small machine.
use csdi_jos.Common.{ℕ, ◌<◌, ◌≡◌, ◌⊎◌, refl, some, arith}
use csdi_jos.Kernel.State.{Kernel, enter, set_env, status_runnable}
use csdi_jos.Kernel.State.Layout.{n_env}
use csdi_jos.Kernel.Spinlock.{holding}
use csdi_jos.Kernel.Syscall.Ipc.{start_recv}
use csdi_jos.Kernel.Sched.{sched_yield}
use csdi_jos.Kernel.Sched.Fair.{Ready, PassedOver, start, again, sched_yield_fair}
use csdi_jos.Kernel.Examples.{machine, blank}

-- The machine with another runnable environment, in slot 2.
abbrev two_runnable : Kernel
two_runnable =
    set_env 2 (record blank { env_id = 4098; env_status = status_runnable; env_pgdir = some 2 })
      machine

-- Environment 2 has been entered, and has called the kernel.
abbrev second_turn : Kernel
second_turn = record two_runnable { curenv = some 2 }

two_runnable-Ready : Ready two_runnable 4
unfolding holding start_recv
two_runnable-Ready = record {
  slot = omega arith;
  runnable = refl;
  held = refl;
  directory = λ i h. (2, ground (arith, h));
}

second_turn-Ready : Ready second_turn 4
unfolding holding start_recv
second_turn-Ready = record {
  slot = omega arith;
  runnable = refl;
  held = refl;
  directory = λ i h. (2, ground (arith, h));
}

passed_once : PassedOver 4 1 two_runnable second_turn
unfolding sched_yield start_recv
passed_once =
    again 0 2 two_runnable two_runnable _ second_turn (start two_runnable) two_runnable-Ready refl
      (omega arith) refl refl

sched_yield_fair_example :
    (c : ℕ) × (k : Kernel) × (sched_yield second_turn ≡ enter c k)
    × (((c ≡ 4) × (1 < n_env)) ⊎ (2 < n_env))
sched_yield_fair_example = sched_yield_fair passed_once second_turn-Ready
