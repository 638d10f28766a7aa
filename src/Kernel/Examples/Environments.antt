-- ===== src/Kernel/Examples/Environments.antt =====
-- The theorems about environments, the scheduler and the console on the small machine.
use csdi_jos.Common.{◌≡◌, ◌↔◌, refl, true, some, [], ◌∷◌, arith}
use csdi_jos.Kernel.State.{ret}
use csdi_jos.Kernel.State.Returns.{Returns}
use csdi_jos.Kernel.Console.{cons_getc}
use csdi_jos.Kernel.Console.Buffer.{Queue, Answers, cons_getc-Answers}
use csdi_jos.Kernel.Envs.{envid2env, env_alloc}
use csdi_jos.Kernel.Envs.Ids.{Resolves, envid2env_iff}
use csdi_jos.Kernel.Envs.Create.{Allocs, env_alloc_lem}
use csdi_jos.Kernel.Sched.{sched_yield}
use csdi_jos.Kernel.Sched.Choice.{Decides, sched_yield_lem}
use csdi_jos.Kernel.Examples.{machine, machine-FreeList, machine-EnvLinks}

envid2env_iff_example :
    (envid2env 4096 true machine ≡ ret (0, some 0) machine) ↔ Resolves machine 4096 true 0 0
envid2env_iff_example = envid2env_iff machine 4096 true 0 refl 0 (omega arith)

env_alloc_lem_example : Allocs machine 4096 (2 ∷ 3 ∷ []) (3 ∷ 4 ∷ []) (env_alloc 4096 machine)
env_alloc_lem_example =
    env_alloc_lem 4096 (2 ∷ 3 ∷ []) (3 ∷ 4 ∷ []) machine-EnvLinks ((omega arith, tt), (tt, tt))
      ((omega arith, omega arith), ((omega arith, omega arith), tt)) machine-FreeList (omega arith)
      (omega arith, (omega arith, tt))

sched_yield_lem_example : Decides machine (sched_yield machine)
sched_yield_lem_example = sched_yield_lem machine

-- One character waits at the end of the buffer.
machine-Queue : Queue machine.cons (65 ∷ [])
machine-Queue = record { inside = omega arith; fits = omega arith; end = refl; stored = (refl, tt) }

cons_getc-Answers_example : Returns (λ r k'. Answers (65 ∷ 66 ∷ []) r k'.cons) (cons_getc machine)
cons_getc-Answers_example = cons_getc-Answers machine (65 ∷ []) machine-Queue (omega arith)
