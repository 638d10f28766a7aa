-- ===== src/Kernel/Examples/Locks.antt =====
-- The lock with three CPUs that take their steps in some order.
use csdi_jos.Common.{[], ◌∷◌}
use csdi_jos.Kernel.Spinlock.Cpus.{run, start}
use csdi_jos.Kernel.Spinlock.Exclusion.{Exclusive, run-Exclusive}

run-Exclusive_example : Exclusive (run (0 ∷ 1 ∷ 0 ∷ 1 ∷ 0 ∷ 1 ∷ 2 ∷ 0 ∷ 0 ∷ 1 ∷ 1 ∷ []) start)
run-Exclusive_example = run-Exclusive (0 ∷ 1 ∷ 0 ∷ 1 ∷ 0 ∷ 1 ∷ 2 ∷ 0 ∷ 0 ∷ 1 ∷ 1 ∷ [])
