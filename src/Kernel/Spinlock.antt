-- ===== src/Kernel/Spinlock.antt =====
-- kern/spinlock.c: the big kernel lock as the CPU that runs the code sees it.
pub mod Cpus
pub mod Exclusion
use csdi_jos.Common.{ℕ, Bool, true, false, ◌&&◌, none, some, if◌then◌else◌, same_ptr}
use csdi_jos.Kernel.State.{Spinlock, ret, panic, diverge, K}

-- Is this CPU holding the lock?
unfoldable pub holding : Spinlock → (thiscpu : ℕ) → Bool
holding lock thiscpu = lock.locked && same_ptr lock.cpu (some thiscpu)

unfoldable pub spin_initlock : Spinlock
spin_initlock = record { locked = false; cpu = none }

-- One `xchg(&lk->locked, 1)`: the value that it finds, and the lock that it leaves.
unfoldable pub try_acquire : Spinlock → (thiscpu : ℕ) → Bool × Spinlock
try_acquire lock thiscpu =
    (lock.locked, if lock.locked then lock else record { locked = true; cpu = some thiscpu })

unfoldable pub unlock_kernel : K (Unit {0})
unfolding holding
unlock_kernel k =
    if holding k.kernel_lock k.cpunum
    then ret tt (record k { kernel_lock = record { locked = false; cpu = none } })
    else panic

-- The loop of `spin_lock` comes to its end when it finds the lock free. No other CPU takes a step
-- here, so that a lock that another CPU holds is never found free.
unfoldable pub lock_kernel : K (Unit {0})
unfolding holding try_acquire
lock_kernel k =
    if holding k.kernel_lock k.cpunum
    then panic
    else if (try_acquire k.kernel_lock k.cpunum).0
    then diverge
    else ret tt (record k { kernel_lock = (try_acquire k.kernel_lock k.cpunum).1 })
