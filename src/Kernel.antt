-- ===== src/Kernel.antt =====
-- The kernel of lab4/kern.
pub mod State
pub mod Pages
pub mod Vm
pub mod Spinlock
pub mod Console
pub mod Display
pub mod Envs
pub mod Sched
pub mod Syscall
pub mod Trap
pub mod Load
pub mod Start
pub mod Kdebug
pub mod Debuginfo
pub mod Monitor
pub mod Mpconfig
pub mod Keyboard
pub mod Examples
