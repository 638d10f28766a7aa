-- ===== src/User.antt =====
-- The library of the user environments, lab4/lib, over the system calls.
pub mod Printing
pub mod Fork
pub mod Ipc
pub mod Examples
