-- ===== src/Library.antt =====
-- The library of lab4/lib that the kernel and the user programs share.
pub mod Memory
pub mod Strings
pub mod Readline
pub mod Numbers
pub mod Samples
pub mod Printing
pub mod Texts
pub mod Escapes
pub mod Formats
pub mod Buffers
