-- ===== src/Libc.antt =====
-- src/kernel/libc: the string and memory functions, and the printing of numbers.
pub mod Strings
pub mod Format
