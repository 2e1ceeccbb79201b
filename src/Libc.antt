-- ===== src/Libc.antt =====
-- kernel/src/misc/libc.c: bytes in memory, C strings, and the conversion of numbers to text.
pub mod Memory
pub mod Strings
pub mod Number
pub mod Integers
pub mod Format
