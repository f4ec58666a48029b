-- ===== src/Stdlib.antt =====
-- common/stdlib.cpp: the kernel's own copies of the C library's functions on memory and text, and
-- the functions that print numbers.
pub mod Memory
pub mod Strings
pub mod Numbers
