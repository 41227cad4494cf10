-- ===== src/Libc.antt =====
-- The C library of user programs, userspace/src/libc, and the strings of userspace/src/ulib.
pub mod Strings
pub mod Numbers
pub mod Format
