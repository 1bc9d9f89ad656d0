-- ===== src/Libc.antt =====
-- libc/: the number conversions and formatted output of stdio/printf.c, and string/.
pub mod Itoa
pub mod Memory
pub mod Printf
