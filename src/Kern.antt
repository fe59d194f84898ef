-- ===== src/Kern.antt =====
-- The portable kernel, kern/: the lists that it threads through its static arrays, the process
-- table and the scheduler (proc.c), messages between processes and the system calls (sys.c).
pub mod Links
pub mod State
pub mod Proc
pub mod Sys
