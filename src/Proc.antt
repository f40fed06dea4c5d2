-- ===== src/Proc.antt =====
-- kernel/src/proc.c and kernel/src/sem.c: the process table, semaphores and the scheduler.
-- The page tables and the open files are reached through `Services`.
pub mod State
pub mod Sem
pub mod Table
pub mod Fair
pub mod Schedule
pub mod Wait
pub mod Down
