-- ===== src/Lib.antt =====
-- tinyOS-qemu, a small x86 kernel: its process table, semaphores, system calls, block cache,
-- file system and virtual memory; its C library; the parser of its shell; the builder of its
-- disk image; and one of its exercises.
-- kernel/src/syscall.c enters kernel/src/proc.c (processes, schedule) and kernel/src/sem.c
-- (semaphores with wait lists); proc.c calls kernel/src/vme.c for pages and kernel/src/file.c
-- and kernel/src/fs.c for open files and directories; fs.c reads and writes blocks through
-- kernel/src/disk.c.
--
-- Which file models what:
-- - Base: native numbers, tests, lists, byte buffers. Base.Exec: kernel code as a function from
--   a state to `none` (a failed assert, a panic, a fault, a loop that never ends) or to a result
--   and a state. `Post P o` says that the code completes and that `P` holds of the outcome.
--   Base.Tally: counting indices.
-- - Disk: kernel/src/disk.c. `Disk` holds the sectors and the 16 entries of the cache; `bread`,
--   `bwrite`, `bzero`, `bgetcache` are its functions. Disk.Store relates them to a plain array
--   of blocks.
-- - Proc.State: kernel/include/proc.h and sem.h. `Kernel` holds the PCBs, the current one, the
--   user semaphores and the number of free list nodes. Pointers to PCBs are indices. `Services`
--   are the functions of vme.c, file.c and fs.c that proc.c calls, over a state of their own.
-- - Proc.Sem: kernel/src/sem.c. Proc.Table: kernel/src/proc.c, one definition for each function.
--   Proc.Schedule: the round-robin scan. Proc.Down: the branches of `sem_p` and `sem_v`.
-- - Proc.Wait and its children: the invariant that ties each process's zombies to its semaphore,
--   and what keeps it. Proc.Wait.Calls: `CanFree` and `CanReap`, the hypotheses that the
--   services take back the memory of dead processes from one given state on. Proc.Wait.Held:
--   what stays of a process's fields while another one dies.
-- - Syscall: kernel/src/syscall.c, the calls on processes, semaphores and descriptors. A system
--   call that blocks is cut in two: `Reply.switched` with a `Context` that says where the
--   process goes on, and `resume`, the part behind it.
-- - File: kernel/src/file.c and `dev_get` of kernel/src/dev.c, on top of Fs; what the devices do
--   is the parameter `Devices`.
-- - Fs.State, Fs.Blocks, Fs.Inodes, Fs.Paths: kernel/src/fs.c without EASY_FS, on top of Disk:
--   words and inodes in blocks, the bitmap, the table of active inodes, iread and iwrite, paths
--   and directories, one definition for each function. `cwd` is the working directory of the
--   current process; `junk` is what a `dirent_t` on the stack holds before it is written. A loop
--   over the blocks of a transfer takes as many rounds as bytes are left (Fs.Inodes.Fuel), one
--   over a directory as many as the directory has bytes, one over a path as many as the path has
--   bytes and one more.
-- - Vme: kernel/src/vme.c and the paging part of kernel/include/x86/memory.h. `Vm` has the words
--   of physical memory, the head of the free pages and CR3; an access outside [4096, PHY_MEM)
--   counts as a fault. Vme.Pages: kalloc, kfree, init_page; Vme.Tables: page directories.
--   Vme.Space: `lookup` is the entry that the processor finds for an address, `IsSpace` says
--   that a directory's tables are apart from each other and from the free pages. Proc takes
--   these functions as services.
-- - Queue: kernel/klib/list.c, the rings of nodes by their `prev` and `next` pointers.
--   Queue.Refine has the contract that Proc.Sem stands on: a queue of values and a number of
--   free nodes.
-- - Console: the input buffer of kernel/src/serial.c, with the semaphore as the number of units
--   that are not taken; a read that would wait changes nothing; an int that would be counted up
--   to 2 ^ 31 is `none`. Console.Safe: arriving bytes and reads in any order. Console.Reads:
--   serial_read, which stops where it has to wait, with what it needs to go on. The port is the
--   list of the bytes that it has ready.
-- - Str.Copy, Str.Scan, Str.Compare, Str.Token: lib/src/string, one definition for each
--   function, on a memory of bytes (`Bytes`). Num: lib/src/stdlib/utoa.c and itoa.c; Num.Parse:
--   strtol.c, strtoul.c, atoi.c and rand.c. Where the code runs to the end of a string, a first
--   argument bounds the bytes that are looked at, and `none` is a string that does not end
--   within them.
-- - Stdio: lib/src/stdio.c. `number`, `eaddr` and `iaddr` give the characters that they write;
--   Stdio.Format is `vsprintf`, on the list of the characters of the format and the list of the
--   arguments, with fuel for a round for each character. A width or a precision in a format is a
--   number, as long as it stays below 2 ^ 31. An argument of another kind than the one that is
--   asked for, or none at all, is `undefined`.
-- - Proc.Fair: turns of the CPU in kernel/src/proc.c, each of which ends in proc_yield or
--   proc_block.
-- - Syscall.Machine: open files and virtual memory together, as the services that proc.c calls.
--   Syscall.Files: the calls of kernel/src/syscall.c on files, directories and the heap, on that
--   machine. proc_run loads the page directory of the process into CR3 by a privileged
--   instruction; in the model CR3 is that of Vme, and what depends on it says so as a
--   hypothesis. A path or a buffer of the user is a list or bytes. Syscall.Release: the calls by
--   which a dying process gives back its files; Syscall.Finish, Syscall.Wait, Syscall.Turn,
--   Syscall.Exit: sys_wait and sys_exit up to the next user code. Syscall.Descriptors: sys_open,
--   sys_dup and sys_close; Syscall.Heap: sys_brk.
-- - Sh: the shell of user/src/phase6/sh.c: its tokens on a memory of bytes, its commands, and
--   nulterminate. Sh.Parse: the recursive descent, with `Result.panic` where the source calls
--   panic and with fuel for the calls. Sh.Words: what gettoken and peek take; Sh.Sound: the
--   words of a parsed command; Sh.Ends: parsecmd as a whole.
-- - Input: user/ulib/scanf.c, the buffer of descriptor 0, getchar, gets and getline. What the
--   calls of `read` deliver is a list in the state, an argument of the definitions, and a `read`
--   behind it returns 0; a `read` that fails is not modelled. Input.Reads: the buffer as a plain
--   list of bytes; Input.Lines: the lines of that list. Input.Scan: scanf, with fuel for the
--   loops that drop bytes.
-- - Mkfs: utils/mkfs.c. `Image` has the inodes, which only `iget` reaches, and the data blocks
--   by their number, with the static variables of balloc and ialloc; `dirent_t` values on the
--   stack start as the parameter `junk`, and the name is what basename gives. The loops of
--   iappend and add_file take as many rounds as bytes are left. Mkfs.Place: `IsImage`, which
--   says what each block is used for, and `lookup`, the block of a file; Mkfs.Grow: a file gets
--   a block more; Mkfs.Walk: iwalk; Mkfs.Write: the bytes of the files; Mkfs.Append, Mkfs.Files,
--   Mkfs.Layout: iappend, add_file, init_disk.
-- - Condition: the exercise lab/lab8/condition_sem.c, a condition variable made of POSIX
--   semaphores, with producers and consumers. `step` is one step of a thread: one call on a
--   semaphore, one read or one write of a shared variable; `run` takes the steps of a schedule,
--   an arbitrary list of thread numbers. A semaphore is its value; an error of a semaphore call
--   and an overflow of a counter are left out. Condition.Inside and Condition.Safe: the mutex
--   and the buffer; Condition.Wakes and Condition.Effects: what one step does to the waiting
--   threads; Condition.Broadcast: the handshake.
-- Bounds: an int or uint32_t is its 32-bit pattern, with wrap-around by `% 2 ^ 32`; only where
-- Console counts an int up too far the result is `none`, since C leaves it undefined. The tables
-- have the source's sizes (64 processes, 128 user semaphores, 256 list nodes, 32 descriptors).
-- The loop of `schedule` is cut after one round of 64 slots: nothing changes while it runs, so
-- after a round without a READY process it never ends.
--
-- Not modelled: interrupts (the kernel runs with them off) and the timer, ports of the drive and
-- the console, the loader, the system calls sys_sleep and sys_exec, of the user programs and
-- their library all but the parser of the shell and scanf.c, utils/genuser.c, and the other
-- exercises under lab/.
pub mod Base
pub mod Disk
pub mod Proc
pub mod Syscall
pub mod Fs
pub mod File
pub mod Str
pub mod Num
pub mod Vme
pub mod Queue
pub mod Console
pub mod Sh
pub mod Stdio
pub mod Condition
pub mod Input
pub mod Mkfs
