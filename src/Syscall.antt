-- ===== src/Syscall.antt =====
-- kernel/src/syscall.c: the system calls on processes, user semaphores and file descriptors. The
-- copies to user memory (`*status = ...`) are part of the reply.
pub mod Finish
pub mod Wait
pub mod Flows
pub mod Turn
pub mod Release
pub mod Exit
pub mod Machine
pub mod Files
pub mod Descriptors
pub mod Heap
mod Tests
mod Trials
use tiny_os_qemu.Base.{ℕ, Option, none, some, ◌==◌, if◌then◌else◌, update, true, false}
use tiny_os_qemu.Base.Exec.{Exec, pure, ◌>>=◌, ◌>>◌, get, modify, abort}
use tiny_os_qemu.Proc.State.{
  Kernel, Proc, Context, Services, Status, set_proc, set_status, call, dec, minus_one,
}
use tiny_os_qemu.Proc.Sem.{SemRef, Flow, sem_p_down, sem_v, usem_alloc, usem_close}
use tiny_os_qemu.Proc.Table.{
  proc_alloc, proc_free, proc_addready, proc_copycurr, proc_makezombie, proc_findzombie, proc_yield,
  proc_block, proc_allocusem, proc_getusem, proc_allocfile, proc_getfile, schedule,
}

-- What a system call has come to: it returned a value to the process that made it, `sys_wait`
-- also the exit code of the child, or another process runs and the call goes on later.
pub data Reply : Type 0 where
  returned : (eax : ℕ) → Reply
  waited : (pid code : ℕ) → Reply
  switched : Reply

module _ {S : Type 0} where
  abbrev pub fails : Exec (Kernel S) Reply
  fails = pure (Reply.returned minus_one)

  abbrev pub current : Kernel S → Proc
  current k = k.pcb k.curr

  unfoldable pub sys_getpid : Exec (Kernel S) Reply
  sys_getpid k = some (Reply.returned (current k).pid, k)

  unfoldable pub sys_yield : Exec (Kernel S) Reply
  sys_yield = proc_yield (Context.user 0) >> pure Reply.switched

  unfoldable pub sys_fork : Services S → Exec (Kernel S) Reply
  sys_fork v = do
    child ← proc_alloc v
    elim child [
      | none ↦ fails
      | some i ↦ do
        proc_copycurr v i
        modify (proc_addready i)
        k ← get
        pure (Reply.returned (k.pcb i).pid)
    ]

  -- `assert(0)` behind `int $0x81` is never reached: no one readies a zombie.
  unfoldable pub sys_exit : Services S → ℕ → Exec (Kernel S) Reply
  sys_exit v status = do
    k ← get
    proc_makezombie v k.curr status
    schedule (Context.user 0)
    pure Reply.switched

  -- `sys_wait` with the zombie that it has found.
  unfoldable pub collect : Services S → ℕ → Exec (Kernel S) Reply
  collect v z k =
      (do
        proc_free v z
        modify (λ t.
            set_proc t.curr (record (t.pcb t.curr) { child_num = dec (t.pcb t.curr).child_num }) t)
        pure (Reply.waited (k.pcb z).pid (k.pcb z).exit_code))
        k

  -- `sys_wait` behind its `sem_p`.
  unfoldable pub finish_wait : Services S → Exec (Kernel S) Reply
  finish_wait v k = elim (proc_findzombie k.curr k) [ none ↦ none | some z ↦ collect v z k ]

  -- `sem_p`, with `after` as what is left of the system call when it blocks.
  unfoldable pub sem_p : SemRef → Context → Exec (Kernel S) Reply → Exec (Kernel S) Reply
  sem_p r after rest k = elim (sem_p_down r k) [
    | none ↦ none
    | some (f, t) ↦ elim f [
      | Flow.returned ↦ rest t
      | Flow.switched ↦ (proc_block after >> pure Reply.switched) t
    ]
  ]

  unfoldable pub sys_wait : Services S → Exec (Kernel S) Reply
  sys_wait v k =
      if (current k).child_num == 0
      then fails k
      else sem_p (SemRef.zombie_of k.curr) Context.in_wait (finish_wait v) k

  -- What a process does when `proc_run` has switched to it.
  unfoldable pub resume : Services S → Exec (Kernel S) Reply
  resume v k = elim (current k).ctx [
    | Context.user eax ↦ some (Reply.returned eax, k)
    | Context.in_wait ↦ finish_wait v k
    | Context.in_sem_p _ ↦ some (Reply.returned 0, k)
  ]

  unfoldable pub sys_sem_open : ℕ → Exec (Kernel S) Reply
  sys_sem_open value k = elim (proc_allocusem (current k)) [
    | none ↦ fails k
    | some j ↦
        let (got, t) = usem_alloc value k in
        elim got [
          | none ↦ fails t
          | some u ↦ some (
            Reply.returned j,
            set_proc t.curr (record (current t) { usems = update (current t).usems j (some u) }) t,
          )
        ]
  ]

  unfoldable pub sys_sem_p : ℕ → Exec (Kernel S) Reply
  sys_sem_p sem_id k = elim (proc_getusem (current k) sem_id) [
    | none ↦ fails k
    | some u ↦ sem_p (SemRef.user_at u) (Context.in_sem_p u) (pure (Reply.returned 0)) k
  ]

  unfoldable pub sys_sem_v : ℕ → Exec (Kernel S) Reply
  sys_sem_v sem_id k = elim (proc_getusem (current k) sem_id) [
    | none ↦ fails k
    | some u ↦ elim (sem_v (SemRef.user_at u) k) [
      | none ↦ none
      | some t ↦ some (Reply.returned 0, t)
    ]
  ]

  unfoldable pub sys_sem_close : ℕ → Exec (Kernel S) Reply
  sys_sem_close sem_id k = elim (proc_getusem (current k) sem_id) [
    | none ↦ fails k
    | some u ↦
        let t = usem_close u k in
        some (
          Reply.returned 0,
          set_proc t.curr (record (current t) { usems = update (current t).usems sem_id none }) t,
        )
  ]

  unfoldable pub sys_close : Services S → ℕ → Exec (Kernel S) Reply
  sys_close v fd k = elim (proc_getfile (current k) fd) [
    | none ↦ fails k
    | some f ↦
        (do
          call (v.fclose f)
          modify (λ t.
              set_proc t.curr (record (current t) { files = update (current t).files fd none }) t)
          pure (Reply.returned 0))
          k
  ]

  unfoldable pub sys_dup : Services S → ℕ → Exec (Kernel S) Reply
  sys_dup v fd k = elim (proc_allocfile (current k)) [
    | none ↦ fails k
    | some new_fd ↦ elim (proc_getfile (current k) fd) [
      | none ↦ fails k
      | some f ↦
          (do
            g ← call (v.fdup f)
            modify (λ t.
                set_proc t.curr
                  (record (current t) { files = update (current t).files new_fd (some g) }) t)
            pure (Reply.returned new_fd))
            k
    ]
  ]
