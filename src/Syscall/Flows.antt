-- ===== src/Syscall/Flows.antt =====
-- kernel/src/syscall.c: system calls that go through `sem_p`, by what `sem_p` does.
use tiny_os_qemu.Base.{ℕ, ◌≢◌, ◌≡◌, refl, some}
use tiny_os_qemu.Base.Exec.{Exec, Post, Post->>=, ◌>>◌, pure}
use tiny_os_qemu.Proc.State.{Kernel, Context, Status, Services}
use tiny_os_qemu.Proc.Sem.{SemRef, Flow, sem_p_down}
use tiny_os_qemu.Proc.Table.{proc_block}
use tiny_os_qemu.Proc.Wait.{Waiting, IsRunning, waiting_of}
use tiny_os_qemu.Proc.Wait.Calls.{CanReap}
use tiny_os_qemu.Syscall.{Reply, sem_p}

-- How the process that is now current stands to its children.
abbrev pub stands : {S : Type 0} → Reply → Kernel S → Waiting
stands Reply.switched k = waiting_of Status.ready (k.pcb k.curr).ctx
stands _ k = Waiting.idle

-- What every system call preserves.
abbrev pub Keeps : {S : Type 0} → Reply → Kernel S → Type 0
Keeps r t = IsRunning (stands r t) t

-- And, if another process runs, that the services can still free every zombie.
abbrev pub Settles : {S : Type 0} → Services S → Reply → Kernel S → Type 0
Settles v r t = Keeps r t × (r ≡ Reply.switched → CanReap v t)

pub returned_here : (eax : ℕ) → Reply.returned eax ≢ Reply.switched
returned_here eax e = cc

pub waited_here : (pid code : ℕ) → Reply.waited pid code ≢ Reply.switched
waited_here pid code e = cc

module _ {S : Type 0} (v : Services S) (r : SemRef) (after : Context) (rest : Exec (Kernel S) Reply)
    (k : Kernel S) where
  pub sem_p-returned :
      (t : Kernel S) → sem_p_down r k ≡ some (Flow.returned, t) → sem_p r after rest k ≡ rest t
  unfolding sem_p
  sem_p-returned t e = rw (e, sem_p) refl

  sem_p-switched :
      (t : Kernel S)
      → sem_p_down r k ≡ some (Flow.switched, t)
      → sem_p r after rest k ≡ (proc_block after >> pure Reply.switched) t
  unfolding sem_p
  sem_p-switched t e = rw (e, sem_p) refl

  -- Blocking leaves the table as `proc_block` does.
  pub Post-sem_p_switched :
      (t : Kernel S)
      → sem_p_down r k ≡ some (Flow.switched, t)
      → Post (λ _ u. Keeps Reply.switched u × CanReap v u) (proc_block after t)
      → Post (Settles v) (sem_p r after rest k)
  Post-sem_p_switched t e p = rw (sem_p-switched t e) (
      Post->>= (λ _ u. Keeps Reply.switched u × CanReap v u) (Settles v) (proc_block after)
        (λ _. pure Reply.switched) t p (λ _ u (q, c). (q, λ _. c)))
