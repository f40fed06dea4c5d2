-- ===== src/Syscall/Turn.antt =====
-- kernel/src/syscall.c with `proc_run`: from a system call to the next code of a user process, its
-- own or, when it has switched, that of the process that now runs.
use tiny_os_qemu.Base.{ℕ, ◌<◌, ◌≡◌, ◌≢◌, refl, sym, ◌∙◌, some}
use tiny_os_qemu.Base.Exec.{Exec, Post, Post->>=, Post-mono, ◌>>=◌}
use tiny_os_qemu.Proc.State.{Kernel, Context, Status, Services, proc_num}
use tiny_os_qemu.Proc.Wait.{Waiting, IsRunning, waiting_of}
use tiny_os_qemu.Proc.Wait.Calls.{CanReap}
use tiny_os_qemu.Proc.Wait.Reap.{zombie_parts}
use tiny_os_qemu.Syscall.{Reply, current, resume, finish_wait, sys_wait}
use tiny_os_qemu.Syscall.Finish.{finish_wait-IsRunning}
use tiny_os_qemu.Syscall.Flows.{Settles, returned_here, waited_here}
use tiny_os_qemu.Syscall.Wait.{sys_wait-Keeps}

module _ {S : Type 0} where
  -- What has happened when user code runs again.
  unfoldable pub go_on : Services S → Reply → Exec (Kernel S) Reply
  go_on v Reply.switched k = resume v k
  go_on v r k = some (r, k)

  unfoldable pub turn : Services S → Exec (Kernel S) Reply → Exec (Kernel S) Reply
  turn v m = m >>= go_on v

  -- User code runs, of the caller or of another process, and the table is consistent with it.
  abbrev pub Rests : Reply → Kernel S → Type 0
  Rests r t = (r ≢ Reply.switched) × IsRunning Waiting.idle t

  resume_in :
      (v : Services S) (k : Kernel S) (c : Context)
      → CanReap v k
      → (current k).ctx ≡ c
      → IsRunning (waiting_of Status.ready c) k
      → Post Rests (resume v k)
  unfolding resume
  resume_in v k (Context.user eax) can e r = rw (e, resume) (returned_here eax, r)
  resume_in v k Context.in_wait can e r =
      let (z, _, _, p) =
        finish_wait-IsRunning v k (λ z hz was. can z hz (zombie_parts k.curr (k.pcb z) was).0) r in
      rw (e, resume)
        (Post-mono _ Rests (finish_wait v k)
          (λ a t (q, _, x). ((λ y. waited_here _ _ (sym q ∙ y)), x)) p)
  resume_in v k (Context.in_sem_p u) can e r = rw (e, resume) (returned_here 0, r)

  -- If the services can free every zombie, a process that gets the CPU with the table consistent
  -- reaches user code, wherever it was suspended, and leaves the table consistent.
  resume-IsRunning :
      (v : Services S) (k : Kernel S)
      → CanReap v k
      → IsRunning (waiting_of Status.ready (current k).ctx) k
      → Post Rests (resume v k)
  resume-IsRunning v k can r = resume_in v k _ can refl r

  go_on-IsRunning :
      (v : Services S) (a : Reply) (t : Kernel S) → Settles v a t → Post Rests (go_on v a t)
  unfolding go_on
  go_on-IsRunning v (Reply.returned eax) t (r, c) = (returned_here eax, r)
  go_on-IsRunning v (Reply.waited pid code) t (r, c) = (waited_here pid code, r)
  go_on-IsRunning v Reply.switched t (r, c) = resume-IsRunning v t (c refl) r

  -- A system call that keeps the table consistent does so up to the next user code.
  pub turn-IsRunning :
      (v : Services S) (m : Exec (Kernel S) Reply) (k : Kernel S)
      → Post (Settles v) (m k)
      → Post Rests (turn v m k)
  unfolding turn
  turn-IsRunning v m k p =
      Post->>= (Settles v) Rests m (go_on v) k p (λ a t q. go_on-IsRunning v a t q)

  -- If the services take back the page directory and the kernel stack of each zombie of the table
  -- from this state on, a list node is free, some process is READY and the table is consistent, then
  -- `sys_wait` completes and user code runs next, of the caller with its result or of another
  -- process, with the table consistent.
  pub turn-sys_wait :
      (v : Services S) (k : Kernel S) (j : ℕ)
      → CanReap v k
      → k.free_nodes ≢ 0
      → j < proc_num
      → (k.pcb j).status ≡ Status.ready
      → IsRunning Waiting.idle k
      → Post Rests (turn v (sys_wait v) k)
  turn-sys_wait v k j can free hj ready r =
      turn-IsRunning v (sys_wait v) k (sys_wait-Keeps v k j can free hj ready r)
