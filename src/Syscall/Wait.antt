-- ===== src/Syscall/Wait.antt =====
-- kernel/src/syscall.c, `sys_wait`: it returns with a child or leaves the process asleep.
use tiny_os_qemu.Base.{
  ℕ, ◌<◌, ◌≤◌, ◌≡◌, ◌≢◌, refl, true, false, [], ◌∷◌, ◌++◌, arith, ap, sym, ◌∙◌, ◌==◌, ==_refl,
  Bool-cases, inl, inr,
}
use mathlib.Core.Path.{subst}
use native.Mathlib.Decide.{ℕ_discrete}
use tiny_os_qemu.Base.Exec.{Post, Post-mono, Post-both}
use tiny_os_qemu.Base.Tally.{tally-le}
use tiny_os_qemu.Proc.Wait.Calls.{
  CanReap, CanReap-SamePages, SamePages, SamePages-trans, schedule-SamePages,
}
use tiny_os_qemu.Proc.State.{
  Kernel, Proc, Sem, Status, Services, Context, set_status, dec, proc_num, is_negative,
}
use tiny_os_qemu.Proc.Down.{queue, lower, down_blocks, down-none, down_returns}
use tiny_os_qemu.Proc.Sem.{SemRef, put_sem}
use tiny_os_qemu.Proc.Table.{proc_block, is_zombie_of, schedule}
use tiny_os_qemu.Proc.Schedule.{saved}
use tiny_os_qemu.Proc.Wait.{
  Waiting, SemAgrees, IsLive, zombies, IsRunning, IsParked, SameBut, waiting_of, running,
}
use tiny_os_qemu.Proc.Wait.Reap.{zombie_parts}
use tiny_os_qemu.Proc.Wait.Move.{IsConsistent-SameBut}
use tiny_os_qemu.Proc.Wait.Run.{
  running_at, running_off, runs-IsLive, runs_not_blocked, parked_elsewhere, schedule-IsRunning,
  leave-IsParked,
}
use tiny_os_qemu.Syscall.{Reply, current, finish_wait, sem_p, sys_wait}
use tiny_os_qemu.Syscall.Flows.{
  Keeps, Settles, returned_here, waited_here, sem_p-returned, Post-sem_p_switched,
}
use tiny_os_qemu.Syscall.Finish.{finish_wait-IsRunning}

abbrev with_sem : {S : Type 0} → Sem → Kernel S → Kernel S
with_sem s k = put_sem (SemRef.zombie_of k.curr) s k

module _ {S : Type 0} (k : Kernel S) (r : IsRunning Waiting.idle k) where
  own : SemAgrees Waiting.idle (zombies k.curr k) k.curr (k.pcb k.curr).zombie_sem
  own =
      subst (λ w. SemAgrees w (zombies k.curr k) k.curr (k.pcb k.curr).zombie_sem)
        (running_at Waiting.idle k) (r.consistent.waits k.curr r.curr_lt (runs-IsLive r.curr_runs))

  small : zombies k.curr k ≤ proc_num
  small = tally-le proc_num (λ i. is_zombie_of k.curr (k.pcb i))

  with_sem-SameBut : (s : Sem) → SameBut k.curr k (with_sem s k)
  with_sem-SameBut s = record { others = λ j e. ground arith; lists = λ u. refl }

  with_sem_slot : (s : Sem) → (with_sem s k).pcb k.curr ≡ record (k.pcb k.curr) { zombie_sem = s }
  with_sem_slot s = ground (arith, ==_refl k.curr)

  -- A change of the current process's semaphore.
  with_sem-IsRunning :
      (w : Waiting) (s : Sem) → SemAgrees w (zombies k.curr k) k.curr s → IsRunning w (with_sem s k)
  with_sem-IsRunning w s a = record {
    curr_lt = r.curr_lt;
    curr_runs = ap (λ (p : Proc). p.status) (with_sem_slot s) ∙ r.curr_runs;
    alone = λ i hi e. r.alone i hi (ground arith);
    consistent =
        IsConsistent-SameBut (with_sem-SameBut s) (runs-IsLive r.curr_runs)
          (subst (λ (p : Proc). IsLive p.status) (sym (with_sem_slot s)) (runs-IsLive r.curr_runs))
          (ap (λ (p : Proc). p.parent) (with_sem_slot s))
          (λ u b. absurd (runs_not_blocked r.curr_runs b.1))
          (λ p e.
            running_off w (with_sem s k) p e
            ∙ parked_elsewhere k.curr p k (with_sem s k) (with_sem-SameBut s) e
            ∙ sym (running_off Waiting.idle k p e))
          (λ _.
            subst
              (λ (p : Proc).
                SemAgrees (running w (with_sem s k) k.curr) (zombies k.curr k) k.curr p.zombie_sem)
              (sym (with_sem_slot s))
              (subst (λ v. SemAgrees v (zombies k.curr k) k.curr s)
                (sym (running_at w (with_sem s k))) a))
          r.consistent;
  }

  abbrev sem : Sem
  sem = (k.pcb k.curr).zombie_sem

  -- The semaphore after the decrement, and with the process behind it in the wait list.
  abbrev lowered : Sem
  lowered = record sem { value = dec sem.value }

  abbrev queued : Sem
  queued = record lowered { wait_list = sem.wait_list ++ k.curr ∷ [] }

  abbrev own_ref : SemRef
  own_ref = SemRef.zombie_of k.curr

  sleeps : Kernel S
  sleeps =
      saved Context.in_wait
        (set_status k.curr Status.blocked (queue own_ref k.curr (lower own_ref k)))

  sleeps-SameBut : SameBut k.curr k sleeps
  unfolding sleeps
  sleeps-SameBut = record { others = λ j e. ground arith; lists = λ u. refl }

  sleeps_slot : sleeps.pcb k.curr ≡ record (k.pcb k.curr) {
    status = Status.blocked;
    ctx = Context.in_wait;
    zombie_sem = queued;
  }
  unfolding sleeps
  sleeps_slot = ground (arith, ==_refl k.curr)

  sleeps-IsParked : zombies k.curr k ≡ 0 → IsParked sleeps
  sleeps-IsParked z =
      leave-IsParked Waiting.idle k sleeps sleeps-SameBut
        (subst (λ (p : Proc). IsLive p.status) (sym sleeps_slot) (ground arith))
        (subst (λ (p : Proc). p.status ≢ Status.running) (sym sleeps_slot) (ground arith))
        (ap (λ (p : Proc). p.parent) sleeps_slot)
        (subst
          (λ (p : Proc).
            SemAgrees (waiting_of p.status p.ctx) (zombies k.curr k) k.curr p.zombie_sem)
          (sym sleeps_slot) (z, omega (arith, own), ap (λ l. l ++ k.curr ∷ []) own.1))
        r

  blocks_iff : zombies k.curr k ≡ 0 → is_negative (dec sem.value) ≡ true
  blocks_iff h = ground (arith, own)

  returns_iff : zombies k.curr k ≢ 0 → is_negative (dec sem.value) ≡ false
  returns_iff h = ground (arith, own, small)

  lower-IsRunning : zombies k.curr k ≢ 0 → IsRunning Waiting.woken (lower own_ref k)
  lower-IsRunning h = with_sem-IsRunning Waiting.woken lowered (ground (arith, own, small), own.1)

module _ {S : Type 0} (v : Services S) (k : Kernel S) (j : ℕ) (can : CanReap v k)
    (free : k.free_nodes ≢ 0) (hj : j < proc_num) (ready : (k.pcb j).status ≡ Status.ready)
    (r : IsRunning Waiting.idle k) where
  other : j ≢ k.curr
  other e = absurd (ground (arith, ready, r.curr_runs, ap (λ i. (k.pcb i).status) e))

  other_ready :
      ((set_status k.curr Status.blocked (queue (own_ref k r) k.curr (lower (own_ref k r) k))).pcb
        j).status
      ≡ Status.ready
  other_ready = ground (arith, other)

  lower-SamePages : SamePages k (lower (own_ref k r) k)
  lower-SamePages = record {
    rest = refl;
    pgdirs = λ z. ground arith;
    kstacks = λ z. ground arith;
    zombie = λ z e. ground arith;
  }

  sleeping-SamePages :
      SamePages k
        (set_status k.curr Status.blocked (queue (own_ref k r) k.curr (lower (own_ref k r) k)))
  sleeping-SamePages = record {
    rest = refl;
    pgdirs = λ z. ground arith;
    kstacks = λ z. ground arith;
    zombie = λ z e. ground arith;
  }

  finish-Keeps :
      IsRunning Waiting.woken (lower (own_ref k r) k)
      → Post (Settles v) (finish_wait v (lower (own_ref k r) k))
  finish-Keeps w =
      let (z, _, _, p) =
        finish_wait-IsRunning v (lower (own_ref k r) k)
          (λ z hz was.
            CanReap-SamePages v k (lower (own_ref k r) k) lower-SamePages can z hz
              (zombie_parts k.curr ((lower (own_ref k r) k).pcb z) was).0)
          w in
      Post-mono _ (Settles v) (finish_wait v (lower (own_ref k r) k))
        (λ a t (e, _, q). subst (λ x. Settles v x t) (sym e) (q, λ x. absurd (waited_here _ _ x))) p

  block-Keeps :
      zombies k.curr k ≡ 0
      → Post
          (λ _ u. Keeps Reply.switched u × CanReap v u)
          (proc_block Context.in_wait (queue (own_ref k r) k.curr (lower (own_ref k r) k)))
  unfolding proc_block sleeps
  block-Keeps z =
      let s =
        set_status k.curr Status.blocked (queue (own_ref k r) k.curr (lower (own_ref k r) k)) in
      Post-both (λ _ u. Keeps Reply.switched u) (λ _ u. CanReap v u) (schedule Context.in_wait s)
        (schedule-IsRunning Context.in_wait s j r.curr_lt hj other_ready (sleeps-IsParked k r z))
        (Post-mono _ _ (schedule Context.in_wait s)
          (λ _ u q. CanReap-SamePages v k u (SamePages-trans k s u sleeping-SamePages q) can)
          (schedule-SamePages Context.in_wait s j r.curr_lt hj other_ready))

  claim-Keeps : Post (Settles v) (sem_p (SemRef.zombie_of k.curr) Context.in_wait (finish_wait v) k)
  claim-Keeps = elim (ℕ_discrete (zombies k.curr k) 0) [
    | yes z ↦ elim (down_blocks (SemRef.zombie_of k.curr) k (blocks_iff k r z)) [
      | inl e ↦ absurd (down-none (SemRef.zombie_of k.curr) k free (blocks_iff k r z) e)
      | inr e ↦
          Post-sem_p_switched v (SemRef.zombie_of k.curr) Context.in_wait (finish_wait v) k _ e
            (block-Keeps z)
    ]
    | no n ↦
        rw
          (sem_p-returned v (SemRef.zombie_of k.curr) Context.in_wait (finish_wait v) k _
            (down_returns (SemRef.zombie_of k.curr) k (returns_iff k r n)))
          (finish-Keeps (lower-IsRunning k r n))
  ]

  -- If the services can free every zombie, the pool of list nodes is not empty, some process is READY
  -- and the table is consistent, then `sys_wait` of the running process completes, by a reply or by
  -- switching to another process. It leaves the table consistent for the process that then runs, and
  -- when it has switched, the services can still free every zombie.
  pub sys_wait-Keeps : Post (Settles v) (sys_wait v k)
  unfolding sys_wait
  sys_wait-Keeps = elim (Bool-cases ((current k).child_num == 0)) [
    | inl e ↦ rw e (r, λ x. absurd (returned_here _ x))
    | inr e ↦ rw e claim-Keeps
  ]
