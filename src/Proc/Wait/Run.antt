-- ===== src/Proc/Wait/Run.antt =====
-- kernel/src/proc.c: a consistent table stays so when a process leaves the CPU and another gets it.
use tiny_os_qemu.Base.{ℕ, ◌<◌, ◌≡◌, ◌≢◌, refl, arith, ap, sym, ◌∙◌, ==_refl}
use mathlib.Core.Path.{subst, subst₂}
use native.Mathlib.Decide.{ℕ_discrete}
use tiny_os_qemu.Base.Exec.{Post}
use tiny_os_qemu.Proc.State.{Kernel, Proc, Status, Context, proc_num, set_status}
use tiny_os_qemu.Proc.Table.{proc_run, schedule, proc_yield}
use tiny_os_qemu.Proc.Schedule.{saved, saved-ready, schedule_runs-IsNext, slot_at}
use tiny_os_qemu.Proc.Wait.{
  Waiting, SemAgrees, IsLive, zombies, IsParked, IsRunning, SameBut, Core, waiting_of, parked,
  running,
}
use tiny_os_qemu.Proc.Wait.Move.{IsConsistent-SameBut}

pub runs-IsLive : {s : Status} → s ≡ Status.running → IsLive s
runs-IsLive e = ground arith

ready_not_blocked : {s : Status} → s ≡ Status.ready → s ≢ Status.blocked
ready_not_blocked e = ground arith

pub runs_not_blocked : {s : Status} → s ≡ Status.running → s ≢ Status.blocked
runs_not_blocked e = ground arith

slot_at-lt : (i d : ℕ) → slot_at i d < proc_num
slot_at-lt i d = omega arith

module _ {S : Type 0} where
  run-SameBut : (m : ℕ) (k : Kernel S) → SameBut m k (proc_run m k)
  unfolding proc_run
  run-SameBut m k = record { others = λ j e. ground arith; lists = λ u. refl }

  run_slot :
      (m : ℕ) (k : Kernel S)
      → ((proc_run m k).pcb m ≡ record (k.pcb m) { status = Status.running })
        × ((proc_run m k).curr ≡ m)
  unfolding proc_run
  run_slot m k = (ground arith, refl)

  pub status_elsewhere :
      (i j : ℕ) (k t : Kernel S) → SameBut i k t → j ≢ i → (t.pcb j).status ≡ (k.pcb j).status
  status_elsewhere i j k t s e = ap (λ (c : Core). c.status) (s.others j e)

  ctx_elsewhere : (i j : ℕ) (k t : Kernel S) → SameBut i k t → j ≢ i → (t.pcb j).ctx ≡ (k.pcb j).ctx
  ctx_elsewhere i j k t s e = ap (λ (c : Core). c.ctx) (s.others j e)

  pub parked_elsewhere :
      (i p : ℕ) (k t : Kernel S) → SameBut i k t → p ≢ i → parked t p ≡ parked k p
  parked_elsewhere i p k t s e = ap (λ (c : Core). waiting_of c.status c.ctx) (s.others p e)

  pub running_at : (w : Waiting) (k : Kernel S) → running w k k.curr ≡ w
  running_at w k = ground (arith, ==_refl k.curr)

  pub running_off : (w : Waiting) (k : Kernel S) (p : ℕ) → p ≢ k.curr → running w k p ≡ parked k p
  running_off w k p e = ground arith

  -- A READY process that gets the CPU stands to its children as its context says.
  run-IsRunning :
      (m : ℕ) (k : Kernel S)
      → m < proc_num
      → (k.pcb m).status ≡ Status.ready
      → IsParked k
      → IsRunning (waiting_of Status.ready (k.pcb m).ctx) (proc_run m k)
  run-IsRunning m k hm hr park =
      let t = proc_run m k in
      let s = run-SameBut m k in
      let (slot, at) = run_slot m k in
      let runs : (t.pcb m).status ≡ Status.running = ap (λ (p : Proc). p.status) slot in
      record {
        curr_lt = rw at hm;
        curr_runs = rw at runs;
        alone = λ i hi e. elim (ℕ_discrete i m) [
          | yes q ↦ q ∙ sym at
          | no q ↦ absurd (park.none_runs i hi (sym (status_elsewhere m i k t s q) ∙ e))
        ];
        consistent =
            IsConsistent-SameBut s (ground arith) (ground arith) (ap (λ (p : Proc). p.parent) slot)
              (λ u b. absurd (ready_not_blocked hr b.1))
              (λ p e. running_off _ t p (λ q. e (q ∙ at)) ∙ parked_elsewhere m p k t s e)
              (λ _.
                subst₂ (λ v z. SemAgrees v (zombies m k) m z)
                  (ap (λ x. waiting_of x (k.pcb m).ctx) hr
                    ∙ sym (
                        subst
                          (λ x.
                            running (waiting_of Status.ready (k.pcb m).ctx) t x
                            ≡ waiting_of Status.ready (k.pcb m).ctx)
                          at (running_at _ t)))
                  (sym (ap (λ (p : Proc). p.zombie_sem) slot))
                  (park.consistent.waits m hm (ground arith)))
              park.consistent;
      }

  run_ctx : (m : ℕ) (k : Kernel S) → ((proc_run m k).pcb (proc_run m k).curr).ctx ≡ (k.pcb m).ctx
  unfolding proc_run
  run_ctx m k = ground (arith, ==_refl m)

  -- Whoever `schedule` runs, its context says how it stands to its children.
  pub schedule-IsRunning :
      (ctx : Context) (k : Kernel S) (j : ℕ)
      → k.curr < proc_num
      → j < proc_num
      → (k.pcb j).status ≡ Status.ready
      → IsParked (saved ctx k)
      → Post (λ _ t. IsRunning (waiting_of Status.ready (t.pcb t.curr).ctx) t) (schedule ctx k)
  schedule-IsRunning ctx k j hc hj ready park =
      let (m, nx, runs) = schedule_runs-IsNext ctx k j hc hj ready in
      rw runs (
        subst (λ c. IsRunning (waiting_of Status.ready c) (proc_run m (saved ctx k)))
          (sym (run_ctx m (saved ctx k)))
          (run-IsRunning m (saved ctx k)
            (subst (λ x. x < proc_num) (sym nx.place) (slot_at-lt k.curr nx.dist))
            (saved-ready k ctx m ∙ nx.is_ready) park))

  -- The current process gives up the CPU as `t` says.
  pub leave-IsParked :
      (w : Waiting) (k t : Kernel S)
      → SameBut k.curr k t
      → IsLive (t.pcb k.curr).status
      → (t.pcb k.curr).status ≢ Status.running
      → (t.pcb k.curr).parent ≡ (k.pcb k.curr).parent
      → SemAgrees (parked t k.curr) (zombies k.curr k) k.curr (t.pcb k.curr).zombie_sem
      → IsRunning w k
      → IsParked t
  leave-IsParked w k t s live nr par sem r = record {
    none_runs = λ i hi e. elim (ℕ_discrete i k.curr) [
      | yes q ↦ nr (ap (λ j. (t.pcb j).status) (sym q) ∙ e)
      | no q ↦ q (r.alone i hi (sym (status_elsewhere k.curr i k t s q) ∙ e))
    ];
    consistent =
        IsConsistent-SameBut s (runs-IsLive r.curr_runs) live par
          (λ u b. absurd (runs_not_blocked r.curr_runs b.1))
          (λ p e. parked_elsewhere k.curr p k t s e ∙ sym (running_off w k p e)) (λ _. sem)
          r.consistent;
  }

  leave-SameBut :
      (st : Status) (ctx : Context) (k : Kernel S)
      → SameBut k.curr k (saved ctx (set_status k.curr st k))
  leave-SameBut st ctx k = record { others = λ j e. ground arith; lists = λ u. refl }

  pub leave_slot :
      (st : Status) (ctx : Context) (k : Kernel S)
      → (saved ctx (set_status k.curr st k)).pcb k.curr
        ≡ record (k.pcb k.curr) { status = st; ctx = ctx }
  leave_slot st ctx k = ground (arith, ==_refl k.curr)

  yielding_ready :
      (k : Kernel S) → ((set_status k.curr Status.ready k).pcb k.curr).status ≡ Status.ready
  yielding_ready k = ground (arith, ==_refl k.curr)

  -- `proc_yield` by the running process, with the table consistent, always finds a process to run
  -- and leaves the table consistent; that process goes on where its context says.
  pub proc_yield-IsRunning :
      (eax : ℕ) (k : Kernel S)
      → IsRunning Waiting.idle k
      → Post
          (λ _ t. IsRunning (waiting_of Status.ready (t.pcb t.curr).ctx) t)
          (proc_yield (Context.user eax) k)
  unfolding proc_yield
  proc_yield-IsRunning eax k r =
      let t = saved (Context.user eax) (set_status k.curr Status.ready k) in
      let slot = leave_slot Status.ready (Context.user eax) k in
      schedule-IsRunning (Context.user eax) (set_status k.curr Status.ready k) k.curr r.curr_lt
        r.curr_lt (yielding_ready k)
        (leave-IsParked Waiting.idle k t (leave-SameBut _ _ k)
          (subst (λ (p : Proc). IsLive p.status) (sym slot) (ground arith))
          (subst (λ (p : Proc). p.status ≢ Status.running) (sym slot) (ground arith))
          (ap (λ (p : Proc). p.parent) slot)
          (subst
            (λ (p : Proc).
              SemAgrees (waiting_of p.status p.ctx) (zombies k.curr k) k.curr p.zombie_sem)
            (sym slot)
            (subst (λ v. SemAgrees v (zombies k.curr k) k.curr (k.pcb k.curr).zombie_sem)
              (running_at Waiting.idle k)
              (r.consistent.waits k.curr r.curr_lt (runs-IsLive r.curr_runs))))
          r)
