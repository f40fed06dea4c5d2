-- ===== src/Proc/Wait/Wake.antt =====
-- kernel/src/proc.c, `proc_makezombie`: the `sem_v` for the parent of the process that dies.
use tiny_os_qemu.Base.{
  ℕ, ◌+◌, ◌<◌, ◌≤◌, ◌≡◌, ◌≢◌, refl, true, false, some, [], arith, ap, sym, ◌∙◌, ==_refl,
}
use mathlib.Core.Path.{subst, subst₂}
use tiny_os_qemu.Proc.State.{Kernel, Sem, Status, Context, proc_num, inc}
use tiny_os_qemu.Proc.Sem.{SemRef}
use tiny_os_qemu.Proc.Table.{orphan}
use tiny_os_qemu.Proc.Down.{raise, wake, wakes}
use tiny_os_qemu.Proc.Wait.{
  Waiting, SemAgrees, IsLive, zombies, IsRunning, IsParked, Core, core, SameBut, parked, waiting_of,
}
use tiny_os_qemu.Proc.Wait.Move.{IsConsistent-SameBut}
use tiny_os_qemu.Proc.Wait.Run.{running_off, runs-IsLive, parked_elsewhere}
use tiny_os_qemu.Proc.Wait.Die.{
  killed, owing, gone, gone_self, gone-status, gone-ctx, gone-IsConsistent, gone-zombies,
  none_runs_gone,
}

asleep_parts :
    (s : Status) (c : Context)
    → waiting_of s c ≡ Waiting.asleep
    → (s ≡ Status.blocked) × (c ≡ Context.in_wait)
asleep_parts s c h = ground arith

-- One more zombie, for a parent that does not sleep in `sys_wait`.
pub raised_idle :
    (z p : ℕ) (s : Sem)
    → z ≤ proc_num
    → SemAgrees Waiting.idle z p s
    → (wakes (inc s.value) ≡ false)
      × SemAgrees Waiting.idle (z + 1) p (record s { value = inc s.value })
raised_idle z p s h a = (ground (arith, a), (omega (arith, a), a.1))

pub raised_woken :
    (z p : ℕ) (s : Sem)
    → z ≤ proc_num
    → SemAgrees Waiting.woken z p s
    → (wakes (inc s.value) ≡ false)
      × SemAgrees Waiting.woken (z + 1) p (record s { value = inc s.value })
raised_woken z p s h a = (ground (arith, a), (omega (arith, a), a.1))

-- And for one that sleeps there.
pub woke_asleep :
    (z p : ℕ) (s : Sem)
    → SemAgrees Waiting.asleep z p s
    → (wakes (inc s.value) ≡ true)
      × SemAgrees Waiting.woken (z + 1) p (record { value = inc s.value; wait_list = [] })
woke_asleep z p s a = (ground (arith, a), (omega (arith, a), refl))

module _ {S : Type 0} (code : ℕ) (k : Kernel S) (r : IsRunning Waiting.idle k) (q : ℕ)
    (par : (k.pcb k.curr).parent ≡ some q) where
  abbrev pub up : SemRef
  up = SemRef.zombie_of q

  abbrev pub raised : Kernel S
  raised = orphan k.curr (raise up (killed code k))

  abbrev pub woke : Kernel S
  woke = orphan k.curr (wake up q [] (raise up (killed code k)))

  parent_parts : (q < proc_num) × (q ≢ k.curr) × IsLive (k.pcb q).status
  parent_parts = r.consistent.parents k.curr q r.curr_lt (runs-IsLive r.curr_runs).0 par

  pub raised-SameBut : SameBut q (gone code k r) raised
  unfolding orphan
  raised-SameBut = record { others = λ j e. ground arith; lists = λ u. refl }

  pub woke-SameBut : SameBut q (gone code k r) woke
  unfolding orphan
  woke-SameBut = record { others = λ j e. ground arith; lists = λ u. refl }

  raised_slot : core (raised.pcb q) ≡ record (core ((gone code k r).pcb q)) {
    zombie_sem = record ((k.pcb q).zombie_sem) { value = inc (k.pcb q).zombie_sem.value };
  }
  unfolding orphan
  raised_slot = ground (arith, ==_refl q, parent_parts)

  woke_slot : core (woke.pcb q) ≡ record (core ((gone code k r).pcb q)) {
    status = Status.ready;
    zombie_sem = record { value = inc (k.pcb q).zombie_sem.value; wait_list = [] };
  }
  unfolding orphan
  woke_slot = ground (arith, ==_refl q, parent_parts)

  pub raised-status : (i : ℕ) → (raised.pcb i).status ≡ ((gone code k r).pcb i).status
  unfolding orphan
  raised-status i = ground arith

  pub woke_running :
      (i : ℕ)
      → (woke.pcb i).status ≡ Status.running
      → ((gone code k r).pcb i).status ≡ Status.running
  unfolding orphan
  woke_running i h = ground arith

  pub settled : (p : ℕ) → p ≢ q → parked (gone code k r) p ≡ owing k p
  settled p e = ground (arith, par, gone_self code k r, gone-status code k r p, gone-ctx code k r p)

  pub old_sem : SemAgrees (parked k q) (zombies q k) q (k.pcb q).zombie_sem
  old_sem =
      subst (λ w. SemAgrees w (zombies q k) q (k.pcb q).zombie_sem)
        (running_off Waiting.idle k q parent_parts.1)
        (r.consistent.waits q parent_parts.0 parent_parts.2)

  more_zombies : zombies q (gone code k r) ≡ zombies q k + 1
  more_zombies = ground (arith, gone-zombies code k r q parent_parts.1, par, ==_refl q)

  gone_parent-IsLive : IsLive ((gone code k r).pcb q).status
  gone_parent-IsLive = subst IsLive (sym (gone-status code k r q parent_parts.1)) parent_parts.2

  pub raised-IsParked :
      SemAgrees
        (parked k q)
        (zombies q k + 1)
        q
        (record ((k.pcb q).zombie_sem) { value = inc (k.pcb q).zombie_sem.value })
      → IsParked raised
  raised-IsParked a =
      let st = ap (λ (c : Core). c.status) raised_slot in
      let cx = ap (λ (c : Core). c.ctx) raised_slot in
      let at : parked raised q ≡ parked k q =
        ap (λ (c : Core). waiting_of c.status c.ctx) raised_slot
        ∙ ground
            (arith, gone-status code k r q parent_parts.1, gone-ctx code k r q parent_parts.1) in
      record {
        none_runs = λ i hi h. none_runs_gone code k r i hi (sym (raised-status i) ∙ h);
        consistent =
            IsConsistent-SameBut raised-SameBut gone_parent-IsLive
              (subst IsLive (sym st) gone_parent-IsLive) (ap (λ (c : Core). c.parent) raised_slot)
              (λ u b. (b.0, st ∙ b.1, cx ∙ b.2))
              (λ p e. parked_elsewhere q p (gone code k r) raised raised-SameBut e ∙ settled p e)
              (λ _.
                subst₂ (λ w z. SemAgrees w z q (raised.pcb q).zombie_sem) (sym at)
                  (sym more_zombies)
                  (subst (λ s. SemAgrees (parked k q) (zombies q k + 1) q s)
                    (sym (ap (λ (c : Core). c.zombie_sem) raised_slot)) a))
              (gone-IsConsistent code k r);
      }

  pub woke-IsParked :
      parked k q ≡ Waiting.asleep
      → SemAgrees Waiting.woken
          (zombies q k + 1)
          q
          (record { value = inc (k.pcb q).zombie_sem.value; wait_list = [] })
      → IsParked woke
  woke-IsParked w a =
      let parts = asleep_parts (k.pcb q).status (k.pcb q).ctx w in
      let in_wait : ((gone code k r).pcb q).ctx ≡ Context.in_wait =
        gone-ctx code k r q parent_parts.1 ∙ parts.1 in
      let at : parked woke q ≡ Waiting.woken =
        ap (λ (c : Core). waiting_of c.status c.ctx) woke_slot
        ∙ ap (waiting_of Status.ready) in_wait in
      record {
        none_runs = λ i hi h. none_runs_gone code k r i hi (woke_running i h);
        consistent =
            IsConsistent-SameBut woke-SameBut gone_parent-IsLive
              (subst IsLive (sym (ap (λ (c : Core). c.status) woke_slot)) (ground arith))
              (ap (λ (c : Core). c.parent) woke_slot) (λ u b. absurd (ground (arith, in_wait, b.2)))
              (λ p e. parked_elsewhere q p (gone code k r) woke woke-SameBut e ∙ settled p e)
              (λ _.
                subst₂ (λ w z. SemAgrees w z q (woke.pcb q).zombie_sem) (sym at) (sym more_zombies)
                  (subst (λ s. SemAgrees Waiting.woken (zombies q k + 1) q s)
                    (sym (ap (λ (c : Core). c.zombie_sem) woke_slot)) a))
              (gone-IsConsistent code k r);
      }
