-- ===== src/Proc/Wait/Die.antt =====
-- kernel/src/proc.c, `proc_makezombie`: the current process dies, and its children lose it.
use tiny_os_qemu.Base.{
  All, All-map, ℕ, ◌+◌, ◌-◌, ◌<◌, ◌≡◌, ◌≢◌, refl, Bool, true, false, some, arith, ap, sym, ◌∙◌,
  if◌then◌else◌, ==_refl,
}
use mathlib.Core.Path.{subst}
use native.Mathlib.Decide.{ℕ_discrete}
use tiny_os_qemu.Base.Tally.{tally_change, one_if}
use tiny_os_qemu.Proc.State.{Kernel, Sem, Usem, Status, proc_num, set_proc}
use tiny_os_qemu.Proc.Table.{is_zombie_of, points_to, orphan}
use tiny_os_qemu.Proc.Wait.{
  Waiting, SemAgrees, IsLive, Distinct, zombies, BlockedOn, IsConsistent, IsRunning, running,
}
use tiny_os_qemu.Proc.Wait.Run.{runs_not_blocked}

module _ {S : Type 0} where
  -- The first assignments of `proc_makezombie` for the current process.
  abbrev pub killed : ℕ → Kernel S → Kernel S
  killed code k =
      set_proc k.curr (record (k.pcb k.curr) { status = Status.zombie; exit_code = code }) k

  -- The account of each process while the semaphore of the dead one's parent is not yet raised.
  abbrev pub owing : Kernel S → ℕ → Waiting
  owing k p =
      if points_to (k.pcb k.curr).parent p
      then Waiting.owed (running Waiting.idle k p)
      else running Waiting.idle k p

module _ {S : Type 0} (code : ℕ) (k : Kernel S) (r : IsRunning Waiting.idle k) where
  abbrev pub gone : Kernel S
  gone = orphan k.curr (killed code k)

  pub gone_self : (gone.pcb k.curr).status ≡ Status.zombie
  unfolding orphan
  gone_self = ground (arith, ==_refl k.curr)

  pub gone-status : (j : ℕ) → j ≢ k.curr → (gone.pcb j).status ≡ (k.pcb j).status
  unfolding orphan
  gone-status j e = ground arith

  pub gone-ctx : (j : ℕ) → j ≢ k.curr → (gone.pcb j).ctx ≡ (k.pcb j).ctx
  unfolding orphan
  gone-ctx j e = ground arith

  pub gone-sem : (j : ℕ) → j ≢ k.curr → (gone.pcb j).zombie_sem ≡ (k.pcb j).zombie_sem
  unfolding orphan
  gone-sem j e = ground arith

  -- Whoever still has a parent had it before, and it is another one.
  gone-parent :
      (j p : ℕ)
      → j < proc_num
      → (gone.pcb j).parent ≡ some p
      → ((k.pcb j).parent ≡ some p) × (p ≢ k.curr)
  unfolding orphan
  gone-parent j p hj h = ground arith

  gone-is_zombie_of :
      (j p : ℕ) → p ≢ k.curr → j ≢ k.curr → is_zombie_of p (gone.pcb j) ≡ is_zombie_of p (k.pcb j)
  unfolding orphan
  gone-is_zombie_of j p hp hj = ground arith

  gone-is_zombie_self :
      (p : ℕ)
      → p ≢ k.curr
      → (is_zombie_of p (gone.pcb k.curr) ≡ points_to (k.pcb k.curr).parent p)
        × (is_zombie_of p (k.pcb k.curr) ≡ false)
  unfolding orphan
  gone-is_zombie_self p hp = ground (arith, ==_refl k.curr, r.curr_runs)

  pub gone-zombies :
      (p : ℕ)
      → p ≢ k.curr
      → zombies p gone ≡ zombies p k + one_if (points_to (k.pcb k.curr).parent p)
  gone-zombies p hp = ground (
    arith,
    tally_change proc_num (λ i. is_zombie_of p (k.pcb i)) (λ i. is_zombie_of p (gone.pcb i)) k.curr
        r.curr_lt (λ j _ e. sym (gone-is_zombie_of j p hp e)),
    gone-is_zombie_self p hp,
  )

  used_before : (j : ℕ) → (gone.pcb j).status ≢ Status.unused → (k.pcb j).status ≢ Status.unused
  used_before j h = elim (ℕ_discrete j k.curr) [
    | yes e ↦ λ q. absurd (ground (arith, r.curr_runs, ap (λ x. (k.pcb x).status) e))
    | no e ↦ subst (λ s. s ≢ Status.unused) (gone-status j e) h
  ]

  live_not_curr : (p : ℕ) → IsLive (gone.pcb p).status → p ≢ k.curr
  live_not_curr p l e = l.1 (ap (λ j. (gone.pcb j).status) e ∙ gone_self)

  owes :
      (b : Bool) (w : Waiting) (z z' p : ℕ) (s : Sem)
      → z' ≡ z + one_if b
      → SemAgrees w z p s
      → SemAgrees (if b then Waiting.owed w else w) z' p s
  owes true w z z' p s e a = (
    λ q. absurd (omega arith),
    subst (λ x. SemAgrees w x p s) {x = z} {y = z' - 1} (omega arith) a,
  )
  owes false w z z' p s e a = subst (λ x. SemAgrees w x p s) {x = z} {y = z'} (omega arith) a

  BlockedOn-gone : (u x : ℕ) → BlockedOn k u x → BlockedOn gone u x
  BlockedOn-gone u x b =
      let e : x ≢ k.curr =
        λ q. runs_not_blocked r.curr_runs (ap (λ j. (k.pcb j).status) (sym q) ∙ b.1) in
      (b.0, gone-status x e ∙ b.1, gone-ctx x e ∙ b.2)

  gone-user_sem : (u : ℕ) → gone.user_sem u ≡ k.user_sem u
  unfolding orphan
  gone-user_sem u = refl

  pub gone-IsConsistent : IsConsistent (owing k) gone
  gone-IsConsistent = record {
    parents = λ i p hi hu hp.
        let (hp', e) = gone-parent i p hi hp in
        let (lt, ne, live) = r.consistent.parents i p hi (used_before i hu) hp' in
        (lt, ne, subst IsLive (sym (gone-status p e)) live);
    waits = λ p hp hl.
        let e = live_not_curr p hl in
        owes (points_to (k.pcb k.curr).parent p) (running Waiting.idle k p) (zombies p k)
          (zombies p gone) p _ (gone-zombies p e)
          (subst (λ s. SemAgrees (running Waiting.idle k p) (zombies p k) p s) (sym (gone-sem p e))
            (r.consistent.waits p hp (subst IsLive (gone-status p e) hl)));
    blocked_on = λ u.
        subst (λ (s : Usem). All (BlockedOn gone u) s.sem.wait_list) (sym (gone-user_sem u))
          (All-map _ (BlockedOn-gone u) (r.consistent.blocked_on u));
    distinct = λ u.
        subst (λ (s : Usem). Distinct s.sem.wait_list) (sym (gone-user_sem u))
          (r.consistent.distinct u);
  }

  pub none_runs_gone : (i : ℕ) → i < proc_num → (gone.pcb i).status ≢ Status.running
  none_runs_gone i hi h = elim (ℕ_discrete i k.curr) [
    | yes e ↦ absurd (ground (arith, gone_self, h, ap (λ j. (gone.pcb j).status) e))
    | no e ↦ e (r.alone i hi (sym (gone-status i e) ∙ h))
  ]
