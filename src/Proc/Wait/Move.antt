-- ===== src/Proc/Wait/Move.antt =====
-- kernel/src/proc.c: changes of one slot that keep the table consistent.
use tiny_os_qemu.Base.{All, All-map, ℕ, ◌<◌, ◌≡◌, ◌≢◌, false, arith, ap, sym, ◌∙◌}
use mathlib.Core.Path.{subst, subst₂}
use native.Mathlib.Decide.{ℕ_discrete}
use tiny_os_qemu.Base.Tally.{tally_ext}
use tiny_os_qemu.Proc.State.{Kernel, Proc, Status, proc_num}
use tiny_os_qemu.Proc.Table.{is_zombie_of}
use tiny_os_qemu.Proc.Wait.{
  Waiting, SemAgrees, IsLive, Distinct, zombies, BlockedOn, IsConsistent, Core, core, SameBut,
}

is_zombie_of-live : (p : ℕ) (a : Proc) → IsLive a.status → is_zombie_of p a ≡ false
is_zombie_of-live p a h = ground arith

pub is_zombie_of-core : (p : ℕ) (a b : Proc) → core a ≡ core b → is_zombie_of p a ≡ is_zombie_of p b
is_zombie_of-core p a b e = ground arith

module _ {S : Type 0} {i : ℕ} {k t : Kernel S} (same : SameBut i k t) where
  pub zombies-SameBut :
      (p : ℕ) → IsLive (k.pcb i).status → IsLive (t.pcb i).status → zombies p t ≡ zombies p k
  zombies-SameBut p lk lt = tally_ext proc_num _ _ (λ j hj. elim (ℕ_discrete j i) [
    | yes e ↦
        subst (λ x. is_zombie_of p (t.pcb x) ≡ is_zombie_of p (k.pcb x)) (sym e)
          (is_zombie_of-live p (t.pcb i) lt ∙ sym (is_zombie_of-live p (k.pcb i) lk))
    | no e ↦ is_zombie_of-core p (t.pcb j) (k.pcb j) (same.others j e)
  ])

  status-SameBut : (j : ℕ) → j ≢ i → (t.pcb j).status ≡ (k.pcb j).status
  status-SameBut j e = ap (λ (c : Core). c.status) (same.others j e)

  -- What holds at slot `i` and is carried over elsewhere holds everywhere.
  everywhere : (P : ℕ → Type 0) → P i → ((j : ℕ) → j ≢ i → P j) → (j : ℕ) → P j
  everywhere P at off j = elim (ℕ_discrete j i) [ yes e ↦ subst P (sym e) at | no e ↦ off j e ]

  IsLive-SameBut :
      IsLive (t.pcb i).status → (j : ℕ) → IsLive (k.pcb j).status → IsLive (t.pcb j).status
  IsLive-SameBut lt =
      everywhere (λ j. IsLive (k.pcb j).status → IsLive (t.pcb j).status) (λ _. lt)
        (λ j e h. subst IsLive (sym (status-SameBut j e)) h)

  used-SameBut :
      (k.pcb i).status ≢ Status.unused
      → (j : ℕ) → (t.pcb j).status ≢ Status.unused
      → (k.pcb j).status ≢ Status.unused
  used-SameBut lk =
      everywhere (λ j. (t.pcb j).status ≢ Status.unused → (k.pcb j).status ≢ Status.unused)
        (λ _. lk) (λ j e h. subst (λ s. s ≢ Status.unused) (status-SameBut j e) h)

  parent-SameBut :
      (t.pcb i).parent ≡ (k.pcb i).parent → (j : ℕ) → (t.pcb j).parent ≡ (k.pcb j).parent
  parent-SameBut par =
      everywhere (λ j. (t.pcb j).parent ≡ (k.pcb j).parent) par
        (λ j e. ap (λ (c : Core). c.parent) (same.others j e))

  pub BlockedOn-SameBut :
      (u x : ℕ) → (BlockedOn k u i → BlockedOn t u i) → BlockedOn k u x → BlockedOn t u x
  BlockedOn-SameBut u x at =
      everywhere (λ x. BlockedOn k u x → BlockedOn t u x) at
        (λ x off b.
          (b.0, status-SameBut x off ∙ b.1, ap (λ (c : Core). c.ctx) (same.others x off) ∙ b.2))
        x

  -- Slot `i` stays live, keeps its parent and, in the wait list of a user semaphore, stays blocked on it.
  pub IsConsistent-SameBut :
      {w w' : ℕ → Waiting}
      → IsLive (k.pcb i).status
      → IsLive (t.pcb i).status
      → (t.pcb i).parent ≡ (k.pcb i).parent
      → ((u : ℕ) → BlockedOn k u i → BlockedOn t u i)
      → ((p : ℕ) → p ≢ i → w' p ≡ w p)
      → (i < proc_num → SemAgrees (w' i) (zombies i k) i (t.pcb i).zombie_sem)
      → IsConsistent w k
      → IsConsistent w' t
  IsConsistent-SameBut {w} {w'} lk lt par nb ww sem c = record {
    parents = λ j p hj hu hp.
        let (lt', ne, live) =
          c.parents j p hj (used-SameBut lk.0 j hu) (sym (parent-SameBut par j) ∙ hp) in
        (lt', ne, IsLive-SameBut lt p live);
    waits = λ p hp hl. waits p hp hl;
    blocked_on = λ u.
        subst (All (BlockedOn t u)) (sym (same.lists u))
          (All-map _ (λ x b. BlockedOn-SameBut u x (nb u) b) (c.blocked_on u));
    distinct = λ u. subst Distinct (sym (same.lists u)) (c.distinct u);
  }
    where
      waits :
          (p : ℕ)
          → p < proc_num
          → IsLive (t.pcb p).status
          → SemAgrees (w' p) (zombies p t) p (t.pcb p).zombie_sem
      waits =
          everywhere
            (λ p.
              p < proc_num
              → IsLive (t.pcb p).status
              → SemAgrees (w' p) (zombies p t) p (t.pcb p).zombie_sem)
            (λ hi _.
              subst (λ z. SemAgrees (w' i) z i (t.pcb i).zombie_sem) (sym (zombies-SameBut i lk lt))
                (sem hi))
            (λ p e hp hl.
              subst (λ v. SemAgrees v (zombies p t) p (t.pcb p).zombie_sem) (sym (ww p e))
                (subst₂ (λ z s. SemAgrees (w p) z p s) (sym (zombies-SameBut p lk lt))
                  (sym (ap (λ (c : Core). c.zombie_sem) (same.others p e)))
                  (c.waits p hp (subst IsLive (status-SameBut p e) hl))))
