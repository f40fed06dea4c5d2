-- ===== src/Proc/Wait/Alike.antt =====
-- kernel/src/proc.c: changes that `IsConsistent` does not see.
use tiny_os_qemu.Base.{All, All-map, ℕ, ◌≡◌, ◌≢◌, refl, arith, ap, sym, ◌∙◌, ◌&&◌}
use mathlib.Core.Path.{subst, subst₂, ap₂}
use tiny_os_qemu.Base.Tally.{tally_ext}
use tiny_os_qemu.Proc.State.{Kernel, Status, Context, proc_num, same_status}
use tiny_os_qemu.Proc.Table.{points_to}
use tiny_os_qemu.Proc.Schedule.{saved}
use tiny_os_qemu.Proc.Wait.{
  Waiting, SemAgrees, IsLive, Distinct, zombies, BlockedOn, IsConsistent, IsParked, Core, core,
  parked, waiting_of,
}

module _ {S : Type 0} where
  -- The context of a process that is not blocked may differ.
  pub record Alike (k t : Kernel S) : Type 0 where
    pub status : (j : ℕ) → (t.pcb j).status ≡ (k.pcb j).status
    pub parent : (j : ℕ) → (t.pcb j).parent ≡ (k.pcb j).parent
    pub sem : (j : ℕ) → (t.pcb j).zombie_sem ≡ (k.pcb j).zombie_sem
    pub ctx : (j : ℕ) → (k.pcb j).status ≡ Status.blocked → (t.pcb j).ctx ≡ (k.pcb j).ctx
    pub lists : (u : ℕ) → (t.user_sem u).sem.wait_list ≡ (k.user_sem u).sem.wait_list

module _ {S : Type 0} {k t : Kernel S} (a : Alike k t) where
  zombies-Alike : (p : ℕ) → zombies p t ≡ zombies p k
  zombies-Alike p =
      tally_ext proc_num _ _
        (λ j _. ap₂ (λ x s. points_to x p && same_status s Status.zombie) (a.parent j) (a.status j))

  BlockedOn-Alike : (u x : ℕ) → BlockedOn k u x → BlockedOn t u x
  BlockedOn-Alike u x b = (b.0, a.status x ∙ b.1, a.ctx x b.1 ∙ b.2)

  pub IsConsistent-Alike : {w : ℕ → Waiting} → IsConsistent w k → IsConsistent w t
  IsConsistent-Alike {w} c = record {
    parents = λ i p hi hu hp.
        let (lt, ne, live) =
          c.parents i p hi (subst (λ s. s ≢ Status.unused) (a.status i) hu)
            (sym (a.parent i) ∙ hp) in
        (lt, ne, subst IsLive (sym (a.status p)) live);
    waits = λ p hp hl.
        subst₂ (λ z s. SemAgrees (w p) z p s) (sym (zombies-Alike p)) (sym (a.sem p))
          (c.waits p hp (subst IsLive (a.status p) hl));
    blocked_on = λ u.
        subst (All (BlockedOn t u)) (sym (a.lists u))
          (All-map _ (BlockedOn-Alike u) (c.blocked_on u));
    distinct = λ u. subst Distinct (sym (a.lists u)) (c.distinct u);
  }

  pub IsConsistent-Alike_at :
      {w w' : ℕ → Waiting} → ((p : ℕ) → w' p ≡ w p) → IsConsistent w k → IsConsistent w' t
  IsConsistent-Alike_at {w} {w'} e c =
      let d : IsConsistent w t = IsConsistent-Alike c in
      record {
        parents = d.parents;
        waits = λ p hp hl.
            subst (λ v. SemAgrees v (zombies p t) p (t.pcb p).zombie_sem) (sym (e p))
              (d.waits p hp hl);
        blocked_on = d.blocked_on;
        distinct = d.distinct;
      }

  pub IsParked-Alike : ((p : ℕ) → parked t p ≡ parked k p) → IsParked k → IsParked t
  IsParked-Alike e park = record {
    none_runs = λ i hi h. park.none_runs i hi (sym (a.status i) ∙ h);
    consistent = IsConsistent-Alike_at e park.consistent;
  }

module _ {S : Type 0} where
  -- Nothing that `Core` keeps differs.
  pub record SameCore (k t : Kernel S) : Type 0 where
    pub curr : t.curr ≡ k.curr
    pub cores : (j : ℕ) → core (t.pcb j) ≡ core (k.pcb j)
    pub lists : (u : ℕ) → (t.user_sem u).sem.wait_list ≡ (k.user_sem u).sem.wait_list

  pub Alike-SameCore : {k t : Kernel S} → SameCore k t → Alike k t
  Alike-SameCore s = record {
    status = λ j. ap (λ (c : Core). c.status) (s.cores j);
    parent = λ j. ap (λ (c : Core). c.parent) (s.cores j);
    sem = λ j. ap (λ (c : Core). c.zombie_sem) (s.cores j);
    ctx = λ j _. ap (λ (c : Core). c.ctx) (s.cores j);
    lists = s.lists;
  }

  pub IsParked-SameCore : {k t : Kernel S} → SameCore k t → IsParked k → IsParked t
  IsParked-SameCore s park =
      IsParked-Alike (Alike-SameCore s)
        (λ p. ap (λ (c : Core). waiting_of c.status c.ctx) (s.cores p)) park

  pub SameCore-trans : {k t u : Kernel S} → SameCore k t → SameCore t u → SameCore k u
  SameCore-trans a b = record {
    curr = b.curr ∙ a.curr;
    cores = λ j. b.cores j ∙ a.cores j;
    lists = λ u. b.lists u ∙ a.lists u;
  }

  -- The context that a zombie saves does not matter.
  pub IsParked-saved_zombie :
      (ctx : Context) (k : Kernel S)
      → (k.pcb k.curr).status ≡ Status.zombie
      → IsParked k
      → IsParked (saved ctx k)
  IsParked-saved_zombie ctx k h park =
      IsParked-Alike
        (record {
          status = λ j. ground arith;
          parent = λ j. ground arith;
          sem = λ j. ground arith;
          ctx = λ j b. ground arith;
          lists = λ u. refl;
        })
        (λ p. ground arith) park
