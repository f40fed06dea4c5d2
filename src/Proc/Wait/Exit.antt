-- ===== src/Proc/Wait/Exit.antt =====
-- kernel/src/proc.c, `proc_makezombie`: the table behind it.
use tiny_os_qemu.Base.{
  ℕ, ◌+◌, ◌≤◌, ◌≡◌, ◌≢◌, refl, true, false, some, none, [], ◌∷◌, arith, ap, sym, ◌∙◌, Option-cases,
  inl, inr, ==_refl,
}
use mathlib.Core.Path.{subst}
use tiny_os_qemu.Base.Exec.{Post}
use tiny_os_qemu.Base.Tally.{tally-le}
use tiny_os_qemu.Proc.State.{Kernel, Proc, Sem, Status, Context, proc_num, inc}
use tiny_os_qemu.Proc.Sem.{SemRef, sem_v, get_sem}
use tiny_os_qemu.Proc.Table.{orphan, wake_parent, is_zombie_of}
use tiny_os_qemu.Proc.Down.{raise, wakes, up_returns, up_wakes}
use tiny_os_qemu.Proc.Wait.{Waiting, SemAgrees, zombies, IsRunning, IsParked, parked, waiting_of}
use tiny_os_qemu.Proc.Wait.Alike.{IsConsistent-Alike_at}
use tiny_os_qemu.Proc.Wait.Run.{runs-IsLive}
use tiny_os_qemu.Proc.Wait.Die.{
  killed, owing, gone, gone_self, gone-status, gone-ctx, gone-IsConsistent, none_runs_gone,
}
use tiny_os_qemu.Proc.Wait.Wake.{
  raised_idle, raised_woken, woke_asleep, raised, woke, raised-status, old_sem, raised-IsParked,
  woke-IsParked, up,
}

never_owed : (s : Status) (c : Context) (w : Waiting) → waiting_of s c ≢ Waiting.owed w
never_owed s c w h = ground arith

module _ {S : Type 0} where
  wake_parent-none :
      (i : ℕ) (k : Kernel S) → (k.pcb i).parent ≡ none → wake_parent i k ≡ some (tt, k)
  unfolding wake_parent
  wake_parent-none i k e = rw (e, wake_parent) refl

  wake_parent-some :
      (i q : ℕ) (k t : Kernel S)
      → (k.pcb i).parent ≡ some q
      → sem_v (SemRef.zombie_of q) k ≡ some t
      → wake_parent i k ≡ some (tt, t)
  unfolding wake_parent
  wake_parent-some i q k t e f = rw (e, wake_parent) (rw (f, wake_parent) refl)

-- No process runs, the one that was current is a zombie, and `j` is READY.
pub record Died {S : Type 0} (c j : ℕ) (t : Kernel S) : Type 0 where
  pub is_parked : IsParked t
  pub curr : t.curr ≡ c
  pub is_zombie : (t.pcb c).status ≡ Status.zombie
  pub is_ready : (t.pcb j).status ≡ Status.ready

module _ {S : Type 0} (code : ℕ) (k : Kernel S) (r : IsRunning Waiting.idle k) (j : ℕ)
    (ready : (k.pcb j).status ≡ Status.ready) where
  killed-parent : ((killed code k).pcb k.curr).parent ≡ (k.pcb k.curr).parent
  killed-parent = ground (arith, ==_refl k.curr)

  killed_other : (q : ℕ) → q ≢ k.curr → (killed code k).pcb q ≡ k.pcb q
  killed_other q e = ground arith

  ready-ne : j ≢ k.curr
  ready-ne e = absurd (ground (arith, ready, r.curr_runs, ap (λ i. (k.pcb i).status) e))

  gone_ready : ((gone code k r).pcb j).status ≡ Status.ready
  gone_ready = gone-status code k r j ready-ne ∙ ready

  settled_all : (k.pcb k.curr).parent ≡ none → (p : ℕ) → parked (gone code k r) p ≡ owing k p
  settled_all e p =
      ground (arith, e, gone_self code k r, gone-status code k r p, gone-ctx code k r p)

  gone-curr : (gone code k r).curr ≡ k.curr
  unfolding orphan
  gone-curr = refl

  gone-Died : (k.pcb k.curr).parent ≡ none → Died k.curr j (gone code k r)
  gone-Died e = record {
    is_parked = record {
      none_runs = none_runs_gone code k r;
      consistent =
          IsConsistent-Alike_at
            (record {
              status = λ _. refl;
              parent = λ _. refl;
              sem = λ _. refl;
              ctx = λ _ _. refl;
              lists = λ _. refl;
            })
            (settled_all e) (gone-IsConsistent code k r);
    };
    curr = gone-curr;
    is_zombie = gone_self code k r;
    is_ready = gone_ready;
  }

  module _ (q : ℕ) (par : (k.pcb k.curr).parent ≡ some q) where
    raised-curr : (raised code k r q par).curr ≡ k.curr
    unfolding orphan
    raised-curr = refl

    raised-Died : IsParked (raised code k r q par) → Died k.curr j (raised code k r q par)
    raised-Died p = record {
      is_parked = p;
      curr = raised-curr;
      is_zombie = raised-status code k r q par k.curr ∙ gone_self code k r;
      is_ready = raised-status code k r q par j ∙ gone_ready;
    }

    woke_facts :
        q ≢ k.curr
        → ((woke code k r q par).curr ≡ k.curr)
          × (((woke code k r q par).pcb k.curr).status ≡ Status.zombie)
          × (((woke code k r q par).pcb j).status ≡ Status.ready)
    unfolding orphan
    woke_facts e = (refl, ground (arith, ==_refl k.curr), ground (arith, ready, ready-ne))

    woke-Died : q ≢ k.curr → IsParked (woke code k r q par) → Died k.curr j (woke code k r q par)
    woke-Died e p =
        let (a, b, c) = woke_facts e in
        record { is_parked = p; curr = a; is_zombie = b; is_ready = c }

    sem_kept : q ≢ k.curr → get_sem (up code k r q par) (killed code k) ≡ (k.pcb q).zombie_sem
    sem_kept e = ap (λ (p : Proc). p.zombie_sem) (killed_other q e)

    abbrev own : Sem
    own = (k.pcb q).zombie_sem

    wake_raised :
        q ≢ k.curr
        → wakes (inc own.value) ≡ false
        → IsParked (raised code k r q par)
        → Post (λ _ t. Died k.curr j (orphan k.curr t)) (wake_parent k.curr (killed code k))
    wake_raised e n p =
        rw
          (wake_parent-some k.curr q (killed code k) _ (killed-parent ∙ par) (
            up_returns (up code k r q par) (killed code k)
              (ap (λ (s : Sem). wakes (inc s.value)) (sem_kept e) ∙ n)))
          (raised-Died p)

    raised_list :
        q ≢ k.curr
        → own.wait_list ≡ q ∷ []
        → (get_sem (up code k r q par) (raise (up code k r q par) (killed code k))).wait_list
          ≡ q ∷ []
    raised_list e h = ground (arith, ==_refl q, e)

    wake_woke :
        q ≢ k.curr
        → wakes (inc own.value) ≡ true
        → own.wait_list ≡ q ∷ []
        → IsParked (woke code k r q par)
        → Post (λ _ t. Died k.curr j (orphan k.curr t)) (wake_parent k.curr (killed code k))
    wake_woke e n l p =
        rw
          (wake_parent-some k.curr q (killed code k) _ (killed-parent ∙ par) (
            up_wakes (up code k r q par) (killed code k) q []
              (ap (λ (s : Sem). wakes (inc s.value)) (sem_kept e) ∙ n) (raised_list e l)))
          (woke-Died e p)

    few : zombies q k ≤ proc_num
    few = tally-le proc_num (λ i. is_zombie_of q (k.pcb i))

    wake_case :
        (w : Waiting)
        → parked k q ≡ w
        → q ≢ k.curr
        → SemAgrees w (zombies q k) q own
        → Post (λ _ t. Died k.curr j (orphan k.curr t)) (wake_parent k.curr (killed code k))
    wake_case Waiting.idle e ne a =
        let (n, b) = raised_idle (zombies q k) q own few a in
        wake_raised ne n (
          raised-IsParked code k r q par (
            subst (λ w. SemAgrees w (zombies q k + 1) q (record own { value = inc own.value }))
              (sym e) b))
    wake_case Waiting.woken e ne a =
        let (n, b) = raised_woken (zombies q k) q own few a in
        wake_raised ne n (
          raised-IsParked code k r q par (
            subst (λ w. SemAgrees w (zombies q k + 1) q (record own { value = inc own.value }))
              (sym e) b))
    wake_case Waiting.asleep e ne a =
        let (n, b) = woke_asleep (zombies q k) q own a in
        wake_woke ne n a.2 (woke-IsParked code k r q par e b)
    wake_case (Waiting.owed w) e ne a = absurd (never_owed _ _ w e)

  -- Behind the `sem_v` for the parent and the loop over the children.
  pub wake-Died : Post (λ _ t. Died k.curr j (orphan k.curr t)) (wake_parent k.curr (killed code k))
  wake-Died = elim (Option-cases (k.pcb k.curr).parent) [
    | inl e ↦ rw (wake_parent-none k.curr (killed code k) (killed-parent ∙ e)) (gone-Died e)
    | inr (q, e) ↦
        wake_case q e (parked k q) refl
          (r.consistent.parents k.curr q r.curr_lt (runs-IsLive r.curr_runs).0 e).1
          (old_sem code k r q e)
  ]
