-- ===== src/Proc/Wait/Reap.antt =====
-- kernel/src/syscall.c, the end of `sys_wait`: a zombie child is found and its slot is freed.
use tiny_os_qemu.Base.{
  All, All-map, ℕ, zero, suc, ◌+◌, ◌<◌, ◌≤◌, ◌≡◌, ◌≢◌, Bool, true, false, some, none, arith, ap,
  sym, ◌∙◌, Bool-cases, Option-cases, inl, inr,
}
use mathlib.Core.Path.{subst, subst₂}
use native.Mathlib.Decide.{ℕ_discrete}
use tiny_os_qemu.Base.Tally.{tally_ext, tally_change, tally-zero}
use tiny_os_qemu.Proc.State.{Kernel, Proc, Sem, Status, proc_num}
use tiny_os_qemu.Proc.Table.{is_zombie_of, find_slot, proc_findzombie}
use tiny_os_qemu.Proc.Wait.{
  Waiting, SemAgrees, IsLive, Distinct, zombies, BlockedOn, IsConsistent, Core, SameBut,
}
use tiny_os_qemu.Proc.Wait.Move.{is_zombie_of-core, BlockedOn-SameBut}

module _ {S : Type 0} (test : Proc → Bool) where
  find_slot-none :
      (n i j : ℕ) (k : Kernel S)
      → find_slot test n i k ≡ none
      → j < n
      → test (k.pcb (i + j)) ≡ false
  unfolding find_slot
  find_slot-none zero i j k h hj = absurd (omega arith)
  find_slot-none (suc n) i zero k h hj =
      subst (λ x. test (k.pcb x) ≡ false) {x = i} {y = i + 0} (omega arith) (ground arith)
  find_slot-none (suc n) i (suc j) k h hj =
      subst (λ x. test (k.pcb x) ≡ false) {x = suc i + j} {y = i + suc j} (omega arith)
        (find_slot-none n (suc i) j k (ground arith) (omega arith))

  -- The slot that a scan finds passes the test.
  pub find_slot-some :
      (n i m : ℕ) (k : Kernel S)
      → find_slot test n i k ≡ some m
      → (test (k.pcb m) ≡ true) × (i ≤ m) × (m < i + n)
  unfolding find_slot
  find_slot-some zero i m k h = cc
  find_slot-some (suc n) i m k h = elim (Bool-cases (test (k.pcb i))) [
    | inl e ↦ ground arith
    | inr e ↦ ground (arith, find_slot-some n (suc i) m k)
  ]

module _ {S : Type 0} where
  -- A process that has zombies finds one.
  pub proc_findzombie-total :
      (p : ℕ) (k : Kernel S)
      → zombies p k ≢ 0
      → (z : ℕ) × (proc_findzombie p k ≡ some z)
        × (z < proc_num)
        × (is_zombie_of p (k.pcb z) ≡ true)
  unfolding proc_findzombie
  proc_findzombie-total p k h = elim (Option-cases (find_slot (is_zombie_of p) proc_num 0 k)) [
    | inl e ↦ absurd (
        h (
          tally-zero proc_num (λ i. is_zombie_of p (k.pcb i))
            (λ i hi.
              subst (λ x. is_zombie_of p (k.pcb x) ≡ false) {x = 0 + i} {y = i} (omega arith)
                (find_slot-none (is_zombie_of p) proc_num 0 i k e hi))))
    | inr (z, e) ↦
        let (t, _, lt) = find_slot-some (is_zombie_of p) proc_num 0 z k e in (z, e, omega arith, t)
  ]

pub zombie_parts :
    (p : ℕ) (a : Proc) → is_zombie_of p a ≡ true → (a.status ≡ Status.zombie) × (a.parent ≡ some p)
zombie_parts p a h = ground arith

pub zombie_of_other :
    (p q : ℕ) (a : Proc) → is_zombie_of p a ≡ true → q ≢ p → is_zombie_of q a ≡ false
zombie_of_other p q a h e = ground arith

pub unused_not_zombie : (p : ℕ) (a : Proc) → a.status ≡ Status.unused → is_zombie_of p a ≡ false
unused_not_zombie p a h = ground arith

-- Taking one zombie settles the account of a process that was woken for it.
claimed :
    (n n' p : ℕ) (s : Sem)
    → n' + 1 ≡ n
    → SemAgrees Waiting.woken n p s
    → SemAgrees Waiting.idle n' p s
claimed n n' p s e h = (omega arith, h.1)

module _ {S : Type 0} (c : ℕ) {z : ℕ} {k t : Kernel S} (same : SameBut z k t) (hz : z < proc_num)
    (was : is_zombie_of c (k.pcb z) ≡ true) (gone : (t.pcb z).status ≡ Status.unused) where
  zombies_reaped : zombies c t + 1 ≡ zombies c k
  zombies_reaped = ground (
    arith,
    tally_change proc_num (λ i. is_zombie_of c (k.pcb i)) (λ i. is_zombie_of c (t.pcb i)) z hz
        (λ j hj e. sym (is_zombie_of-core c (t.pcb j) (k.pcb j) (same.others j e))),
    unused_not_zombie c (t.pcb z) gone,
    was,
  )

  zombies_kept : (q : ℕ) → q ≢ c → zombies q t ≡ zombies q k
  zombies_kept q e = tally_ext proc_num _ _ (λ j hj. elim (ℕ_discrete j z) [
    | yes d ↦
        subst (λ x. is_zombie_of q (t.pcb x) ≡ is_zombie_of q (k.pcb x)) (sym d)
          (unused_not_zombie q (t.pcb z) gone ∙ sym (zombie_of_other c q (k.pcb z) was e))
    | no d ↦ is_zombie_of-core q (t.pcb j) (k.pcb j) (same.others j d)
  ])

  -- Another slot than the freed one, if it is in use afterwards.
  spared : (p : ℕ) → (t.pcb p).status ≢ Status.unused → p ≢ z
  spared p h e = h (ap (λ j. (t.pcb j).status) e ∙ gone)

  status_kept : (p : ℕ) → p ≢ z → (t.pcb p).status ≡ (k.pcb p).status
  status_kept p e = ap (λ (x : Core). x.status) (same.others p e)

  live_not_zombie : (p : ℕ) → IsLive (k.pcb p).status → p ≢ z
  live_not_zombie p l e = l.1 (ap (λ j. (k.pcb j).status) e ∙ (zombie_parts c (k.pcb z) was).0)

  not_blocked : (k.pcb z).status ≢ Status.blocked
  not_blocked = ground (arith, zombie_parts c (k.pcb z) was)

  reap_waits :
      {w w' : ℕ → Waiting}
      → w c ≡ Waiting.woken
      → w' c ≡ Waiting.idle
      → ((p : ℕ) → p ≢ c → w' p ≡ w p)
      → IsConsistent w k
      → (p : ℕ) → p < proc_num
      → IsLive (t.pcb p).status
      → SemAgrees (w' p) (zombies p t) p (t.pcb p).zombie_sem
  reap_waits {w} {w'} wc wc' ww con p hp hl =
      let e = spared p hl.0 in
      let sem = ap (λ (x : Core). x.zombie_sem) (same.others p e) in
      let old = con.waits p hp (subst IsLive (status_kept p e) hl) in
      elim (ℕ_discrete p c) [
        | yes q ↦
            subst (λ x. SemAgrees (w' x) (zombies x t) x (t.pcb x).zombie_sem) (sym q)
              (subst (λ v. SemAgrees v (zombies c t) c (t.pcb c).zombie_sem) (sym wc')
                (claimed _ _ c _ zombies_reaped (
                  subst (λ v. SemAgrees v (zombies c k) c (t.pcb c).zombie_sem) wc
                    (subst (λ x. SemAgrees (w x) (zombies x k) x (t.pcb x).zombie_sem) q
                      (subst (λ m. SemAgrees (w p) (zombies p k) p m) (sym sem) old)))))
        | no q ↦
            subst (λ v. SemAgrees v (zombies p t) p (t.pcb p).zombie_sem) (sym (ww p q))
              (subst₂ (λ n s. SemAgrees (w p) n p s) (sym (zombies_kept p q)) (sym sem) old)
      ]

  pub IsConsistent-reap :
      {w w' : ℕ → Waiting}
      → w c ≡ Waiting.woken
      → w' c ≡ Waiting.idle
      → ((p : ℕ) → p ≢ c → w' p ≡ w p)
      → IsConsistent w k
      → IsConsistent w' t
  IsConsistent-reap wc wc' ww con = record {
    parents = λ i p hi hu hp.
        let e = spared i hu in
        let (lt, ne, live) =
          con.parents i p hi (subst (λ s. s ≢ Status.unused) (status_kept i e) hu)
            (sym (ap (λ (x : Core). x.parent) (same.others i e)) ∙ hp) in
        (lt, ne, subst IsLive (sym (status_kept p (live_not_zombie p live))) live);
    waits = reap_waits wc wc' ww con;
    blocked_on = λ u. subst (All (BlockedOn t u)) (sym (same.lists u)) (
        All-map _ (λ x b. BlockedOn-SameBut same u x (λ q. absurd (not_blocked q.1)) b)
          (con.blocked_on u));
    distinct = λ u. subst Distinct (sym (same.lists u)) (con.distinct u);
  }
