-- ===== src/Condition/Inside.antt =====
-- lab/lab8/condition_sem.c: what one step of a thread means for `mutex` and the buffer.
use tiny_os_qemu.Base.{
  ℕ, zero, suc, ◌+◌, ◌≡◌, ◌≢◌, ◌≤◌, ◌<◌, refl, Bool, true, false, Option, none, some, ltb, arith,
  Bool-cases, inl, inr, ◌⊎◌, ap, ◌∙◌,
}
use tiny_os_qemu.Condition.{
  Shared, Wait, Cast, Role, Pc, cond, sem_wait, my_cv_wait, my_cv_broadcast, after_wait,
  after_broadcast, step,
}

-- Whether the thread has taken `mutex`.
abbrev pub is_inside : Pc → Bool
is_inside Pc.lock = false
is_inside (Pc.wait Wait.sleep) = false
is_inside (Pc.wait Wait.shake) = false
is_inside (Pc.wait Wait.lock_mutex) = false
is_inside _ = true

-- Between two critical sections: as many '(' as ')' and items in the buffer, and no more items than
-- fit.
abbrev pub Quiet : ℕ → Shared → Type 0
Quiet buf_size s = (s.opened ≡ s.closed + s.cnt) × (s.cnt ≤ buf_size)

-- Between the print and the change of `cnt`.
abbrev pub Printed : ℕ → Role → Shared → Type 0
Printed buf_size Role.producer s = (s.opened ≡ suc (s.closed + s.cnt)) × (s.cnt < buf_size)
Printed buf_size Role.consumer s =
    (suc s.opened ≡ s.closed + s.cnt) × (s.cnt ≤ buf_size) × (s.cnt ≢ 0)

-- What a thread that has taken `mutex` knows at each place.
abbrev pub Knows : ℕ → Role → Pc → Shared → Type 0
Knows buf_size r Pc.check s = Quiet buf_size s × (cond buf_size r s.cnt ≡ true)
Knows buf_size r Pc.print s = Quiet buf_size s × (cond buf_size r s.cnt ≡ true)
Knows buf_size r Pc.load s = Printed buf_size r s
Knows buf_size r (Pc.store n) s = Printed buf_size r s × (n ≡ s.cnt)
Knows buf_size r Pc.failed s = ⊥
Knows buf_size r _ s = Quiet buf_size s

-- What a step of the thread that has taken `mutex` comes to.
abbrev pub Inside : ℕ → Role → Option (Shared × Pc) → Type 0
Inside buf_size r none = Unit {0}
Inside buf_size r (some (s, p)) =
    ((is_inside p ≡ true) × (s.mutex ≡ 0) × Knows buf_size r p s)
    ⊎ ((is_inside p ≡ false) × (s.mutex ≡ 1) × Quiet buf_size s)

pub wait-Inside :
    (buf_size : ℕ) (r : Role) (w : Wait) (s : Shared)
    → is_inside (Pc.wait w) ≡ true
    → s.mutex ≡ 0
    → Quiet buf_size s
    → Inside buf_size r (after_wait (my_cv_wait w s))
unfolding my_cv_wait
wait-Inside buf_size r Wait.lock_cv s i z h = go s.lock
  where
    go :
        (n : ℕ)
        → Inside buf_size r (
            after_wait (elim (sem_wait n) [
              | none ↦ none
              | some m ↦ some (record s { lock = m }, some Wait.read)
            ]))
    go zero = tt
    go (suc n) = inl (refl, z, h)
wait-Inside buf_size r Wait.read s i z h = inl (refl, z, h)
wait-Inside buf_size r (Wait.write n) s i z h = inl (refl, z, h)
wait-Inside buf_size r Wait.unlock_cv s i z h = inl (refl, z, h)
wait-Inside buf_size r Wait.unlock_mutex s i z h = inr (refl, ap suc z, h)
wait-Inside buf_size r Wait.sleep s i z h = absurd (cc)
wait-Inside buf_size r Wait.shake s i z h = absurd (cc)
wait-Inside buf_size r Wait.lock_mutex s i z h = absurd (cc)

pub broadcast-Inside :
    (buf_size : ℕ) (r : Role) (c : Cast) (s : Shared)
    → s.mutex ≡ 0
    → Quiet buf_size s
    → Inside buf_size r (after_broadcast (my_cv_broadcast c s))
unfolding my_cv_broadcast
broadcast-Inside buf_size r Cast.lock_cv s z h = go s.lock
  where
    go :
        (n : ℕ)
        → Inside buf_size r (
            after_broadcast (elim (sem_wait n) [
              | none ↦ none
              | some m ↦ some (record s { lock = m }, some (Cast.loop 0))
            ]))
    go zero = tt
    go (suc n) = inl (refl, z, h)
broadcast-Inside buf_size r (Cast.loop i) s z h = elim (Bool-cases (ltb i s.nwait)) [
  | inl e ↦ rw e (inl (refl, z, h))
  | inr e ↦ rw e (inl (refl, z, h))
]
broadcast-Inside buf_size r (Cast.wake i) s z h = inl (refl, z, h)
broadcast-Inside buf_size r (Cast.shake i) s z h = go s.handshake
  where
    go :
        (n : ℕ)
        → Inside buf_size r (
            after_broadcast (elim (sem_wait n) [
              | none ↦ none
              | some m ↦ some (record s { handshake = m }, some (Cast.loop (suc i)))
            ]))
    go zero = tt
    go (suc n) = inl (refl, z, h)
broadcast-Inside buf_size r Cast.reset s z h = inl (refl, z, h)
broadcast-Inside buf_size r Cast.unlock_cv s z h = inl (refl, z, h)

pub step-Inside :
    (buf_size : ℕ) (r : Role) (p : Pc) (s : Shared)
    → is_inside p ≡ true
    → s.mutex ≡ 0
    → Knows buf_size r p s
    → Inside buf_size r (step buf_size r p s)
unfolding step
step-Inside buf_size r Pc.lock s i z h = absurd (cc)
step-Inside buf_size r Pc.test s i z h = elim (Bool-cases (cond buf_size r s.cnt)) [
  | inl e ↦ rw e (inl (refl, z, (h, e)))
  | inr e ↦ rw e (inl (refl, z, h))
]
step-Inside buf_size r Pc.check s i z h = rw h.1 (inl (refl, z, h))
step-Inside buf_size Role.producer Pc.print s i z h = inl (refl, z, ground arith)
step-Inside buf_size Role.consumer Pc.print s i z h = inl (refl, z, ground arith)
step-Inside buf_size r Pc.load s i z h = inl (refl, z, (h, refl))
step-Inside buf_size Role.producer (Pc.store n) s i z h = inl (refl, z, (omega arith, omega arith))
step-Inside buf_size Role.consumer (Pc.store n) s i z h = inl (refl, z, (omega arith, omega arith))
step-Inside buf_size r Pc.unlock s i z h = inr (refl, ap suc z, h)
step-Inside buf_size r Pc.failed s i z h = absurd h
step-Inside buf_size r (Pc.wait w) s i z h = wait-Inside buf_size r w s i z h
step-Inside buf_size r (Pc.broadcast c) s i z h = broadcast-Inside buf_size r c s z h

-- What a step of another thread comes to: it leaves `mutex` and the buffer alone, or takes `mutex`.
abbrev pub Outside : Shared → Option (Shared × Pc) → Type 0
Outside s none = Unit {0}
Outside s (some (t, p)) =
    (t.cnt ≡ s.cnt)
    × (t.opened ≡ s.opened)
    × (t.closed ≡ s.closed)
    × (((is_inside p ≡ false) × (t.mutex ≡ s.mutex)) ⊎ ((p ≡ Pc.test) × (s.mutex ≡ suc t.mutex)))

pub step-Outside :
    (buf_size : ℕ) (r : Role) (p : Pc) (s : Shared)
    → is_inside p ≡ false
    → Outside s (step buf_size r p s)
unfolding step my_cv_wait
step-Outside buf_size r Pc.lock s i = go s.mutex refl
  where
    go :
        (n : ℕ)
        → s.mutex ≡ n
        → Outside s
            (elim (sem_wait n) [ none ↦ none | some m ↦ some (record s { mutex = m }, Pc.test) ])
    go zero e = tt
    go (suc n) e = (refl, refl, refl, inr (refl, e))
step-Outside buf_size r (Pc.wait Wait.sleep) s i = go s.sleep
  where
    go :
        (n : ℕ)
        → Outside s (
            after_wait (elim (sem_wait n) [
              | none ↦ none
              | some m ↦ some (record s { sleep = m }, some Wait.shake)
            ]))
    go zero = tt
    go (suc n) = (refl, refl, refl, inl (refl, refl))
step-Outside buf_size r (Pc.wait Wait.shake) s i = (refl, refl, refl, inl (refl, refl))
step-Outside buf_size r (Pc.wait Wait.lock_mutex) s i = go s.mutex refl
  where
    go :
        (n : ℕ)
        → s.mutex ≡ n
        → Outside s (
            after_wait
              (elim (sem_wait n) [ none ↦ none | some m ↦ some (record s { mutex = m }, none) ]))
    go zero e = tt
    go (suc n) e = (refl, refl, refl, inr (refl, e))
step-Outside buf_size r (Pc.wait Wait.lock_cv) s i = absurd (cc)
step-Outside buf_size r (Pc.wait Wait.read) s i = absurd (cc)
step-Outside buf_size r (Pc.wait (Wait.write n)) s i = absurd (cc)
step-Outside buf_size r (Pc.wait Wait.unlock_cv) s i = absurd (cc)
step-Outside buf_size r (Pc.wait Wait.unlock_mutex) s i = absurd (cc)
step-Outside buf_size r Pc.test s i = absurd (cc)
step-Outside buf_size r Pc.check s i = absurd (cc)
step-Outside buf_size r Pc.print s i = absurd (cc)
step-Outside buf_size r Pc.load s i = absurd (cc)
step-Outside buf_size r (Pc.store n) s i = absurd (cc)
step-Outside buf_size r Pc.unlock s i = absurd (cc)
step-Outside buf_size r Pc.failed s i = absurd (cc)
step-Outside buf_size r (Pc.broadcast c) s i = absurd (cc)

-- `Knows` is about the buffer only.
pub Knows-same :
    (buf_size : ℕ) (r : Role) (p : Pc) (s t : Shared)
    → t.cnt ≡ s.cnt
    → t.opened ≡ s.opened
    → t.closed ≡ s.closed
    → Knows buf_size r p s
    → Knows buf_size r p t
Knows-same buf_size r Pc.check s t a b c h =
    ((omega arith, omega arith), ap (cond buf_size r) a ∙ h.1)
Knows-same buf_size r Pc.print s t a b c h =
    ((omega arith, omega arith), ap (cond buf_size r) a ∙ h.1)
Knows-same buf_size Role.producer Pc.load s t a b c h = (omega arith, omega arith)
Knows-same buf_size Role.consumer Pc.load s t a b c h = (omega arith, omega arith, omega arith)
Knows-same buf_size Role.producer (Pc.store n) s t a b c h =
    ((omega arith, omega arith), omega arith)
Knows-same buf_size Role.consumer (Pc.store n) s t a b c h =
    ((omega arith, omega arith, omega arith), omega arith)
Knows-same buf_size r Pc.failed s t a b c h = h
Knows-same buf_size r Pc.lock s t a b c h = (omega arith, omega arith)
Knows-same buf_size r Pc.test s t a b c h = (omega arith, omega arith)
Knows-same buf_size r Pc.unlock s t a b c h = (omega arith, omega arith)
Knows-same buf_size r (Pc.wait w) s t a b c h = (omega arith, omega arith)
Knows-same buf_size r (Pc.broadcast w) s t a b c h = (omega arith, omega arith)
