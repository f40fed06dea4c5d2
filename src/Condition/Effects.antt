-- ===== src/Condition/Effects.antt =====
-- lab/lab8/condition_sem.c: what a step of a thread that has not taken `lock` does to the handshake.
use tiny_os_qemu.Base.{
  ℕ, zero, suc, ◌+◌, ◌≡◌, ◌≤◌, refl, true, false, Option, none, some, arith, Bool-cases, inl, inr,
  ◌⊎◌,
}
use tiny_os_qemu.Condition.{
  Shared, Wait, Cast, Role, Pc, cond, sem_wait, my_cv_wait, my_cv_broadcast, after_wait,
  after_broadcast, step,
}
use tiny_os_qemu.Condition.Wakes.{is_holder, is_waiting, is_woken, Known}

-- What a step of another thread does: nothing that matters here, passing `sleep`, the handshake, or
-- taking `lock`.
pub data Effect (p q : Pc) (s t : Shared) : Type 0 where
  alike :
      is_holder q ≡ false
      → t.lock ≡ s.lock
      → t.nwait ≡ s.nwait
      → t.sleep ≡ s.sleep
      → t.handshake ≡ s.handshake
      → is_waiting q ≡ is_waiting p
      → is_woken q ≡ is_woken p
      → Effect p q s t
  wakes :
      is_holder q ≡ false
      → t.lock ≡ s.lock
      → t.nwait ≡ s.nwait
      → s.sleep ≡ suc t.sleep
      → t.handshake ≡ s.handshake
      → is_waiting p ≡ true
      → is_waiting q ≡ false
      → is_woken p ≡ false
      → is_woken q ≡ true
      → Effect p q s t
  shakes :
      is_holder q ≡ false
      → t.lock ≡ s.lock
      → t.nwait ≡ s.nwait
      → t.sleep ≡ s.sleep
      → t.handshake ≡ suc s.handshake
      → is_waiting p ≡ false
      → is_waiting q ≡ false
      → is_woken p ≡ true
      → is_woken q ≡ false
      → Effect p q s t
  takes :
      (q ≡ Pc.wait Wait.read) ⊎ (q ≡ Pc.broadcast (Cast.loop 0))
      → s.lock ≡ suc t.lock
      → t.nwait ≡ s.nwait
      → t.sleep ≡ s.sleep
      → t.handshake ≡ s.handshake
      → is_waiting p ≡ false
      → is_woken p ≡ false
      → Effect p q s t

abbrev pub Effects : Pc → Shared → Option (Shared × Pc) → Type 0
Effects p s none = Unit {0}
Effects p s (some (t, q)) = Effect p q s t

wait-Effects :
    (v : Wait) (s : Shared)
    → is_holder (Pc.wait v) ≡ false
    → Effects (Pc.wait v) s (after_wait (my_cv_wait v s))
unfolding my_cv_wait
wait-Effects Wait.lock_cv s i = go s.lock refl
  where
    go :
        (n : ℕ)
        → s.lock ≡ n
        → Effects (Pc.wait Wait.lock_cv) s (
            after_wait (elim (sem_wait n) [
              | none ↦ none
              | some m ↦ some (record s { lock = m }, some Wait.read)
            ]))
    go zero e = tt
    go (suc n) e = Effect.takes (inl refl) e refl refl refl refl refl
wait-Effects Wait.read s i = absurd (cc)
wait-Effects (Wait.write n) s i = absurd (cc)
wait-Effects Wait.unlock_cv s i = absurd (cc)
wait-Effects Wait.unlock_mutex s i = Effect.alike refl refl refl refl refl refl refl
wait-Effects Wait.sleep s i = go s.sleep refl
  where
    go :
        (n : ℕ)
        → s.sleep ≡ n
        → Effects (Pc.wait Wait.sleep) s (
            after_wait (elim (sem_wait n) [
              | none ↦ none
              | some m ↦ some (record s { sleep = m }, some Wait.shake)
            ]))
    go zero e = tt
    go (suc n) e = Effect.wakes refl refl refl e refl refl refl refl refl
wait-Effects Wait.shake s i = Effect.shakes refl refl refl refl refl refl refl refl refl
wait-Effects Wait.lock_mutex s i = go s.mutex
  where
    go :
        (n : ℕ)
        → Effects (Pc.wait Wait.lock_mutex) s (
            after_wait
              (elim (sem_wait n) [ none ↦ none | some m ↦ some (record s { mutex = m }, none) ]))
    go zero = tt
    go (suc n) = Effect.alike refl refl refl refl refl refl refl

broadcast-Effects :
    (v : Cast) (s : Shared)
    → is_holder (Pc.broadcast v) ≡ false
    → Effects (Pc.broadcast v) s (after_broadcast (my_cv_broadcast v s))
unfolding my_cv_broadcast
broadcast-Effects Cast.lock_cv s i = go s.lock refl
  where
    go :
        (n : ℕ)
        → s.lock ≡ n
        → Effects (Pc.broadcast Cast.lock_cv) s (
            after_broadcast (elim (sem_wait n) [
              | none ↦ none
              | some m ↦ some (record s { lock = m }, some (Cast.loop 0))
            ]))
    go zero e = tt
    go (suc n) e = Effect.takes (inr refl) e refl refl refl refl refl
broadcast-Effects (Cast.loop n) s i = absurd (cc)
broadcast-Effects (Cast.wake n) s i = absurd (cc)
broadcast-Effects (Cast.shake n) s i = absurd (cc)
broadcast-Effects Cast.reset s i = absurd (cc)
broadcast-Effects Cast.unlock_cv s i = absurd (cc)

pub step-Effects :
    (buf_size : ℕ) (r : Role) (p : Pc) (s : Shared)
    → is_holder p ≡ false
    → Effects p s (step buf_size r p s)
unfolding step
step-Effects buf_size r Pc.lock s i = go s.mutex
  where
    go :
        (n : ℕ)
        → Effects Pc.lock s
            (elim (sem_wait n) [ none ↦ none | some m ↦ some (record s { mutex = m }, Pc.test) ])
    go zero = tt
    go (suc n) = Effect.alike refl refl refl refl refl refl refl
step-Effects buf_size r Pc.test s i = elim (Bool-cases (cond buf_size r s.cnt)) [
  | inl e ↦ rw e (Effect.alike refl refl refl refl refl refl refl)
  | inr e ↦ rw e (Effect.alike refl refl refl refl refl refl refl)
]
step-Effects buf_size r Pc.check s i = elim (Bool-cases (cond buf_size r s.cnt)) [
  | inl e ↦ rw e (Effect.alike refl refl refl refl refl refl refl)
  | inr e ↦ rw e (Effect.alike refl refl refl refl refl refl refl)
]
step-Effects buf_size Role.producer Pc.print s i = Effect.alike refl refl refl refl refl refl refl
step-Effects buf_size Role.consumer Pc.print s i = Effect.alike refl refl refl refl refl refl refl
step-Effects buf_size r Pc.load s i = Effect.alike refl refl refl refl refl refl refl
step-Effects buf_size r (Pc.store n) s i = Effect.alike refl refl refl refl refl refl refl
step-Effects buf_size r Pc.unlock s i = Effect.alike refl refl refl refl refl refl refl
step-Effects buf_size r Pc.failed s i = tt
step-Effects buf_size r (Pc.wait v) s i = wait-Effects v s i
step-Effects buf_size r (Pc.broadcast v) s i = broadcast-Effects v s i

-- The same in numbers.
abbrev pub Delta : Shared → Shared → ℕ → ℕ → ℕ → ℕ → Type 0
Delta s t w a w' a' =
    (t.nwait ≡ s.nwait)
    × (((w' ≡ w) × (a' ≡ a) × (t.sleep ≡ s.sleep) × (t.handshake ≡ s.handshake))
        ⊎ (((w ≡ suc w') × (a' ≡ suc a) × (s.sleep ≡ suc t.sleep) × (t.handshake ≡ s.handshake))
            ⊎ ((w' ≡ w) × (a ≡ suc a') × (t.sleep ≡ s.sleep) × (t.handshake ≡ suc s.handshake))))

pub Known-Delta :
    (p : Pc) (w a w' a' : ℕ) (s t : Shared) → Delta s t w a w' a' → Known p w a s → Known p w' a' t
Known-Delta (Pc.wait (Wait.write n)) w a w' a' s t d h = ground arith
Known-Delta (Pc.wait Wait.read) w a w' a' s t d h = ground arith
Known-Delta (Pc.wait Wait.lock_cv) w a w' a' s t d h = ground arith
Known-Delta (Pc.wait Wait.unlock_cv) w a w' a' s t d h = ground arith
Known-Delta (Pc.wait Wait.unlock_mutex) w a w' a' s t d h = ground arith
Known-Delta (Pc.wait Wait.sleep) w a w' a' s t d h = ground arith
Known-Delta (Pc.wait Wait.shake) w a w' a' s t d h = ground arith
Known-Delta (Pc.wait Wait.lock_mutex) w a w' a' s t d h = ground arith
Known-Delta (Pc.broadcast (Cast.loop i)) w a w' a' s t d h = ground arith
Known-Delta (Pc.broadcast (Cast.wake i)) w a w' a' s t d h = ground arith
Known-Delta (Pc.broadcast (Cast.shake i)) w a w' a' s t d h = ground arith
Known-Delta (Pc.broadcast Cast.reset) w a w' a' s t d h = ground arith
Known-Delta (Pc.broadcast Cast.lock_cv) w a w' a' s t d h = ground arith
Known-Delta (Pc.broadcast Cast.unlock_cv) w a w' a' s t d h = ground arith
Known-Delta Pc.lock w a w' a' s t d h = ground arith
Known-Delta Pc.test w a w' a' s t d h = ground arith
Known-Delta Pc.check w a w' a' s t d h = ground arith
Known-Delta Pc.print w a w' a' s t d h = ground arith
Known-Delta Pc.load w a w' a' s t d h = ground arith
Known-Delta (Pc.store n) w a w' a' s t d h = ground arith
Known-Delta Pc.unlock w a w' a' s t d h = ground arith
Known-Delta Pc.failed w a w' a' s t d h = ground arith

pub Known-le : (p : Pc) (w a : ℕ) (s : Shared) → Known p w a s → s.sleep + a + s.handshake ≤ 1
Known-le (Pc.wait (Wait.write n)) w a s h = omega arith
Known-le (Pc.wait Wait.read) w a s h = omega arith
Known-le (Pc.wait Wait.lock_cv) w a s h = omega arith
Known-le (Pc.wait Wait.unlock_cv) w a s h = omega arith
Known-le (Pc.wait Wait.unlock_mutex) w a s h = omega arith
Known-le (Pc.wait Wait.sleep) w a s h = omega arith
Known-le (Pc.wait Wait.shake) w a s h = omega arith
Known-le (Pc.wait Wait.lock_mutex) w a s h = omega arith
Known-le (Pc.broadcast (Cast.loop i)) w a s h = omega arith
Known-le (Pc.broadcast (Cast.wake i)) w a s h = omega arith
Known-le (Pc.broadcast (Cast.shake i)) w a s h = omega arith
Known-le (Pc.broadcast Cast.reset) w a s h = omega arith
Known-le (Pc.broadcast Cast.lock_cv) w a s h = omega arith
Known-le (Pc.broadcast Cast.unlock_cv) w a s h = omega arith
Known-le Pc.lock w a s h = omega arith
Known-le Pc.test w a s h = omega arith
Known-le Pc.check w a s h = omega arith
Known-le Pc.print w a s h = omega arith
Known-le Pc.load w a s h = omega arith
Known-le (Pc.store n) w a s h = omega arith
Known-le Pc.unlock w a s h = omega arith
Known-le Pc.failed w a s h = omega arith
