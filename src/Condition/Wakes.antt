-- ===== src/Condition/Wakes.antt =====
-- lab/lab8/condition_sem.c: the handshake of `my_cv_broadcast` with the threads in `my_cv_wait`.
use tiny_os_qemu.Base.{
  ℕ, zero, suc, ◌+◌, ◌≡◌, refl, Bool, true, false, Option, none, some, ltb, arith, Bool-cases, inl,
  inr, ◌⊎◌,
}
use tiny_os_qemu.Base.Tally.{one_if}
use tiny_os_qemu.Condition.{
  Shared, Wait, Cast, Role, Pc, sem_wait, my_cv_wait, my_cv_broadcast, after_wait, after_broadcast,
  step,
}

-- Whether the thread has taken the condition variable's `lock`.
abbrev pub is_holder : Pc → Bool
is_holder (Pc.wait Wait.read) = true
is_holder (Pc.wait (Wait.write n)) = true
is_holder (Pc.wait Wait.unlock_cv) = true
is_holder (Pc.broadcast Cast.lock_cv) = false
is_holder (Pc.broadcast c) = true
is_holder _ = false

-- Whether the thread has next_cnt itself in `nwait` and has not been woken since.
abbrev pub is_waiting : Pc → Bool
is_waiting (Pc.wait Wait.unlock_cv) = true
is_waiting (Pc.wait Wait.unlock_mutex) = true
is_waiting (Pc.wait Wait.sleep) = true
is_waiting _ = false

-- Whether the thread has been woken and owes the handshake.
abbrev pub is_woken : Pc → Bool
is_woken (Pc.wait Wait.shake) = true
is_woken _ = false

-- No one is being woken.
abbrev pub Still : ℕ → Shared → Type 0
Still a s = (a ≡ 0) × (s.sleep ≡ 0) × (s.handshake ≡ 0)

-- What the thread that has taken `lock` knows at each place, with `w` threads waiting and `a` woken.
abbrev pub Known : Pc → ℕ → ℕ → Shared → Type 0
Known (Pc.wait (Wait.write n)) w a s = Still a s × (w ≡ s.nwait) × (n ≡ s.nwait)
Known (Pc.broadcast (Cast.loop i)) w a s = Still a s × (w + i ≡ s.nwait)
Known (Pc.broadcast (Cast.wake i)) w a s = Still a s × (w + i ≡ s.nwait)
Known (Pc.broadcast (Cast.shake i)) w a s =
    (s.sleep + a + s.handshake ≡ 1) × (suc (w + i) ≡ s.nwait + s.sleep)
Known (Pc.broadcast Cast.reset) w a s = Still a s × (w ≡ 0)
Known p w a s = Still a s × (w ≡ s.nwait)

-- How the numbers of waiting and woken threads change as one thread goes from `p` to `q`.
pub record Counts (p q : Pc) (w a w' a' : ℕ) : Type 0 where
  pub waiting_eq : w + one_if (is_waiting q) ≡ w' + one_if (is_waiting p)
  pub woken_eq : a + one_if (is_woken q) ≡ a' + one_if (is_woken p)

abbrev pub Held : Pc → ℕ → ℕ → Option (Shared × Pc) → Type 0
Held p w a none = Unit {0}
Held p w a (some (t, q)) =
    (w' a' : ℕ)
    → Counts p q w a w' a'
    → ((is_holder q ≡ true) × (t.lock ≡ 0) × Known q w' a' t)
      ⊎ ((is_holder q ≡ false) × (t.lock ≡ 1) × Still a' t × (w' ≡ t.nwait))

pub wait-Held :
    (v : Wait) (w a : ℕ) (s : Shared)
    → is_holder (Pc.wait v) ≡ true
    → s.lock ≡ 0
    → Known (Pc.wait v) w a s
    → Held (Pc.wait v) w a (after_wait (my_cv_wait v s))
unfolding my_cv_wait
wait-Held Wait.lock_cv w a s i z h = absurd (cc)
wait-Held Wait.read w a s i z h =
    λ w' a' c. inl (refl, z, ((omega arith, omega arith, omega arith), omega arith, refl))
wait-Held (Wait.write n) w a s i z h =
    λ w' a' c. inl (refl, z, ((omega arith, omega arith, omega arith), omega arith))
wait-Held Wait.unlock_cv w a s i z h =
    λ w' a' c. inr (refl, omega arith, (omega arith, omega arith, omega arith), omega arith)
wait-Held Wait.unlock_mutex w a s i z h = absurd (cc)
wait-Held Wait.sleep w a s i z h = absurd (cc)
wait-Held Wait.shake w a s i z h = absurd (cc)
wait-Held Wait.lock_mutex w a s i z h = absurd (cc)

pub broadcast-Held :
    (v : Cast) (w a : ℕ) (s : Shared)
    → is_holder (Pc.broadcast v) ≡ true
    → s.lock ≡ 0
    → Known (Pc.broadcast v) w a s
    → Held (Pc.broadcast v) w a (after_broadcast (my_cv_broadcast v s))
unfolding my_cv_broadcast
broadcast-Held Cast.lock_cv w a s i z h = absurd (cc)
broadcast-Held (Cast.loop i) w a s e z h = elim (Bool-cases (ltb i s.nwait)) [
  | inl l ↦ rw l (λ w' a' c. inl (refl, z, ((omega arith, omega arith, omega arith), omega arith)))
  | inr l ↦ rw l (λ w' a' c. inl (refl, z, ((omega arith, omega arith, omega arith), ground arith)))
]
broadcast-Held (Cast.wake i) w a s e z h = λ w' a' c. inl (refl, z, (omega arith, omega arith))
broadcast-Held (Cast.shake i) w a s e z h = go s.handshake refl
  where
    go :
        (n : ℕ)
        → s.handshake ≡ n
        → Held (Pc.broadcast (Cast.shake i)) w a (
            after_broadcast (elim (sem_wait n) [
              | none ↦ none
              | some m ↦ some (record s { handshake = m }, some (Cast.loop (suc i)))
            ]))
    go zero d = tt
    go (suc n) d = λ w' a' c. inl (refl, z, ((omega arith, omega arith, omega arith), omega arith))
broadcast-Held Cast.reset w a s i z h =
    λ w' a' c. inl (refl, z, ((omega arith, omega arith, omega arith), omega arith))
broadcast-Held Cast.unlock_cv w a s i z h =
    λ w' a' c. inr (refl, omega arith, (omega arith, omega arith, omega arith), omega arith)

pub step-Held :
    (buf_size : ℕ) (r : Role) (p : Pc) (w a : ℕ) (s : Shared)
    → is_holder p ≡ true
    → s.lock ≡ 0
    → Known p w a s
    → Held p w a (step buf_size r p s)
unfolding step
step-Held buf_size r (Pc.wait v) w a s i z h = wait-Held v w a s i z h
step-Held buf_size r (Pc.broadcast v) w a s i z h = broadcast-Held v w a s i z h
step-Held buf_size r Pc.lock w a s i z h = absurd (cc)
step-Held buf_size r Pc.test w a s i z h = absurd (cc)
step-Held buf_size r Pc.check w a s i z h = absurd (cc)
step-Held buf_size r Pc.print w a s i z h = absurd (cc)
step-Held buf_size r Pc.load w a s i z h = absurd (cc)
step-Held buf_size r (Pc.store n) w a s i z h = absurd (cc)
step-Held buf_size r Pc.unlock w a s i z h = absurd (cc)
step-Held buf_size r Pc.failed w a s i z h = absurd (cc)
