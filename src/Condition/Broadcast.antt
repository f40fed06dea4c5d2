-- ===== src/Condition/Broadcast.antt =====
-- lab/lab8/condition_sem.c: a broadcast wakes the threads that are counted in `nwait`, all of them and
-- no other.
use tiny_os_qemu.Base.{
  ℕ, zero, suc, ◌+◌, ◌≡◌, ◌≢◌, ◌≤◌, ◌<◌, refl, Bool, true, false, Option, none, some, List, [], ◌∷◌,
  arith, inl, inr, ◌⊎◌, ap, sym, ◌∙◌, All,
}
use mathlib.Core.Path.{subst}
use native.Mathlib.Decide.{ℕ_discrete}
use tiny_os_qemu.Base.Tally.{tally, one_if, tally_change, tally-zero}
use tiny_os_qemu.Condition.{Shared, Cast, Role, Pc, step, Threads, turn, run, started}
use tiny_os_qemu.Condition.Safe.{moved, moved_self, moved_other}
use tiny_os_qemu.Condition.Wakes.{
  is_holder, is_waiting, is_woken, Still, Known, Counts, Held, step-Held,
}
use tiny_os_qemu.Condition.Effects.{Effect, Effects, step-Effects, Delta, Known-Delta, Known-le}

-- How many of the first `n` threads are waiting, and woken.
abbrev pub waiting : ℕ → Threads → ℕ
waiting n t = tally n (λ j. is_waiting (t.pc j))

abbrev pub woken : ℕ → Threads → ℕ
woken n t = tally n (λ j. is_woken (t.pc j))

moved-Counts :
    (n i : ℕ) (t : Threads) (s : Shared) (q : Pc)
    → i < n
    → Counts
        (t.pc i)
        q
        (waiting n t)
        (woken n t)
        (waiting n (moved i t (s, q)))
        (woken n (moved i t (s, q)))
moved-Counts n i t s q h = record {
  waiting_eq =
      subst
        (λ p.
          waiting n t + one_if (is_waiting p)
          ≡ waiting n (moved i t (s, q)) + one_if (is_waiting (t.pc i)))
        (moved_self i t s q)
        (tally_change n (λ j. is_waiting (t.pc j)) (λ j. is_waiting ((moved i t (s, q)).pc j)) i h
          (λ j _ d. sym (ap is_waiting (moved_other i j t s q d))));
  woken_eq =
      subst
        (λ p.
          woken n t + one_if (is_woken p) ≡ woken n (moved i t (s, q)) + one_if (is_woken (t.pc i)))
        (moved_self i t s q)
        (tally_change n (λ j. is_woken (t.pc j)) (λ j. is_woken ((moved i t (s, q)).pc j)) i h
          (λ j _ d. sym (ap is_woken (moved_other i j t s q d))));
}

-- A step that does not take `lock`, in numbers.
Effect-Delta :
    (p q : Pc) (s t : Shared) (w a w' a' : ℕ)
    → Effect p q s t
    → Counts p q w a w' a'
    → ((is_holder q ≡ false) × (t.lock ≡ s.lock) × Delta s t w a w' a')
      ⊎ ((is_holder q ≡ true) × (s.lock ≡ suc t.lock) × (Still a s → w ≡ s.nwait → Known q w' a' t))
Effect-Delta p q s t w a w' a' (Effect.alike h l n sl hs ew ek) c = inl (
  h,
  l,
  (
    n,
    inl (
      ground (arith, c.waiting_eq, ap one_if ew),
      ground (arith, c.woken_eq, ap one_if ek),
      sl,
      hs,
    ),
  ),
)
Effect-Delta p q s t w a w' a' (Effect.wakes h l n sl hs wp wq kp kq) c = inl (
  h,
  l,
  (
    n,
    inr (
        inl (
          ground (arith, c.waiting_eq, ap one_if wp, ap one_if wq),
          ground (arith, c.woken_eq, ap one_if kp, ap one_if kq),
          sl,
          hs,
        )),
  ),
)
Effect-Delta p q s t w a w' a' (Effect.shakes h l n sl hs wp wq kp kq) c = inl (
  h,
  l,
  (
    n,
    inr (
        inr (
          ground (arith, c.waiting_eq, ap one_if wp, ap one_if wq),
          ground (arith, c.woken_eq, ap one_if kp, ap one_if kq),
          sl,
          hs,
        )),
  ),
)
Effect-Delta p q s t w a w' a' (Effect.takes (inl e) l n sl hs wp kp) c =
    let x : w' ≡ w =
      ground (arith, c.waiting_eq, ap one_if wp, ap (λ z. one_if (is_waiting z)) e) in
    let y : a' ≡ a = ground (arith, c.woken_eq, ap one_if kp, ap (λ z. one_if (is_woken z)) e) in
    inr (
      ap is_holder e,
      l,
      λ b d.
          subst (λ z. Known z w' a' t) (sym e)
            ((omega arith, omega arith, omega arith), omega arith),
    )
Effect-Delta p q s t w a w' a' (Effect.takes (inr e) l n sl hs wp kp) c =
    let x : w' ≡ w =
      ground (arith, c.waiting_eq, ap one_if wp, ap (λ z. one_if (is_waiting z)) e) in
    let y : a' ≡ a = ground (arith, c.woken_eq, ap one_if kp, ap (λ z. one_if (is_woken z)) e) in
    inr (
      ap is_holder e,
      l,
      λ b d.
          subst (λ z. Known z w' a' t) (sym e)
            ((omega arith, omega arith, omega arith), omega arith),
    )

module _ (n buf_size : ℕ) (role : ℕ → Role) where
  -- Either nobody holds `lock` and `nwait` is the number of threads that wait, or one thread holds it
  -- and knows how far it is.
  pub data IsCounted (t : Threads) : Type 0 where
    free :
        t.shared.lock ≡ 1
        → ((j : ℕ) → is_holder (t.pc j) ≡ false)
        → Still (woken n t) t.shared
        → waiting n t ≡ t.shared.nwait
        → IsCounted t
    held :
        (i : ℕ)
        → t.shared.lock ≡ 0
        → is_holder (t.pc i) ≡ true
        → ((j : ℕ) → j ≢ i → is_holder (t.pc j) ≡ false)
        → Known (t.pc i) (waiting n t) (woken n t) t.shared
        → IsCounted t

  no_holder :
      (i : ℕ) (t : Threads) (s : Shared) (p : Pc)
      → ((j : ℕ) → j ≢ i → is_holder (t.pc j) ≡ false)
      → is_holder p ≡ false
      → (j : ℕ) → is_holder ((moved i t (s, p)).pc j) ≡ false
  no_holder i t s p o e j = elim (ℕ_discrete j i) [
    | yes q ↦
        ap (λ l. is_holder ((moved i t (s, p)).pc l)) q ∙ ap is_holder (moved_self i t s p) ∙ e
    | no q ↦ ap is_holder (moved_other i j t s p q) ∙ o j q
  ]

  by_holder :
      (i : ℕ) (t : Threads) (o : Option (Shared × Pc))
      → i < n
      → t.shared.lock ≡ 0
      → is_holder (t.pc i) ≡ true
      → ((j : ℕ) → j ≢ i → is_holder (t.pc j) ≡ false)
      → Known (t.pc i) (waiting n t) (woken n t) t.shared
      → Held (t.pc i) (waiting n t) (woken n t) o
      → IsCounted (elim o [ none ↦ t | some r ↦ moved i t r ])
  by_holder i t none l z h o k x = IsCounted.held i z h o k
  by_holder i t (some (s, q)) l z h o k x =
      elim (x (waiting n (moved i t (s, q))) (woken n (moved i t (s, q)))
        (moved-Counts n i t s q l)) [
          | inl (f, e, m) ↦
              IsCounted.held i e (ap is_holder (moved_self i t s q) ∙ f)
                (λ j d. ap is_holder (moved_other i j t s q d) ∙ o j d)
                (subst (λ p. Known p (waiting n (moved i t (s, q))) (woken n (moved i t (s, q))) s)
                  (sym (moved_self i t s q)) m)
          | inr (f, e, b, c) ↦ IsCounted.free e (no_holder i t s q o f) b c
        ]

  Still-Delta :
      (s t : Shared) (w a w' a' : ℕ)
      → Delta s t w a w' a'
      → Still a s
      → w ≡ s.nwait
      → Still a' t × (w' ≡ t.nwait)
  Still-Delta s t w a w' a' d h e = ((ground arith, ground arith, ground arith), ground arith)

  unheld :
      (i : ℕ) (t : Threads) (o : Option (Shared × Pc))
      → i < n
      → t.shared.lock ≡ 1
      → ((j : ℕ) → is_holder (t.pc j) ≡ false)
      → Still (woken n t) t.shared
      → waiting n t ≡ t.shared.nwait
      → Effects (t.pc i) t.shared o
      → IsCounted (elim o [ none ↦ t | some r ↦ moved i t r ])
  unheld i t none l z o b c x = IsCounted.free z o b c
  unheld i t (some (s, q)) l z o b c x =
      elim (Effect-Delta (t.pc i) q t.shared s (waiting n t) (woken n t)
        (waiting n (moved i t (s, q))) (woken n (moved i t (s, q))) x (moved-Counts n i t s q l)) [
          | inl (f, e, d) ↦
              let (u, v) =
                Still-Delta t.shared s (waiting n t) (woken n t) (waiting n (moved i t (s, q)))
                  (woken n (moved i t (s, q))) d b c in
              IsCounted.free (e ∙ z) (no_holder i t s q (λ j _. o j) f) u v
          | inr (f, e, k) ↦
              IsCounted.held i (omega arith) (ap is_holder (moved_self i t s q) ∙ f)
                (λ j d. ap is_holder (moved_other i j t s q d) ∙ o j)
                (subst (λ p. Known p (waiting n (moved i t (s, q))) (woken n (moved i t (s, q))) s)
                  (sym (moved_self i t s q)) (k b c))
        ]

  by_other :
      (i j : ℕ) (t : Threads) (o : Option (Shared × Pc))
      → j < n
      → j ≢ i
      → t.shared.lock ≡ 0
      → is_holder (t.pc i) ≡ true
      → ((l : ℕ) → l ≢ i → is_holder (t.pc l) ≡ false)
      → Known (t.pc i) (waiting n t) (woken n t) t.shared
      → Effects (t.pc j) t.shared o
      → IsCounted (elim o [ none ↦ t | some r ↦ moved j t r ])
  by_other i j t none l d z h o k x = IsCounted.held i z h o k
  by_other i j t (some (s, q)) l d z h o k x =
      elim (Effect-Delta (t.pc j) q t.shared s (waiting n t) (woken n t)
        (waiting n (moved j t (s, q))) (woken n (moved j t (s, q))) x (moved-Counts n j t s q l)) [
          | inl (f, e, c) ↦
              IsCounted.held i (e ∙ z) (ap is_holder (moved_other j i t s q (λ y. d (sym y))) ∙ h)
                (λ m y. elim (ℕ_discrete m j) [
                  | yes u ↦
                      ap (λ v. is_holder ((moved j t (s, q)).pc v)) u
                      ∙ ap is_holder (moved_self j t s q)
                      ∙ f
                  | no u ↦ ap is_holder (moved_other j m t s q u) ∙ o m y
                ])
                (subst (λ p. Known p (waiting n (moved j t (s, q))) (woken n (moved j t (s, q))) s)
                  (sym (moved_other j i t s q (λ y. d (sym y))))
                  (Known-Delta (t.pc i) (waiting n t) (woken n t) (waiting n (moved j t (s, q)))
                    (woken n (moved j t (s, q))) t.shared s c k))
          | inr (f, e, c) ↦ absurd (omega arith)
        ]

  turn-IsCounted : (i : ℕ) (t : Threads) → i < n → IsCounted t → IsCounted (turn buf_size role i t)
  unfolding turn
  turn-IsCounted i t l (IsCounted.free z o b c) =
      unheld i t (step buf_size (role i) (t.pc i) t.shared) l z o b c
        (step-Effects buf_size (role i) (t.pc i) t.shared (o i))
  turn-IsCounted j t l (IsCounted.held i z h o k) = elim (ℕ_discrete j i) [
    | yes e ↦
        subst (λ x. IsCounted (turn buf_size role x t)) (sym e)
          (by_holder i t (step buf_size (role i) (t.pc i) t.shared) (omega arith) z h o k
            (step-Held buf_size (role i) (t.pc i) (waiting n t) (woken n t) t.shared h z k))
    | no d ↦
        by_other i j t (step buf_size (role j) (t.pc j) t.shared) l d z h o k
          (step-Effects buf_size (role j) (t.pc j) t.shared (o j d))
  ]

  run-IsCounted :
      (is : List ℕ) (t : Threads)
      → All (λ i. i < n) is
      → IsCounted t
      → IsCounted (run buf_size role is t)
  unfolding run
  run-IsCounted [] t l h = h
  run-IsCounted (i ∷ is) t l h =
      run-IsCounted is (turn buf_size role i t) l.1 (turn-IsCounted i t l.0 h)

  started-IsCounted : IsCounted started
  started-IsCounted =
      IsCounted.free refl (λ j. refl)
        (tally-zero n (λ j. is_woken (started.pc j)) (λ i l. refl), refl, refl)
        (tally-zero n (λ j. is_waiting (started.pc j)) (λ i l. refl))

tally-none : (n : ℕ) (f : ℕ → Bool) → tally n f ≡ 0 → (i : ℕ) → i < n → f i ≡ false
unfolding tally
tally-none zero f e i l = absurd (omega arith)
tally-none (suc n) f e i l = elim (ℕ_discrete i n) [
  | yes q ↦ ap f q ∙ last (f n) (omega arith)
  | no q ↦ tally-none n f (omega arith) i (omega arith)
]
  where
    last : (b : Bool) → one_if b ≡ 0 → b ≡ false
    last true h = absurd (omega arith)
    last false h = refl

-- What holds of the condition variable whenever the threads are looked at.
pub record IsPaired (n : ℕ) (t : Threads) : Type 0 where
  pub one_holder : (i j : ℕ) → is_holder (t.pc i) ≡ true → is_holder (t.pc j) ≡ true → i ≡ j
  pub counted :
      t.shared.lock ≢ 0
      → (t.shared.nwait ≡ waiting n t) × (t.shared.sleep ≡ 0) × (t.shared.handshake ≡ 0)
  pub one_wake_up : t.shared.sleep + woken n t + t.shared.handshake ≤ 1
  pub all_woken : (i j : ℕ) → t.pc i ≡ Pc.broadcast Cast.reset → j < n → is_waiting (t.pc j) ≡ false

only_holder :
    (t : Threads) (h i : ℕ)
    → ((j : ℕ) → j ≢ h → is_holder (t.pc j) ≡ false)
    → is_holder (t.pc i) ≡ true
    → i ≡ h
only_holder t h i o x = elim (ℕ_discrete i h) [ yes e ↦ e | no d ↦ absurd (cc (o i d)) ]

IsCounted-IsPaired :
    (n buf_size : ℕ) (role : ℕ → Role) (t : Threads) → IsCounted n buf_size role t → IsPaired n t
IsCounted-IsPaired n buf_size role t (IsCounted.free z o b c) = record {
  one_holder = λ i j x y. absurd (cc (o i));
  counted = λ l. (sym c, b.1, b.2);
  one_wake_up = omega arith;
  all_woken = λ i j e l. absurd (cc (o i, ap is_holder e));
}
IsCounted-IsPaired n buf_size role t (IsCounted.held h z x o k) = record {
  one_holder = λ i j a b. only_holder t h i o a ∙ sym (only_holder t h j o b);
  counted = λ l. absurd (l z);
  one_wake_up = Known-le (t.pc h) (waiting n t) (woken n t) t.shared k;
  all_woken = λ i j e l.
      tally-none n (λ m. is_waiting (t.pc m))
        (subst (λ p. Known p (waiting n t) (woken n t) t.shared)
          (ap t.pc (sym (only_holder t h i o (ap is_holder e))) ∙ e) k).1
        j l;
}

-- For `n` threads, in whatever order they take their steps, after each step: at most one thread is
-- between taking and giving back the condition variable's lock; while nobody is, `nwait` is the number
-- of threads that wait for a broadcast, and no wake-up or handshake is left over; at most
-- one wake-up is under way; and when a broadcast has ended its loop, no thread waits any more.
pub run-IsPaired :
    (n buf_size : ℕ) (role : ℕ → Role) (is : List ℕ)
    → All (λ i. i < n) is
    → IsPaired n (run buf_size role is started)
run-IsPaired n buf_size role is h =
    IsCounted-IsPaired n buf_size role (run buf_size role is started)
      (run-IsCounted n buf_size role is started h (started-IsCounted n buf_size role))
