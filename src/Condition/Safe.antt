-- ===== src/Condition/Safe.antt =====
-- lab/lab8/condition_sem.c: only one thread at a time is between my_mutex_lock and my_mutex_unlock,
-- and what that makes of the buffer.
use tiny_os_qemu.Base.{
  ℕ, ◌+◌, ◌≡◌, ◌≢◌, ◌≤◌, refl, true, false, Option, none, some, List, [], ◌∷◌, if◌then◌else◌,
  update, arith, ==_refl, ◌==◌, ==_iff, Bool-cases, inl, inr, ap, sym, ◌∙◌,
}
use mathlib.Core.Path.{subst}
use native.Mathlib.Decide.{ℕ_discrete}
use tiny_os_qemu.Condition.{Shared, Role, Pc, step, Threads, turn, run, started}
use tiny_os_qemu.Condition.Inside.{
  is_inside, Quiet, Knows, Inside, step-Inside, Outside, step-Outside, Knows-same,
}

-- Either nobody is inside and `mutex` is 1, or one thread is inside and `mutex` is 0.
pub data IsSafe (buf_size : ℕ) (role : ℕ → Role) (t : Threads) : Type 0 where
  free :
      t.shared.mutex ≡ 1
      → ((j : ℕ) → is_inside (t.pc j) ≡ false)
      → Quiet buf_size t.shared
      → IsSafe buf_size role t
  held :
      (i : ℕ)
      → t.shared.mutex ≡ 0
      → is_inside (t.pc i) ≡ true
      → ((j : ℕ) → j ≢ i → is_inside (t.pc j) ≡ false)
      → Knows buf_size (role i) (t.pc i) t.shared
      → IsSafe buf_size role t

abbrev pub moved : ℕ → Threads → Shared × Pc → Threads
moved i t (s, p) = record { pc = update t.pc i p; shared = s }

moved-pc :
    (i j : ℕ) (t : Threads) (s : Shared) (p : Pc)
    → (moved i t (s, p)).pc j ≡ (if i == j then p else t.pc j)
moved-pc i j t s p = refl

pub moved_self : (i : ℕ) (t : Threads) (s : Shared) (p : Pc) → (moved i t (s, p)).pc i ≡ p
moved_self i t s p = rw (==_refl i) refl

pub moved_other :
    (i j : ℕ) (t : Threads) (s : Shared) (p : Pc) → j ≢ i → (moved i t (s, p)).pc j ≡ t.pc j
moved_other i j t s p h = elim (Bool-cases (i == j)) [
  | inl e ↦ absurd (h (sym ((==_iff i j).0 e)))
  | inr e ↦ rw e refl
]

-- Nobody is inside after a move to a place outside.
all_outside :
    (i : ℕ) (t : Threads) (s : Shared) (p : Pc)
    → ((j : ℕ) → j ≢ i → is_inside (t.pc j) ≡ false)
    → is_inside p ≡ false
    → (j : ℕ) → is_inside ((moved i t (s, p)).pc j) ≡ false
all_outside i t s p o e j = elim (Bool-cases (i == j)) [
  | inl q ↦ rw q e
  | inr q ↦ rw q (o j (λ x. absurd (ground (arith, ==_iff i j))))
]

module _ (buf_size : ℕ) (role : ℕ → Role) where
  free_moved :
      (i : ℕ) (t : Threads) (o : Option (Shared × Pc))
      → t.shared.mutex ≡ 1
      → ((j : ℕ) → is_inside (t.pc j) ≡ false)
      → Quiet buf_size t.shared
      → Outside t.shared o
      → IsSafe buf_size role (elim o [ none ↦ t | some r ↦ moved i t r ])
  free_moved i t none m o q h = IsSafe.free m o q
  free_moved i t (some (s, p)) m o q (a, b, c, inl (f, e)) =
      IsSafe.free (e ∙ m) (all_outside i t s p (λ j _. o j) f) (omega arith, omega arith)
  free_moved i t (some (s, p)) m o q (a, b, c, inr (f, e)) =
      IsSafe.held i (omega arith) (rw (moved_self i t s p) (ap is_inside f))
        (λ j d. ap is_inside (moved_other i j t s p d) ∙ o j)
        (subst (λ x. Knows buf_size (role i) x s) (sym (moved_self i t s p ∙ f))
          (omega arith, omega arith))

  held_moved :
      (i : ℕ) (t : Threads) (o : Option (Shared × Pc))
      → t.shared.mutex ≡ 0
      → is_inside (t.pc i) ≡ true
      → ((j : ℕ) → j ≢ i → is_inside (t.pc j) ≡ false)
      → Knows buf_size (role i) (t.pc i) t.shared
      → Inside buf_size (role i) o
      → IsSafe buf_size role (elim o [ none ↦ t | some r ↦ moved i t r ])
  held_moved i t none m n o k h = IsSafe.held i m n o k
  held_moved i t (some (s, p)) m n o k (inl (f, e, q)) =
      IsSafe.held i e (ap is_inside (moved_self i t s p) ∙ f)
        (λ j d. ap is_inside (moved_other i j t s p d) ∙ o j d)
        (subst (λ x. Knows buf_size (role i) x s) (sym (moved_self i t s p)) q)
  held_moved i t (some (s, p)) m n o k (inr (f, e, q)) = IsSafe.free e (all_outside i t s p o f) q

  other_moved :
      (i j : ℕ) (t : Threads) (o : Option (Shared × Pc))
      → j ≢ i
      → t.shared.mutex ≡ 0
      → is_inside (t.pc i) ≡ true
      → ((l : ℕ) → l ≢ i → is_inside (t.pc l) ≡ false)
      → Knows buf_size (role i) (t.pc i) t.shared
      → Outside t.shared o
      → IsSafe buf_size role (elim o [ none ↦ t | some r ↦ moved j t r ])
  other_moved i j t none d m n o k h = IsSafe.held i m n o k
  other_moved i j t (some (s, p)) d m n o k (a, b, c, inl (f, e)) =
      IsSafe.held i (e ∙ m) (ap is_inside (moved_other j i t s p (λ x. d (sym x))) ∙ n)
        (λ l x. elim (Bool-cases (j == l)) [ inl y ↦ rw y f | inr y ↦ rw y (o l x) ])
        (subst (λ x. Knows buf_size (role i) x s) (sym (moved_other j i t s p (λ x. d (sym x))))
          (Knows-same buf_size (role i) (t.pc i) t.shared s a b c k))
  other_moved i j t (some (s, p)) d m n o k (a, b, c, inr (f, e)) = absurd (omega arith)

  turn-IsSafe :
      (i : ℕ) (t : Threads) → IsSafe buf_size role t → IsSafe buf_size role (turn buf_size role i t)
  unfolding turn
  turn-IsSafe i t (IsSafe.free m o q) =
      free_moved i t (step buf_size (role i) (t.pc i) t.shared) m o q
        (step-Outside buf_size (role i) (t.pc i) t.shared (o i))
  turn-IsSafe j t (IsSafe.held i m n o k) = elim (ℕ_discrete j i) [
    | yes e ↦
        subst (λ x. IsSafe buf_size role (turn buf_size role x t)) (sym e)
          (held_moved i t (step buf_size (role i) (t.pc i) t.shared) m n o k
            (step-Inside buf_size (role i) (t.pc i) t.shared n m k))
    | no d ↦
        other_moved i j t (step buf_size (role j) (t.pc j) t.shared) d m n o k
          (step-Outside buf_size (role j) (t.pc j) t.shared (o j d))
  ]

  run-IsSafe :
      (is : List ℕ) (t : Threads)
      → IsSafe buf_size role t
      → IsSafe buf_size role (run buf_size role is t)
  unfolding run
  run-IsSafe [] t h = h
  run-IsSafe (i ∷ is) t h = run-IsSafe is (turn buf_size role i t) (turn-IsSafe i t h)

  started-IsSafe : IsSafe buf_size role started
  started-IsSafe = IsSafe.free refl (λ j. refl) (omega arith, omega arith)

  -- What holds whenever the threads are looked at.
  pub record IsSound (t : Threads) : Type 0 where
    pub asserts_hold : (i : ℕ) → t.pc i ≢ Pc.failed
    pub one_inside : (i j : ℕ) → is_inside (t.pc i) ≡ true → is_inside (t.pc j) ≡ true → i ≡ j
    pub bounded : t.shared.cnt ≤ buf_size
    pub closed_le : t.shared.closed ≤ t.shared.opened
    pub opened_le : t.shared.opened ≤ t.shared.closed + buf_size

  Knows-bounds :
      (r : Role) (p : Pc) (s : Shared)
      → Knows buf_size r p s
      → (s.cnt ≤ buf_size) × (s.closed ≤ s.opened) × (s.opened ≤ s.closed + buf_size)
  Knows-bounds r Pc.check s h = (omega arith, omega arith, omega arith)
  Knows-bounds r Pc.print s h = (omega arith, omega arith, omega arith)
  Knows-bounds Role.producer Pc.load s h = (omega arith, omega arith, omega arith)
  Knows-bounds Role.consumer Pc.load s h = (omega arith, omega arith, omega arith)
  Knows-bounds Role.producer (Pc.store n) s h = (omega arith, omega arith, omega arith)
  Knows-bounds Role.consumer (Pc.store n) s h = (omega arith, omega arith, omega arith)
  Knows-bounds r Pc.failed s h = absurd h
  Knows-bounds r Pc.lock s h = (omega arith, omega arith, omega arith)
  Knows-bounds r Pc.test s h = (omega arith, omega arith, omega arith)
  Knows-bounds r Pc.unlock s h = (omega arith, omega arith, omega arith)
  Knows-bounds r (Pc.wait w) s h = (omega arith, omega arith, omega arith)
  Knows-bounds r (Pc.broadcast c) s h = (omega arith, omega arith, omega arith)

  failed_outside : (p : Pc) → is_inside p ≡ false → p ≢ Pc.failed
  failed_outside p e q = cc (ap is_inside q)

  IsSafe-IsSound : (t : Threads) → IsSafe buf_size role t → IsSound t
  IsSafe-IsSound t (IsSafe.free m o q) = record {
    asserts_hold = λ i. failed_outside (t.pc i) (o i);
    one_inside = λ i j a b. cc (o i);
    bounded = q.1;
    closed_le = omega arith;
    opened_le = omega arith;
  }
  IsSafe-IsSound t (IsSafe.held h m n o k) =
      let (a, b, c) = Knows-bounds (role h) (t.pc h) t.shared k in
      record {
        asserts_hold = λ i q. elim (ℕ_discrete i h) [
          | yes e ↦ subst (λ p. Knows buf_size (role h) p t.shared) (ap t.pc (sym e) ∙ q) k
          | no d ↦ failed_outside (t.pc i) (o i d) q
        ];
        one_inside = λ i j x y. only h i (o i) x ∙ sym (only h j (o j) y);
        bounded = a;
        closed_le = b;
        opened_le = c;
      }
    where
      only : (h i : ℕ) → (i ≢ h → is_inside (t.pc i) ≡ false) → is_inside (t.pc i) ≡ true → i ≡ h
      only h i f x = elim (ℕ_discrete i h) [ yes e ↦ e | no d ↦ absurd (cc (f d)) ]

  -- However many producers and consumers there are and in whatever order they take their steps, after
  -- each step no assert has failed, at most one thread is between taking `mutex` and giving it back,
  -- there are at most `buf_size` items in the buffer, and the '(' printed so far are as many as the
  -- ')' or up to `buf_size` more.
  pub run-IsSound : (is : List ℕ) → IsSound (run buf_size role is started)
  run-IsSound is =
      IsSafe-IsSound (run buf_size role is started) (run-IsSafe is started started-IsSafe)
