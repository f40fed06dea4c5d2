-- ===== src/Base/Exec.antt =====
-- Kernel code as a state passed on, with `none` for a failed `assert`, a panic or a fault.
use mathlib.Core.Path.{◌≡◌, refl}
use mathlib.Core.Option.{Option, none, some}
use mathlib.Core.Bool.{Bool, true, false}
use Prim.Native.Nat.{ℕ, zero, suc}

abbrev pub Exec : Type 0 → Type 0 → Type 0
Exec S A = S → Option (A × S)

module _ {S : Type 0} where
  abbrev pub pure : {A : Type 0} → A → Exec S A
  pure a s = some (a, s)

  infixl 5 ◌>>=◌ ◌>>◌
  abbrev pub ◌>>=◌ : {A B : Type 0} → Exec S A → (A → Exec S B) → Exec S B
  ◌>>=◌ m f s = elim (m s) [ none ↦ none | some (a, t) ↦ f a t ]

  abbrev pub ◌>>◌ : {B : Type 0} → Exec S (Unit {0}) → Exec S B → Exec S B
  m >> k = m >>= λ _. k

  abbrev pub get : Exec S S
  get s = some (s, s)

  abbrev pub modify : (S → S) → Exec S (Unit {0})
  modify f s = some (tt, f s)

  abbrev pub abort : {A : Type 0} → Exec S A
  abort s = none

  abbrev pub assert : Bool → Exec S (Unit {0})
  assert true s = some (tt, s)
  assert false s = none

  -- `if (b) m;`
  abbrev pub when : Bool → Exec S (Unit {0}) → Exec S (Unit {0})
  when true m = m
  when false m = pure tt

  -- for (i = i; rounds left; i++) body(i);
  unfoldable pub for_range : ℕ → ℕ → (ℕ → Exec S (Unit {0})) → Exec S (Unit {0})
  for_range zero i body = pure tt
  for_range (suc n) i body = do body i; for_range n (suc i) body

-- The code does not abort, and its result and state satisfy `P`.
abbrev pub Post : {S A : Type 0} → (A → S → Type 0) → Option (A × S) → Type 0
Post P none = ⊥
Post P (some (a, s)) = P a s

module _ {S A B : Type 0} where
  pub Post->>= :
      (P : A → S → Type 0) (Q : B → S → Type 0) (m : Exec S A) (f : A → Exec S B) (s : S)
      → Post P (m s)
      → ((a : A) (t : S) → P a t → Post Q (f a t))
      → Post Q ((m >>= f) s)
  Post->>= P Q m f s = go (m s)
    where
      go :
          (o : Option (A × S))
          → Post P o
          → ((a : A) (t : S) → P a t → Post Q (f a t))
          → Post Q (elim o [ none ↦ none | some (a, t) ↦ f a t ])
      go none p h = absurd p
      go (some (a, t)) p h = h a t p

  -- A step whose outcome is known.
  pub bind-eq :
      (m : Exec S A) (f : A → Exec S B) (s t : S) (a : A) → m s ≡ some (a, t) → (m >>= f) s ≡ f a t
  bind-eq m f s t a e = rw (e, ◌>>=◌) refl

module _ {S B : Type 0} where
  pub assert-eq : (b : Bool) (k : Exec S B) (s : S) → b ≡ true → (assert b >> k) s ≡ k s
  assert-eq b k s e = rw e refl

module _ {S A : Type 0} where
  pub Post-mono :
      (P Q : A → S → Type 0) (o : Option (A × S))
      → ((a : A) (t : S) → P a t → Q a t)
      → Post P o
      → Post Q o
  Post-mono P Q none h p = absurd p
  Post-mono P Q (some (a, t)) h p = h a t p

  pub Post-both :
      (P Q : A → S → Type 0) (o : Option (A × S))
      → Post P o
      → Post Q o
      → Post (λ a t. P a t × Q a t) o
  Post-both P Q none p q = absurd p
  Post-both P Q (some (a, t)) p q = (p, q)

module _ {S : Type 0} where
  -- An invariant of the rounds holds behind the loop.
  pub Post-for_range :
      (P : S → Type 0) (n i : ℕ) (body : ℕ → Exec S (Unit {0}))
      → ((j : ℕ) (s : S) → P s → Post (λ _. P) (body j s))
      → (s : S) → P s
      → Post (λ _. P) (for_range n i body s)
  unfolding for_range
  Post-for_range P zero i body h s p = p
  Post-for_range P (suc n) i body h s p =
      Post->>= (λ _. P) (λ _. P) (body i) (λ _. for_range n (suc i) body) s (h i s p)
        (λ _ t q. Post-for_range P n (suc i) body h t q)
