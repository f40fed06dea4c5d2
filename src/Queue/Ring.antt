-- ===== src/Queue/Ring.antt =====
-- kernel/klib/list.c: a ring as the list of its nodes, in the order of `next`.
use tiny_os_qemu.Base.{
  ℕ, ◌≡◌, ◌≢◌, refl, false, List, [], ◌∷◌, All, ◌==◌, ==_refl, if◌then◌else◌, arith, sym, ap, ◌∙◌,
}
use mathlib.Core.Path.{subst}
use tiny_os_qemu.Queue.{Nodes, list_add_next, bypass}

-- From `a` the nodes `xs` lead to `b`, and back.
abbrev pub Linked : Nodes → ℕ → List ℕ → ℕ → Type 0
Linked s a [] b = (s.next a ≡ b) × (s.prev b ≡ a)
Linked s a (x ∷ xs) b = (s.next a ≡ x) × (s.prev x ≡ a) × Linked s x xs b

-- No node of the ring twice; `h` is the head, no node of the list.
abbrev pub Distinct : List ℕ → Type 0
Distinct [] = Unit {0}
Distinct (x ∷ xs) = All (λ y. y ≢ x) xs × Distinct xs

pub record IsRing (s : Nodes) (h : ℕ) (xs : List ℕ) : Type 0 where
  pub linked : Linked s h xs h
  pub distinct : Distinct (h ∷ xs)

-- The nodes keep their fields.
abbrev pub Same : Nodes → Nodes → ℕ → Type 0
Same s t x = (t.next x ≡ s.next x) × (t.prev x ≡ s.prev x)

pub Linked-Same :
    (s t : Nodes) (a b : ℕ) (xs : List ℕ)
    → t.next a ≡ s.next a
    → t.prev b ≡ s.prev b
    → All (Same s t) xs
    → Linked s a xs b
    → Linked t a xs b
Linked-Same s t a b [] n p h (e, f) = (n ∙ e, p ∙ f)
Linked-Same s t a b (x ∷ xs) n p h (e, f, l) =
    (n ∙ e, h.0.1 ∙ f, Linked-Same s t x b xs h.0.0 p h.1 l)

pub IsRing-Same :
    (s t : Nodes) (h : ℕ) (xs : List ℕ) → All (Same s t) (h ∷ xs) → IsRing s h xs → IsRing t h xs
IsRing-Same s t h xs a r = record {
  linked = Linked-Same s t h h xs a.0.0 a.0.1 a.1 r.linked;
  distinct = r.distinct;
}

module _ (s : Nodes) (h p : ℕ) (ne : p ≢ h) where
  pub next-add :
      (a : ℕ)
      → (list_add_next h p s).next a ≡ (if h == a then p else if p == a then s.next h else s.next a)
  next-add a = ground (arith, ==_refl p, ne)

  pub prev-add :
      (a : ℕ)
      → (list_add_next h p s).prev a ≡ (if s.next h == a then p else if p == a then h else s.prev a)
  prev-add a = ground (arith, ==_refl p, ne)

module _ (s : Nodes) (p : ℕ) where
  pub next-bypass : (a : ℕ) → (bypass p s).next a ≡ (if s.prev p == a then s.next p else s.next a)
  next-bypass a = refl

  pub prev-bypass : (a : ℕ) → (bypass p s).prev a ≡ (if s.next p == a then s.prev p else s.prev a)
  prev-bypass a = ground arith

pub next-among :
    (P : ℕ → Type 0) (s : Nodes) (a b : ℕ) (xs : List ℕ)
    → Linked s a xs b
    → P b
    → All P xs
    → P (s.next a)
next-among P s a b [] (e, f) pb pa = subst P (sym e) pb
next-among P s a b (x ∷ xs) (e, f, l) pb pa = subst P (sym e) pa.0

pub prev-among :
    (P : ℕ → Type 0) (s : Nodes) (a b : ℕ) (xs : List ℕ)
    → Linked s a xs b
    → P a
    → All P xs
    → P (s.prev b)
prev-among P s a b [] (e, f) pb pa = subst P (sym f) pb
prev-among P s a b (x ∷ xs) (e, f, l) pb pa = prev-among P s x b xs l pa.0 pa.1

flip : {a b : ℕ} → a ≢ b → (b == a) ≡ false
flip h = ground arith

miss : {a b : ℕ} → a ≢ b → (a == b) ≡ false
miss h = ground arith

-- A node that is neither the head, nor the new node, nor the one behind the head keeps its fields.
pub Same-add :
    (s : Nodes) (h p a : ℕ) → p ≢ h → a ≢ h → a ≢ p → a ≢ s.next h → Same s (list_add_next h p s) a
Same-add s h p a ne x y z = (
  next-add s h p ne a ∙ rw (flip x) (rw (flip y) refl),
  prev-add s h p ne a ∙ rw (flip z) (rw (flip y) refl),
)

pub Same-bypass : (s : Nodes) (p a : ℕ) → a ≢ s.prev p → a ≢ s.next p → Same s (bypass p s) a
Same-bypass s p a x y = (next-bypass s p a ∙ rw (flip x) refl, prev-bypass s p a ∙ rw (flip y) refl)

All-zip₂ :
    {P Q R : ℕ → Type 0} (xs : List ℕ)
    → ((x : ℕ) → P x → Q x → R x)
    → All P xs
    → All Q xs
    → All R xs
All-zip₂ [] f a b = tt
All-zip₂ (x ∷ xs) f a b = (f x a.0 b.0, All-zip₂ xs f a.1 b.1)

-- The new node comes first.
pub add-IsRing :
    (s : Nodes) (h p : ℕ) (xs : List ℕ)
    → All (λ x. x ≢ p) (h ∷ xs)
    → IsRing s h xs
    → IsRing (list_add_next h p s) h (p ∷ xs)
add-IsRing s h p [] ne r =
    let n : p ≢ h = (λ e. ne.0 (sym e)) in
    record {
      linked = (
        next-add s h p n h ∙ rw (==_refl h) refl,
        prev-add s h p n p
            ∙ rw (ap (λ x. x == p) r.linked.0) (rw (miss ne.0) (rw (==_refl p) refl)),
        (
          next-add s h p n p ∙ rw (miss ne.0) (rw (==_refl p) r.linked.0),
          prev-add s h p n h ∙ rw (ap (λ x. x == h) r.linked.0) (rw (==_refl h) refl),
        ),
      );
      distinct = ((n, tt), (tt, tt));
    }
add-IsRing s h p (x ∷ xs) ne r =
    let n : p ≢ h = (λ e. ne.0 (sym e)) in
    let first = r.linked.0 in
    let both : All (λ a. (a ≢ h) × (a ≢ x)) xs =
      All-zip₂ xs (λ a u v. (u, v)) r.distinct.0.1 r.distinct.1.0 in
    let others : All (Same s (list_add_next h p s)) xs =
      All-zip₂ xs (λ a u v. Same-add s h p a n v.0 u (λ z. v.1 (z ∙ first))) ne.1.1 both in
    record {
      linked = (
        next-add s h p n h ∙ rw (==_refl h) refl,
        prev-add s h p n p ∙ rw (ap (λ z. z == p) first) (rw (miss ne.1.0) (rw (==_refl p) refl)),
        (
          next-add s h p n p ∙ rw (miss ne.0) (rw (==_refl p) first),
          prev-add s h p n x ∙ rw (ap (λ z. z == x) first) (rw (==_refl x) refl),
          Linked-Same s (list_add_next h p s) x h xs
              (next-add s h p n x ∙ rw (flip r.distinct.0.0) (rw (flip ne.1.0) refl))
              (prev-add s h p n h
                ∙ rw (ap (λ z. z == h) first) (rw (miss r.distinct.0.0) (rw (miss n) refl)))
              others r.linked.2,
        ),
      );
      distinct = ((n, r.distinct.0), (All-zip₂ (x ∷ xs) (λ a u v. u) ne.1 ne.1, r.distinct.1));
    }

-- The last node is taken out.
pub redirected :
    (s : Nodes) (a e h : ℕ) (xs : List ℕ)
    → Linked s a xs e
    → Distinct (a ∷ xs)
    → All (λ x. x ≢ h) xs
    → s.next e ≡ h
    → Linked (bypass e s) a xs h
redirected s a e h [] (n, q) d ne o = (
  next-bypass s e a ∙ rw (ap (λ z. z == a) q) (rw (==_refl a) o),
  prev-bypass s e h ∙ rw (ap (λ z. z == h) o) (rw (==_refl h) q),
)
redirected s a e h (x ∷ xs) (n, q, l) d ne o = (
  next-bypass s e a ∙ rw (miss (prev-among (λ z. z ≢ a) s x e xs l d.0.0 d.0.1)) n,
  prev-bypass s e x ∙ rw (ap (λ z. z == x) o) (rw (flip ne.0) q),
  redirected s x e h xs l d.1 ne.1 o,
)
