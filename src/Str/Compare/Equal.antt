-- ===== src/Str/Compare/Equal.antt =====
-- lib/src/string: what `memcmp` and `strcmp` say of the bytes.
use tiny_os_qemu.Base.{
  ℕ, zero, suc, ◌+◌, ◌<◌, ◌≡◌, ◌≢◌, refl, true, false, some, List, [], ◌∷◌, Bytes, length, ◌==◌,
  arith, Bool-cases, inl, inr, ap, ◌∙◌, ◌↔◌, All, ==_refl,
}
use mathlib.Core.Path.{subst, subst₂, ap₂}
use tiny_os_qemu.Str.Scan.String.{IsString}
use tiny_os_qemu.Str.Compare.{difference, memcmp, strcmp}

-- The first difference of two strings, with 0 behind each.
pub order : List ℕ → List ℕ → ℕ
order [] [] = 0
order [] (d ∷ b) = difference 0 d
order (c ∷ a) [] = difference c 0
order (c ∷ a) (d ∷ b) = elim (c == d) [ true ↦ order a b | false ↦ difference c d ]

-- `strcmp` of two strings, one of which ends within the bound, gives the difference of the first
-- bytes that differ, the 0 behind a string included.
pub strcmp-order :
    (n : ℕ) (m : Bytes) (s t : ℕ) (a b : List ℕ)
    → IsString m s a
    → IsString m t b
    → length a < n
    → strcmp n m s t ≡ some (order a b)
unfolding strcmp order
strcmp-order zero m s t a b p q h = absurd (omega arith)
strcmp-order (suc n) m s t [] [] p q h = ground arith
strcmp-order (suc n) m s t [] (d ∷ b) p q h = ground arith
strcmp-order (suc n) m s t (c ∷ a) [] p q h = ground arith
strcmp-order (suc n) m s t (c ∷ a) (d ∷ b) p q h =
    ground (arith, strcmp-order n m (s + 1) (t + 1) a b p.2 q.2 (omega arith))

order-zero :
    (a b : List ℕ)
    → All (λ c. (c < 256) × (c ≢ 0)) a
    → All (λ c. (c < 256) × (c ≢ 0)) b
    → order a b ≡ 0
    → a ≡ b
unfolding order
order-zero [] [] p q h = refl
order-zero [] (d ∷ b) p q h = absurd (omega arith)
order-zero (c ∷ a) [] p q h = absurd (omega arith)
order-zero (c ∷ a) (d ∷ b) p q h = elim (Bool-cases (c == d)) [
  | inl e ↦ ap₂ (λ x y. x ∷ y) (ground arith) (order-zero a b p.1 q.1 (ground arith))
  | inr e ↦ absurd (ground arith)
]

order_self : (a : List ℕ) → order a a ≡ 0
unfolding order
order_self [] = refl
order_self (c ∷ a) = ground (arith, order_self a, ==_refl c)

memcmp-equal :
    (m : Bytes) (s t n i : ℕ)
    → ((j : ℕ) → m j < 256)
    → memcmp m s t n ≡ 0
    → i < n
    → m (s + i) ≡ m (t + i)
unfolding memcmp
memcmp-equal m s t zero i b e h = absurd (omega arith)
memcmp-equal m s t (suc n) zero b e h =
    subst₂ (λ x y. m x ≡ m y) {x = s} {y = s + 0} {u = t} {v = t + 0} (omega arith) (omega arith)
      (ground (arith, b s, b t))
memcmp-equal m s t (suc n) (suc i) b e h =
    subst₂ (λ x y. m x ≡ m y) {x = s + 1 + i} {y = s + suc i} {u = t + 1 + i} {v = t + suc i}
      (omega arith) (omega arith)
      (memcmp-equal m (s + 1) (t + 1) n i b (ground (arith, b s, b t)) (omega arith))

equal-memcmp :
    (m : Bytes) (s t n : ℕ) → ((i : ℕ) → i < n → m (s + i) ≡ m (t + i)) → memcmp m s t n ≡ 0
unfolding memcmp
equal-memcmp m s t zero h = refl
equal-memcmp m s t (suc n) h = ground (
  arith,
  h 0 (omega arith),
  equal-memcmp m (s + 1) (t + 1) n (λ i hi.
      ap m {x = s + 1 + i} {y = s + suc i} (omega arith)
      ∙ h (suc i) (omega arith)
      ∙ ap m {x = t + suc i} {y = t + 1 + i} (omega arith)),
)

-- On a memory of bytes `memcmp` is 0 exactly when the `n` bytes at the two places are the same.
pub memcmp-zero :
    (m : Bytes) (s t n : ℕ)
    → ((i : ℕ) → m i < 256)
    → (memcmp m s t n ≡ 0) ↔ ((i : ℕ) → i < n → m (s + i) ≡ m (t + i))
memcmp-zero m s t n b = (λ e i h. memcmp-equal m s t n i b e h, equal-memcmp m s t n)

-- For two strings of bytes, one of which ends within the bound, `strcmp` gives 0 exactly when they
-- are the same string.
pub strcmp-same :
    (n : ℕ) (m : Bytes) (s t : ℕ) (a b : List ℕ)
    → IsString m s a
    → IsString m t b
    → length a < n
    → All (λ c. (c < 256) × (c ≢ 0)) a
    → All (λ c. (c < 256) × (c ≢ 0)) b
    → (d : ℕ) × (strcmp n m s t ≡ some d) × ((d ≡ 0) ↔ (a ≡ b))
strcmp-same n m s t a b p q h ba bb = (
  order a b,
  strcmp-order n m s t a b p q h,
  (order-zero a b ba bb, λ e. subst (λ x. order a x ≡ 0) e (order_self a)),
)
