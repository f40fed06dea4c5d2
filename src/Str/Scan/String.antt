-- ===== src/Str/Scan/String.antt =====
-- lib/src/string: strings in memory as lists of bytes, and what the functions find in them.
use tiny_os_qemu.Base.{
  ℕ, zero, suc, ◌+◌, ◌%◌, ◌<◌, ◌≡◌, ◌≢◌, refl, Option, none, some, List, [], ◌∷◌, Bytes, length,
  ◌==◌, arith, Bool-cases, inl, inr, sym,
}
use mathlib.Core.Path.{subst}
use native.Mathlib.Decide.{ℕ_discrete}
use tiny_os_qemu.Str.Scan.{find_end, strlen, memchr, memrchr}

-- The bytes `cs`, none of them 0, stand from `s` on, and a 0 behind them.
abbrev pub IsString : Bytes → ℕ → List ℕ → Type 0
IsString m s [] = m s ≡ 0
IsString m s (c ∷ cs) = (m s ≡ c) × (c ≢ 0) × IsString m (s + 1) cs

find_end_lem :
    (n : ℕ) (m : Bytes) (s : ℕ) (cs : List ℕ)
    → IsString m s cs
    → length cs < n
    → find_end n m s ≡ some (s + length cs)
unfolding find_end
find_end_lem zero m s cs h k = absurd (omega arith)
find_end_lem (suc n) m s [] h k = ground arith
find_end_lem (suc n) m s (c ∷ cs) h k =
    ground (arith, find_end_lem n m (s + 1) cs h.2 (omega arith))

-- For a string that ends within the bound, `strlen` gives its length.
pub strlen-IsString :
    (n : ℕ) (m : Bytes) (s : ℕ) (cs : List ℕ)
    → IsString m s cs
    → length cs < n
    → strlen n m s ≡ some (length cs)
unfolding strlen
strlen-IsString n m s cs h k = ground (arith, find_end_lem n m s cs h k)

-- The first of the `n` bytes from `s` on that is `c`, or that there is none.
abbrev pub IsFirst : Bytes → ℕ → ℕ → ℕ → Option ℕ → Type 0
IsFirst m s c n none = (i : ℕ) → i < n → m (s + i) ≢ c
IsFirst m s c n (some p) =
    (i : ℕ) × (p ≡ s + i) × (i < n) × (m p ≡ c) × ((j : ℕ) → j < i → m (s + j) ≢ c)

abbrev pub IsLast : Bytes → ℕ → ℕ → ℕ → Option ℕ → Type 0
IsLast m s c n none = (i : ℕ) → i < n → m (s + i) ≢ c
IsLast m s c n (some p) =
    (i : ℕ) × (p ≡ s + i) × (i < n) × (m p ≡ c) × ((j : ℕ) → i < j → j < n → m (s + j) ≢ c)

-- `P` at the start and at the places behind it is `P` everywhere.
everywhere :
    (m : Bytes) (s n : ℕ) (P : ℕ → Type 0)
    → P (m s)
    → ((i : ℕ) → i < n → P (m (s + 1 + i)))
    → (i : ℕ) → i < suc n
    → P (m (s + i))
everywhere m s n P z h zero hi = subst (λ x. P (m x)) {x = s} {y = s + 0} (omega arith) z
everywhere m s n P z h (suc i) hi =
    subst (λ x. P (m x)) {x = s + 1 + i} {y = s + suc i} (omega arith) (h i (omega arith))

memchr-next :
    (m : Bytes) (s c n : ℕ) (o : Option ℕ)
    → m s ≢ c
    → IsFirst m (s + 1) c n o
    → IsFirst m s c (suc n) o
memchr-next m s c n none e h = everywhere m s n (λ x. x ≢ c) e h
memchr-next m s c n (some p) e (i, q, k, r, f) =
    (suc i, omega arith, omega arith, r, everywhere m s i (λ x. x ≢ c) e f)

-- `memchr` finds the first of the `n` bytes that is the low byte of `c`, or that there is none.
pub memchr-IsFirst : (m : Bytes) (s c n : ℕ) → IsFirst m s (c % 256) n (memchr m s c n)
unfolding memchr
memchr-IsFirst m s c zero = λ i h. absurd (omega arith)
memchr-IsFirst m s c (suc n) = elim (Bool-cases (m s == c % 256)) [
  | inl e ↦ rw (e, memchr) (0, omega arith, omega arith, ground arith, λ j h. absurd (omega arith))
  | inr e ↦
      rw (e, memchr)
        (memchr-next m s (c % 256) n (memchr m (s + 1) c n) (ground arith)
          (memchr-IsFirst m (s + 1) c n))
]

memrchr-next :
    (m : Bytes) (s c n : ℕ) (o : Option ℕ)
    → m (s + n) ≢ c
    → IsLast m s c n o
    → IsLast m s c (suc n) o
memrchr-next m s c n none e h = λ i hi. elim (ℕ_discrete i n) [
  | yes q ↦ subst (λ x. m (s + x) ≢ c) (sym q) e
  | no q ↦ h i (omega arith)
]
memrchr-next m s c n (some p) e (i, q, k, r, f) = (
  i,
  q,
  omega arith,
  r,
  λ j a b. elim (ℕ_discrete j n) [
    | yes w ↦ subst (λ x. m (s + x) ≢ c) (sym w) e
    | no w ↦ f j a (omega arith)
  ],
)

-- `memrchr` finds the last of the `n` bytes that is the low byte of `c`, or that there is none.
pub memrchr-IsLast : (m : Bytes) (s c n : ℕ) → IsLast m s (c % 256) n (memrchr m s c n)
unfolding memrchr
memrchr-IsLast m s c zero = λ i h. absurd (omega arith)
memrchr-IsLast m s c (suc n) = elim (Bool-cases (m (s + n) == c % 256)) [
  | inl e ↦ rw (e, memrchr) (n, refl, omega arith, ground arith, λ j a b. absurd (omega arith))
  | inr e ↦
      rw (e, memrchr)
        (memrchr-next m s (c % 256) n (memrchr m s c n) (ground arith) (memrchr-IsLast m s c n))
]
