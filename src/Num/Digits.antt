-- ===== src/Num/Digits.antt =====
-- lib/src/stdlib/utoa.c: the string that `utoa` writes is the number in the base.
use tiny_os_qemu.Base.{
  ℕ, zero, suc, ◌+◌, ◌-◌, ◌*◌, ◌/◌, ◌%◌, ◌^◌, ◌<◌, ◌≤◌, ◌≡◌, ◌≢◌, refl, true, false, some, List, [],
  ◌∷◌, map, All, Bytes, update, within, ltb, ◌==◌, if◌then◌else◌, arith, Bool-cases, inl, inr, ap,
  sym, ◌∙◌, length, ==_refl, ==_iff,
}
use mathlib.Core.Path.{subst}
use native.Mathlib.Nat.{div-add-mod', mod-lt, two-pow-succ, div-mul-le_self, mul-le-mul_left}
use tiny_os_qemu.Str.Scan.String.{IsString}
use tiny_os_qemu.Num.{digit_char, bad_base, put_digits, swap, reverse_bytes, utoa}

-- The number with these digits, the first the highest, behind `acc`.
unfoldable pub eval : ℕ → ℕ → List ℕ → ℕ
eval base acc [] = acc
eval base acc (d ∷ ds) = eval base (acc * base + d) ds

-- The digits stand below index `i`, the highest on top.
abbrev Below : Bytes → ℕ → ℕ → List ℕ → Type 0
Below m str i [] = i ≡ 0
Below m str i (d ∷ ds) = (i ≢ 0) × (m (str + (i - 1)) ≡ digit_char d) × Below m str (i - 1) ds

Below-update :
    (m : Bytes) (str i x : ℕ) (ds : List ℕ)
    → Below m str i ds
    → Below (update m (str + i) x) str i ds
Below-update m str i x ds h = go i ds (omega arith) h
  where
    go : (k : ℕ) (ds : List ℕ) → k ≤ i → Below m str k ds → Below (update m (str + i) x) str k ds
    go k [] le h = h
    go k (d ∷ ds) le h = (h.0, ground arith, go (k - 1) ds (omega arith) h.2)

-- What the first loop of `utoa` comes to.
record Put (t : Bytes) (str base i value : ℕ) : Type 0 where
  pub ds : List ℕ
  pub below : Below t str i ds
  pub value_eq : eval base 0 ds ≡ value
  pub digits_lt : All (λ d. d < base) ds
  pub some_digit : ds ≢ []

abbrev put_byte : Bytes → ℕ → ℕ → ℕ → Bytes
put_byte m str i d = update m (str + i) (digit_char d)

put_byte_self : (m : Bytes) (str i d : ℕ) → put_byte m str i d (str + (i + 1 - 1)) ≡ digit_char d
put_byte_self m str i d = ground (arith, ==_refl (str + i))

Below-put :
    (m : Bytes) (str i d : ℕ) (ds : List ℕ)
    → Below m str i ds
    → Below (put_byte m str i d) str (i + 1) (d ∷ ds)
Below-put m str i d ds h = (
  (λ q. absurd (omega arith)),
  put_byte_self m str i d,
  subst (λ x. Below (put_byte m str i d) str x ds) {x = i} {y = i + 1 - 1} (omega arith)
      (Below-update m str i (digit_char d) ds h),
)

last_digit : (base value : ℕ) → (value / base == 0) ≡ true → 0 * base + value % base ≡ value
last_digit base value e =
    ground (arith, div-add-mod' value base, ap (λ x. x * base) ((==_iff (value / base) 0).0 e))

pub half : (base value n : ℕ) → 2 ≤ base → value < 2 ^ suc n → value / base < 2 ^ n
half base value n h k =
    omega (arith, div-mul-le_self value base, mul-le-mul_left (value / base) h, two-pow-succ n)

more : (n base value : ℕ) → (value / base == 0) ≡ false → value < 2 ^ suc n → 2 ≤ base → n ≢ 0
more n base value e h hb q = absurd (ground (arith, half base value n hb h, ap (λ x. 2 ^ x) q))

put_digits-Put :
    (n : ℕ) (m : Bytes) (str base i value : ℕ) (ds : List ℕ)
    → 2 ≤ base
    → value < 2 ^ n
    → n ≢ 0
    → Below m str i ds
    → All (λ d. d < base) ds
    → (j : ℕ) × (t : Bytes) × (put_digits n m str base i value ≡ some (j, t))
      × (i < j)
      × (j ≤ i + n)
      × Put t str base j (eval base value ds)
unfolding put_digits eval
put_digits-Put zero m str base i value ds hb hv hn b a = absurd (hn refl)
put_digits-Put (suc n) m str base i value ds hb hv hn b a = elim (Bool-cases (value / base == 0)) [
  | inl e ↦ (
    i + 1,
    put_byte m str i (value % base),
    rw (e, put_digits) refl,
    omega arith,
    omega arith,
    record {
      ds = value % base ∷ ds;
      below = Below-put m str i (value % base) ds b;
      value_eq = ap (λ x. eval base x ds) (last_digit base value e);
      digits_lt = (mod-lt value (omega arith), a);
      some_digit = λ q. cc;
    },
  )
  | inr e ↦
      let (j, u, q, lo, hi, p) =
        put_digits-Put n (put_byte m str i (value % base)) str base (i + 1) (value / base)
          (value % base ∷ ds) hb (half base value n hb hv) (more n base value e hv hb)
          (Below-put m str i (value % base) ds b) (mod-lt value (omega arith), a) in
      (
        j,
        u,
        rw (e, put_digits) q,
        omega arith,
        omega arith,
        subst (Put u str base j) (ap (λ x. eval base x ds) (div-add-mod' value base)) p,
      )
]

reverse_bytes_lem :
    (n : ℕ) (m : Bytes) (str j i a : ℕ)
    → j ≤ i + 1
    → i + 1 - j ≤ n
    → reverse_bytes n m str j i a
      ≡ (if within (str + j) (i + 1 - j) a then m (str + j + (str + i) - a) else m a)
unfolding reverse_bytes
reverse_bytes_lem zero m str j i a h k = ground arith
reverse_bytes_lem (suc n) m str j i a h k = elim (Bool-cases (ltb j i)) [
  | inl e ↦
      rw (e, reverse_bytes)
        (ground (arith, reverse_bytes_lem n (swap m (str + j) (str + i)) str (j + 1) (i - 1) a))
  | inr e ↦ rw (e, reverse_bytes) (ground arith)
]

-- Read upwards from the other end, the digits are a string.
upwards :
    (t r : Bytes) (str n i : ℕ) (base : ℕ) (ds : List ℕ)
    → i ≤ n
    → Below t str i ds
    → All (λ d. d < base) ds
    → r (str + n) ≡ 0
    → ((k : ℕ) → k < n → r (str + k) ≡ t (str + (n - 1 - k)))
    → IsString r (str + (n - i)) (map digit_char ds)
upwards t r str n i base [] le b a z h =
    subst (λ x. r x ≡ 0) {x = str + n} {y = str + (n - i)} (omega arith) z
upwards t r str n i base (d ∷ ds) le b a z h = (
  h (n - i) (omega arith)
      ∙ ap (λ x. t (str + x)) {x = n - 1 - (n - i)} {y = i - 1} (omega arith)
      ∙ b.1,
  ground arith,
  subst (λ x. IsString r x (map digit_char ds)) {x = str + (n - (i - 1))} {y = str + (n - i) + 1}
      (omega arith) (upwards t r str n (i - 1) base ds (omega arith) b.2 a.1 z h),
)

-- What `utoa` leaves at `str`.
pub record IsNumeral (t : Bytes) (str base value : ℕ) : Type 0 where
  pub ds : List ℕ
  pub string : IsString t str (map digit_char ds)
  pub value_eq : eval base 0 ds ≡ value
  pub digits_lt : All (λ d. d < base) ds
  pub some_digit : ds ≢ []
  pub short : length ds ≤ 32

length-Below : (t : Bytes) (str i : ℕ) (ds : List ℕ) → Below t str i ds → length ds ≡ i
length-Below t str i [] h = sym h
length-Below t str i (d ∷ ds) h = omega (arith, length-Below t str (i - 1) ds h.2)

Below-kept :
    (t u : Bytes) (str i : ℕ) (ds : List ℕ)
    → ((k : ℕ) → k < i → u (str + k) ≡ t (str + k))
    → Below t str i ds
    → Below u str i ds
Below-kept t u str i [] h b = b
Below-kept t u str i (d ∷ ds) h b = (
  b.0,
  h (i - 1) (ground arith) ∙ b.1,
  Below-kept t u str (i - 1) ds (λ k hk. h k (omega arith)) b.2,
)

abbrev finished : Bytes → ℕ → ℕ → Bytes
finished t str j = reverse_bytes j (update t (str + j) 0) str 0 (j - 1)

finished_end : (t : Bytes) (str j : ℕ) → 0 < j → finished t str j (str + j) ≡ 0
finished_end t str j h =
    ground
      (arith, reverse_bytes_lem j (update t (str + j) 0) str 0 (j - 1) (str + j), ==_refl (str + j))

finished_byte :
    (t : Bytes) (str j k : ℕ) → k < j → finished t str j (str + k) ≡ t (str + (j - 1 - k))
finished_byte t str j k h =
    ground (arith, reverse_bytes_lem j (update t (str + j) 0) str 0 (j - 1) (str + k))

finished-Numeral :
    (t : Bytes) (str base j value : ℕ)
    → 0 < j
    → j ≤ 32
    → Put t str base j value
    → IsNumeral (finished t str j) str base value
finished-Numeral t str base j value hj hk p = record {
  ds = p.ds;
  string =
      subst (λ x. IsString (finished t str j) x (map digit_char p.ds)) {x = str + (j - j)} {y = str}
        (omega arith)
        (upwards t (finished t str j) str j j base p.ds (omega arith) p.below p.digits_lt
          (finished_end t str j hj) (λ k hk. finished_byte t str j k hk));
  value_eq = p.value_eq;
  digits_lt = p.digits_lt;
  some_digit = p.some_digit;
  short = omega (arith, length-Below t str j p.ds p.below);
}

utoa-eq :
    (m t : Bytes) (value str base j : ℕ)
    → bad_base base ≡ false
    → put_digits 32 m str base 0 value ≡ some (j, t)
    → utoa m value str base ≡ some (some str, finished t str j)
unfolding utoa
utoa-eq m t value str base j e q = rw e (rw q refl)

-- For a supported base and a 32-bit value `utoa` returns `str`, where a string of at most 32 digits
-- of the base then stands that denotes the value.
pub utoa-IsNumeral :
    (m : Bytes) (value str base : ℕ)
    → 2 ≤ base
    → base ≤ 36
    → value < 2 ^ 32
    → (t : Bytes) × (utoa m value str base ≡ some (some str, t)) × IsNumeral t str base value
unfolding eval
utoa-IsNumeral m value str base h k hv =
    let (j, t, q, lo, hi, p) = put_digits-Put 32 m str base 0 value [] h hv (λ z. cc) refl tt in
    (
      finished t str j,
      utoa-eq m t value str base j (ground arith) q,
      finished-Numeral t str base j value (omega arith) (omega arith) p,
    )
