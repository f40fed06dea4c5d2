-- ===== src/Num/Parse/Roundtrip.antt =====
-- lib/src/stdlib: `strtol` and `strtoul` read back what `utoa` writes.
use tiny_os_qemu.Base.{
  ℕ, suc, ◌+◌, ◌-◌, ◌/◌, ◌%◌, ◌^◌, ◌<◌, ◌≤◌, ◌≡◌, ◌≢◌, refl, false, Option, some, List, [], ◌∷◌,
  map, All, Bytes, ◌==◌, arith, Bool-cases, inl, inr, ap, ◌∙◌, length,
}
use mathlib.Core.Path.{subst, ap₂}
use tiny_os_qemu.Str.Scan.String.{IsString}
use tiny_os_qemu.Num.{digit_char, utoa}
use tiny_os_qemu.Num.Digits.{eval, utoa-IsNumeral}
use tiny_os_qemu.Num.Parse.{
  Seen, Scanned, scan_digits, skip_spaces, long_from, long_digits, unsigned_digits, strtol,
  unsigned_from, strtoul, is_space, is_negated, after_sign, after_prefix, real_base, is_hex,
  has_overflowed, end_of,
}
use tiny_os_qemu.Num.Parse.Scan.{after, scan_numeral}

-- The first byte of a numeral is no space and no sign, and a numeral does not begin with "0x".
plain_byte :
    (c d : ℕ)
    → d < 36
    → c ≡ digit_char d
    → (is_space c ≡ false) × ((c == 45) ≡ false) × ((c == 43) ≡ false)
plain_byte c d h e = (ground arith, ground arith, ground arith)

second_plain :
    (m : Bytes) (s : ℕ) (ds : List ℕ)
    → IsString m s (map digit_char ds)
    → All (λ d. d < 16) ds
    → (m s ≢ 120) × (m s ≢ 88)
second_plain m s [] st lt = (ground arith, ground arith)
second_plain m s (d ∷ ds) st lt = (ground arith, ground arith)

All-below : (a b : ℕ) (ds : List ℕ) → a ≤ b → All (λ d. d < a) ds → All (λ d. d < b) ds
All-below a b [] h l = tt
All-below a b (d ∷ ds) h l = (omega arith, All-below a b ds h l.1)

no_prefix :
    (m : Bytes) (s base d : ℕ) (ds : List ℕ)
    → 2 ≤ base
    → IsString m s (map digit_char (d ∷ ds))
    → All (λ x. x < base) (d ∷ ds)
    → is_hex m s base ≡ false
no_prefix m s base d ds h st lt = elim (Bool-cases (base == 16)) [
  | inl e ↦
      let (p, q) = second_plain m (s + 1) ds st.2 (All-below base 16 ds (ground arith) lt.1) in
      ground (arith, p, q)
  | inr e ↦ ground arith
]

skip_none : (n : ℕ) (m : Bytes) (s : ℕ) → is_space (m s) ≡ false → skip_spaces (suc n) m s ≡ some s
unfolding skip_spaces
skip_none n m s e = rw (e, skip_spaces) refl

module _ (n : ℕ) (m : Bytes) (s base : ℕ) (neg : (m s == 45) ≡ false) (pos : (m s == 43) ≡ false)
    (hex : is_hex m s base ≡ false) (hb : 2 ≤ base) where
  signless : (is_negated m s ≡ false) × (after_sign m s ≡ s)
  signless = (neg, ground arith)

  baseless : (real_base m s base ≡ base) × (after_prefix m s base ≡ s)
  baseless = (ground arith, ground arith)

  long_from-eq : long_from n m s s base ≡ long_digits n m s false base s
  unfolding long_from
  long_from-eq =
      ap (λ t. long_digits n m s (is_negated m s) (real_base m t base) (after_prefix m t base))
        signless.1
      ∙ ap₂ (λ b t. long_digits n m s b (real_base m s base) t) signless.0 baseless.1
      ∙ ap (λ b. long_digits n m s false b s) baseless.0

  unsigned_from-eq : unsigned_from n m s s base ≡ unsigned_digits n m s false base s
  unfolding unsigned_from
  unsigned_from-eq =
      ap (λ t. unsigned_digits n m s (is_negated m s) (real_base m t base) (after_prefix m t base))
        signless.1
      ∙ ap₂ (λ b t. unsigned_digits n m s b (real_base m s base) t) signless.0 baseless.1
      ∙ ap (λ b. unsigned_digits n m s false b s) baseless.0

module _ (n : ℕ) (m : Bytes) (s base : ℕ) (r : Scanned) (ok : has_overflowed r.any ≡ false) where
  long_digits-eq :
      scan_digits n m base ((2 ^ 31 - 1) / base) ((2 ^ 31 - 1) % base) s 0 Seen.nothing ≡ some r
      → long_digits n m s false base s ≡ some (r.acc, end_of r.any s r.stop)
  unfolding long_digits
  long_digits-eq e = rw (e, long_digits) (rw ok refl)

  unsigned_digits-eq :
      scan_digits n m base ((2 ^ 32 - 1) / base) ((2 ^ 32 - 1) % base) s 0 Seen.nothing ≡ some r
      → unsigned_digits n m s false base s ≡ some (r.acc, end_of r.any s r.stop)
  unfolding unsigned_digits
  unsigned_digits-eq e = rw (e, unsigned_digits) (rw ok refl)

strtol-eq :
    (n : ℕ) (m : Bytes) (s base : ℕ)
    → 2 ≤ base
    → base ≤ 36
    → skip_spaces n m s ≡ some s
    → strtol n m s base ≡ long_from n m s s base
unfolding strtol
strtol-eq n m s base h k e = ground (arith, e)

strtoul-eq :
    (n : ℕ) (m : Bytes) (s base : ℕ)
    → skip_spaces n m s ≡ some s
    → strtoul n m s base ≡ unsigned_from n m s s base
unfolding strtoul
strtoul-eq n m s base e = rw (e, strtoul) refl

-- A numeral of at least one digit, as both functions read it.
module _ (n : ℕ) (m : Bytes) (s base d : ℕ) (ds : List ℕ) (hb : 2 ≤ base) (hk : base ≤ 36)
    (st : IsString m s (map digit_char (d ∷ ds))) (lt : All (λ x. x < base) (d ∷ ds))
    (short : length (d ∷ ds) < suc n) where
  first : (is_space (m s) ≡ false) × ((m s == 45) ≡ false) × ((m s == 43) ≡ false)
  first = plain_byte (m s) d (omega arith) st.0

  scanned : Scanned
  scanned = record {
    acc = eval base 0 (d ∷ ds);
    any = after Seen.nothing (d ∷ ds);
    stop = s + length (d ∷ ds);
  }

  scan_all :
      (top : ℕ)
      → top < 2 ^ 32
      → eval base 0 (d ∷ ds) ≤ top
      → scan_digits (suc n) m base (top / base) (top % base) s 0 Seen.nothing ≡ some scanned
  unfolding scanned
  scan_all top ht le =
      scan_numeral (suc n) m base top s 0 Seen.nothing (d ∷ ds) hb hk ht st lt short (λ q. cc) le

  read_long :
      eval base 0 (d ∷ ds) ≤ 2 ^ 31 - 1
      → strtol (suc n) m s base ≡ some (eval base 0 (d ∷ ds), s + length (d ∷ ds))
  unfolding scanned after
  read_long le =
      strtol-eq (suc n) m s base hb hk (skip_none n m s first.0)
      ∙ long_from-eq (suc n) m s base first.1 first.2 (no_prefix m s base d ds hb st lt) hb
      ∙ long_digits-eq (suc n) m s base scanned refl (scan_all (2 ^ 31 - 1) (omega arith) le)

  read_unsigned :
      eval base 0 (d ∷ ds) ≤ 2 ^ 32 - 1
      → strtoul (suc n) m s base ≡ some (eval base 0 (d ∷ ds), s + length (d ∷ ds))
  unfolding scanned after
  read_unsigned le =
      strtoul-eq (suc n) m s base (skip_none n m s first.0)
      ∙ unsigned_from-eq (suc n) m s base first.1 first.2 (no_prefix m s base d ds hb st lt) hb
      ∙ unsigned_digits-eq (suc n) m s base scanned refl (scan_all (2 ^ 32 - 1) (omega arith) le)

-- What is read of a numeral in memory, and that it is read to its end.
abbrev pub ReadsBack : Option (ℕ × ℕ) → Bytes → ℕ → ℕ → Type 0
ReadsBack o m s value = (e : ℕ) × (o ≡ some (value, e)) × (m e ≡ 0) × (s < e)

string_stop : (m : Bytes) (s : ℕ) (cs : List ℕ) → IsString m s cs → m (s + length cs) ≡ 0
string_stop m s [] h = subst (λ x. m x ≡ 0) {x = s} {y = s + 0} (omega arith) h
string_stop m s (c ∷ cs) h =
    subst (λ x. m x ≡ 0) {x = s + 1 + length cs} {y = s + suc (length cs)} (omega arith)
      (string_stop m (s + 1) cs h.2)

length-map : (f : ℕ → ℕ) (ds : List ℕ) → length (map f ds) ≡ length ds
length-map f [] = refl
length-map f (d ∷ ds) = ap suc (length-map f ds)

numeral_stop :
    (m : Bytes) (s : ℕ) (ds : List ℕ) → IsString m s (map digit_char ds) → m (s + length ds) ≡ 0
numeral_stop m s ds h =
    subst (λ x. m (s + x) ≡ 0) (length-map digit_char ds) (string_stop m s (map digit_char ds) h)

numeral-ReadsBack :
    (t : Bytes) (str base : ℕ) (ds : List ℕ)
    → 2 ≤ base
    → base ≤ 36
    → IsString t str (map digit_char ds)
    → All (λ d. d < base) ds
    → ds ≢ []
    → length ds ≤ 32
    → (eval base 0 ds < 2 ^ 31 → ReadsBack (strtol 33 t str base) t str (eval base 0 ds))
      × (eval base 0 ds < 2 ^ 32 → ReadsBack (strtoul 33 t str base) t str (eval base 0 ds))
numeral-ReadsBack t str base [] hb hk st lt ne short = absurd (ne refl)
numeral-ReadsBack t str base (d ∷ ds) hb hk st lt ne short = (
  λ h. (
    str + length (d ∷ ds),
    read_long 32 t str base d ds hb hk st lt (omega arith) (omega arith),
    numeral_stop t str (d ∷ ds) st,
    omega arith,
  ),
  λ h. (
    str + length (d ∷ ds),
    read_unsigned 32 t str base d ds hb hk st lt (omega arith) (omega arith),
    numeral_stop t str (d ∷ ds) st,
    omega arith,
  ),
)

-- For a supported base, `strtol` reads what `utoa` has written of a value that a long can hold back
-- as that value, up to the end of the string.
pub strtol-utoa :
    (m : Bytes) (value str base : ℕ)
    → 2 ≤ base
    → base ≤ 36
    → value < 2 ^ 31
    → (t : Bytes) × (utoa m value str base ≡ some (some str, t))
      × ReadsBack (strtol 33 t str base) t str value
strtol-utoa m value str base hb hk hv =
    let (t, e, num) = utoa-IsNumeral m value str base hb hk (omega arith) in
    (
      t,
      e,
      subst (ReadsBack (strtol 33 t str base) t str) num.value_eq (
          (numeral-ReadsBack t str base num.ds hb hk num.string num.digits_lt num.some_digit
              num.short).0
            (omega (arith, num.value_eq))),
    )

-- For a supported base, `strtoul` reads what `utoa` has written of any 32-bit value back as that
-- value, up to the end of the string.
pub strtoul-utoa :
    (m : Bytes) (value str base : ℕ)
    → 2 ≤ base
    → base ≤ 36
    → value < 2 ^ 32
    → (t : Bytes) × (utoa m value str base ≡ some (some str, t))
      × ReadsBack (strtoul 33 t str base) t str value
strtoul-utoa m value str base hb hk hv =
    let (t, e, num) = utoa-IsNumeral m value str base hb hk hv in
    (
      t,
      e,
      subst (ReadsBack (strtoul 33 t str base) t str) num.value_eq (
          (numeral-ReadsBack t str base num.ds hb hk num.string num.digits_lt num.some_digit
              num.short).1
            (omega (arith, num.value_eq))),
    )
