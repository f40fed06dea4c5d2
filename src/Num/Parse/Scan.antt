-- ===== src/Num/Parse/Scan.antt =====
-- lib/src/stdlib: the loop over the digits of a numeral.
use tiny_os_qemu.Base.{
  ℕ, zero, suc, ◌+◌, ◌*◌, ◌/◌, ◌%◌, ◌^◌, ◌<◌, ◌≤◌, ◌≡◌, ◌≢◌, refl, false, none, some, List, [], ◌∷◌,
  map, All, Bytes, leb, arith, ap, ◌∙◌, length,
}
use mathlib.Core.Path.{ap₂}
use native.Mathlib.Nat.{div-add-mod', mul-le-mul_left, le-div_iff_mul-le}
use tiny_os_qemu.Str.Scan.String.{IsString}
use tiny_os_qemu.Num.{digit_char}
use tiny_os_qemu.Num.Digits.{eval}
use tiny_os_qemu.Num.Parse.{Seen, digit_value, too_big, scan_digits}

-- The variable `any` behind the digits.
unfoldable pub after : Seen → List ℕ → Seen
after any [] = any
after any (d ∷ ds) = Seen.digits

after-digits : (ds : List ℕ) → after Seen.digits ds ≡ Seen.digits
unfolding after
after-digits [] = refl
after-digits (d ∷ ds) = refl

digit_value-digit_char : (d : ℕ) → d < 36 → digit_value (digit_char d) ≡ some d
digit_value-digit_char d h = ground arith

-- A number that grows by more digits is no smaller.
pub eval-le : (base acc : ℕ) (ds : List ℕ) → 1 ≤ base → acc ≤ eval base acc ds
unfolding eval
eval-le base acc [] h = omega arith
eval-le base acc (d ∷ ds) h =
    omega (arith, eval-le base (acc * base + d) ds h, mul-le-mul_left acc h)

below_cutoff : (base acc d top : ℕ) → 2 ≤ base → acc * base + d ≤ top → acc ≤ top / base
below_cutoff base acc d top h le = (le-div_iff_mul-le (omega arith)).1 (omega arith)

below_cutlim : (base acc d top : ℕ) → acc * base + d ≤ top → acc ≡ top / base → d ≤ top % base
below_cutlim base acc d top le e = omega (arith, div-add-mod' top base, ap (λ x. x * base) e)

-- While the number stays within `top`, the test for an overflow fails.
fits :
    (base acc d top : ℕ) (any : Seen)
    → 2 ≤ base
    → any ≢ Seen.overflow
    → acc * base + d ≤ top
    → too_big (top / base) (top % base) acc any d ≡ false
fits base acc d top any h a le =
    ground (arith, below_cutoff base acc d top h le, below_cutlim base acc d top le)

module _ (n : ℕ) (m : Bytes) (base cutoff cutlim s acc : ℕ) (any : Seen) where
  scan_stop :
      digit_value (m s) ≡ none
      → scan_digits (suc n) m base cutoff cutlim s acc any
        ≡ some (record { acc = acc; any = any; stop = s })
  unfolding scan_digits
  scan_stop e = rw (e, scan_digits) refl

  scan_step :
      (c : ℕ)
      → digit_value (m s) ≡ some c
      → leb base c ≡ false
      → too_big cutoff cutlim acc any c ≡ false
      → scan_digits (suc n) m base cutoff cutlim s acc any
        ≡ scan_digits n m base cutoff cutlim
            (s + 1)
            ((acc * base % 2 ^ 32 + c) % 2 ^ 32)
            Seen.digits
  unfolding scan_digits
  scan_step c e f g = rw (e, scan_digits) (rw f (rw g refl))

no_wrap :
    (base acc d top : ℕ)
    → acc * base + d ≤ top
    → top < 2 ^ 32
    → (acc * base % 2 ^ 32 + d) % 2 ^ 32 ≡ acc * base + d
no_wrap base acc d top le h = omega arith

-- The digits of a string that denotes a number of at most `top` are all taken.
pub scan_numeral :
    (n : ℕ) (m : Bytes) (base top s acc : ℕ) (any : Seen) (ds : List ℕ)
    → 2 ≤ base
    → base ≤ 36
    → top < 2 ^ 32
    → IsString m s (map digit_char ds)
    → All (λ d. d < base) ds
    → length ds < n
    → any ≢ Seen.overflow
    → eval base acc ds ≤ top
    → scan_digits n m base (top / base) (top % base) s acc any
      ≡ some (record { acc = eval base acc ds; any = after any ds; stop = s + length ds })
unfolding scan_digits eval after
scan_numeral zero m base top s acc any ds hb hk ht st lt hn ha le = absurd (omega arith)
scan_numeral (suc n) m base top s acc any [] hb hk ht st lt hn ha le =
    scan_stop n m base (top / base) (top % base) s acc any (ap digit_value st)
    ∙ ap (λ x. some (record { acc = acc; any = any; stop = x })) {x = s} {y = s + 0} (omega arith)
scan_numeral (suc n) m base top s acc any (d ∷ ds) hb hk ht st lt hn ha le =
    let now : acc * base + d ≤ top =
      omega (arith, eval-le base (acc * base + d) ds (omega arith)) in
    scan_step n m base (top / base) (top % base) s acc any d
      (ap digit_value st.0 ∙ digit_value-digit_char d (omega arith)) (ground arith)
      (fits base acc d top any hb ha now)
    ∙ ap (λ x. scan_digits n m base (top / base) (top % base) (s + 1) x Seen.digits)
        (no_wrap base acc d top now ht)
    ∙ scan_numeral n m base top (s + 1) (acc * base + d) Seen.digits ds hb hk ht st.2 lt.1
        (omega arith) (λ q. cc) le
    ∙ ap₂ (λ x y. some (record { acc = eval base (acc * base + d) ds; any = x; stop = y }))
        {x = after Seen.digits ds} {y = Seen.digits} {u = s + 1 + length ds}
        {v = s + suc (length ds)} (after-digits ds) (omega arith)
