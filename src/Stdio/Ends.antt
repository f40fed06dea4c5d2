-- ===== src/Stdio/Ends.antt =====
-- lib/src/stdio.c: every conversion consumes its part of the format, so the loop of `vsprintf` ends.
use tiny_os_qemu.Base.{
  ℕ, zero, suc, ◌+◌, ◌-◌, ◌*◌, ◌≡◌, ◌≢◌, ◌≤◌, refl, Bool, true, false, Option, none, some, List, [],
  ◌∷◌, ltb, ◌==◌, if◌then◌else◌, length, arith, Bool-cases, inl, inr, ap, All, ==_iff,
}
use tiny_os_qemu.Stdio.{Flags, number}
use tiny_os_qemu.Stdio.Format.{
  Arg, Printed, Spec, Converted, no_flags, take_flags, is_digit, skip_atoi, head_is, rest,
  star_width, take_width, star_precision, take_precision, take_qualifier, put_char, put_string,
  put_word, put_pointer, put_address, integer_format, put_integer, convert, conversion, prepend,
  print_from, vsprintf, ◌>>=◌, width_of,
}

take_flags-length : (f : Flags) (s : List ℕ) → length ((take_flags f s).1) ≤ length s
unfolding take_flags
take_flags-length f [] = omega arith
take_flags-length f (c ∷ s) = ground (
  arith,
  take_flags-length (record f { left = true }) s,
  take_flags-length (record f { plus = true }) s,
  take_flags-length (record f { space = true }) s,
  take_flags-length (record f { hex_prep = true }) s,
  take_flags-length (record f { zeropad = true }) s,
)

skip_atoi-length : (i : ℕ) (s : List ℕ) → length ((skip_atoi i s).1) ≤ length s
unfolding skip_atoi
skip_atoi-length i [] = omega arith
skip_atoi-length i (c ∷ s) = ground (arith, skip_atoi-length (i * 10 + (c - 48)) s)

rest-length : (s : List ℕ) → length (rest s) ≤ length s
rest-length [] = omega arith
rest-length (c ∷ s) = omega arith

-- What a step leaves of the format is no longer than `n`.
abbrev Within : ℕ → Option Spec → Type 0
Within n none = Unit
Within n (some x) = length x.fmt ≤ n

abbrev Leaves : ℕ → Option Converted → Type 0
Leaves n none = Unit
Leaves n (some r) = length r.fmt ≤ n

star_width-Within : (f : Flags) (s : List ℕ) (vs : List Arg) → Within (length s) (star_width f s vs)
unfolding star_width
star_width-Within f s [] = tt
star_width-Within f s (Arg.word w ∷ vs) = ground arith
star_width-Within f s (Arg.string w ∷ vs) = tt
star_width-Within f s (Arg.bytes w ∷ vs) = tt

star_precision-Within :
    (x : Spec) (s : List ℕ) (vs : List Arg) → Within (length s) (star_precision x s vs)
unfolding star_precision
star_precision-Within x s [] = tt
star_precision-Within x s (Arg.word w ∷ vs) = omega arith
star_precision-Within x s (Arg.string w ∷ vs) = tt
star_precision-Within x s (Arg.bytes w ∷ vs) = tt

Within-le : (m n : ℕ) (r : Option Spec) → Within m r → m ≤ n → Within n r
Within-le m n none h le = tt
Within-le m n (some x) h le = omega arith

take_width-Within : (f : Flags) (s : List ℕ) (vs : List Arg) → Within (length s) (take_width f s vs)
unfolding take_width
take_width-Within f s vs = elim (Bool-cases (head_is is_digit s)) [
  | inl e ↦ rw e (skip_atoi-length 0 s)
  | inr e ↦ rw e (elim (Bool-cases (head_is (λ c. c == 42) s)) [
    | inl d ↦ rw d (
        Within-le (length (rest s)) (length s) (star_width f (rest s) vs)
          (star_width-Within f (rest s) vs) (rest-length s))
    | inr d ↦ rw d (omega arith)
  ])
]

take_precision-Within : (x : Spec) → Within (length x.fmt) (take_precision x)
unfolding take_precision
take_precision-Within x = elim (Bool-cases (head_is (λ c. c == 46) x.fmt)) [
  | inr e ↦ rw e (omega arith)
  | inl e ↦ rw e (elim (Bool-cases (head_is is_digit (rest x.fmt))) [
    | inl d ↦ rw d (omega (arith, skip_atoi-length 0 (rest x.fmt), rest-length x.fmt))
    | inr d ↦ rw d (elim (Bool-cases (head_is (λ c. c == 42) (rest x.fmt))) [
      | inl q ↦ rw q (
          Within-le (length (rest (rest x.fmt))) (length x.fmt)
            (star_precision x (rest (rest x.fmt)) x.args)
            (star_precision-Within x (rest (rest x.fmt)) x.args)
            (omega (arith, rest-length x.fmt, rest-length (rest x.fmt))))
      | inr q ↦ rw q (rest-length x.fmt)
    ])
  ])
]

take_qualifier-length : (s : List ℕ) → length ((take_qualifier s).1) ≤ length s
take_qualifier-length [] = omega arith
take_qualifier-length (c ∷ s) = ground arith

put_word-Leaves :
    (base size : ℕ) (f : Flags) (p : Option ℕ) (s : List ℕ) (vs : List Arg)
    → Leaves (length s) (put_word base size f p s vs)
put_word-Leaves base size f p s [] = tt
put_word-Leaves base size f p s (Arg.word w ∷ vs) = go (number w base size (width_of p) f)
  where
    go :
        (t : Option (List ℕ))
        → Leaves (length s) (t >>= λ b. some (record { out = b; fmt = s; args = vs }))
    go none = tt
    go (some b) = omega arith
put_word-Leaves base size f p s (Arg.string w ∷ vs) = tt
put_word-Leaves base size f p s (Arg.bytes w ∷ vs) = tt

put_pointer-Leaves :
    (x : Spec) (s : List ℕ) (vs : List Arg) → Leaves (length s) (put_pointer x s vs)
put_pointer-Leaves x s vs = go x.field_width
  where
    go :
        (w : Option ℕ)
        → Leaves (length s) (elim w [
          | none ↦ put_word 16 8 (record x.flags { zeropad = true }) x.precision s vs
          | some v ↦ put_word 16 v x.flags x.precision s vs
        ])
    go none = put_word-Leaves 16 8 (record x.flags { zeropad = true }) x.precision s vs
    go (some v) = put_word-Leaves 16 v x.flags x.precision s vs

put_char-Leaves : (x : Spec) (s : List ℕ) (vs : List Arg) → Leaves (length s) (put_char x s vs)
put_char-Leaves x s [] = tt
put_char-Leaves x s (Arg.word w ∷ vs) = omega arith
put_char-Leaves x s (Arg.string w ∷ vs) = tt
put_char-Leaves x s (Arg.bytes w ∷ vs) = tt

put_string-Leaves : (x : Spec) (s : List ℕ) (vs : List Arg) → Leaves (length s) (put_string x s vs)
put_string-Leaves x s [] = tt
put_string-Leaves x s (Arg.word w ∷ vs) = tt
put_string-Leaves x s (Arg.string w ∷ vs) = omega arith
put_string-Leaves x s (Arg.bytes w ∷ vs) = tt

put_address-Leaves :
    (long : Bool) (f : Flags) (size : Option ℕ) (s : List ℕ) (vs : List Arg)
    → Leaves (length s) (put_address long f size s vs)
put_address-Leaves long f size s [] = tt
put_address-Leaves long f size s (Arg.word w ∷ vs) = tt
put_address-Leaves long f size s (Arg.string w ∷ vs) = tt
put_address-Leaves long f size s (Arg.bytes b ∷ vs) =
    elim (Bool-cases (ltb (length b) (if long then 6 else 4))) [
      | inl e ↦ rw e tt
      | inr e ↦ rw e (omega arith)
    ]

put_integer-Leaves : (x : Spec) (c : ℕ) (s : List ℕ) → Leaves (length s) (put_integer x c s)
put_integer-Leaves x c s = go (integer_format c x.flags)
  where
    go :
        (o : Option (ℕ × Flags))
        → Leaves (length s) (elim o [
          | some (base, f) ↦ put_word base (width_of x.field_width) f x.precision s x.args
          | none ↦
              some
                (record { out = if c == 37 then c ∷ [] else 37 ∷ c ∷ []; fmt = s; args = x.args })
        ])
    go none = omega arith
    go (some (base, f)) = put_word-Leaves base (width_of x.field_width) f x.precision s x.args

if-Leaves :
    (b : Bool) (n : ℕ) (p q : Option Converted)
    → Leaves n p
    → Leaves n q
    → Leaves n (if b then p else q)
if-Leaves true n p q hp hq = hp
if-Leaves false n p q hp hq = hq

Leaves-le : (m n : ℕ) (r : Option Converted) → Leaves m r → m ≤ n → Leaves n r
Leaves-le m n none h le = tt
Leaves-le m n (some r) h le = omega arith

convert-Leaves : (x : Spec) (long : Bool) (s : List ℕ) → Leaves (length s) (convert x long s)
unfolding convert
convert-Leaves x long [] = omega arith
convert-Leaves x long (c ∷ s) =
    Leaves-le (length s) (length (c ∷ s)) _
      (if-Leaves (c == 99) (length s) _ _ (put_char-Leaves x s x.args) (
        if-Leaves (c == 115) (length s) _ _ (put_string-Leaves x s x.args) (
          if-Leaves (c == 112) (length s) _ _ (put_pointer-Leaves x s x.args) (
            if-Leaves (c == 65) (length s) _ _
              (put_address-Leaves long (record x.flags { uppercase = true }) x.field_width s x.args)
              (if-Leaves (c == 97) (length s) _ _
                (put_address-Leaves long x.flags x.field_width s x.args)
                (put_integer-Leaves x c s))))))
      (omega arith)

conversion-Leaves : (s : List ℕ) (vs : List Arg) → Leaves (length s) (conversion s vs)
unfolding conversion
conversion-Leaves s vs =
    widths (take_width (take_flags no_flags s).0 (take_flags no_flags s).1 vs)
      (take_width-Within (take_flags no_flags s).0 (take_flags no_flags s).1 vs)
  where
    finish :
        (y : Spec)
        → length y.fmt ≤ length s
        → Leaves (length s) (convert y (take_qualifier y.fmt).0 (take_qualifier y.fmt).1)
    finish y le =
        Leaves-le (length (take_qualifier y.fmt).1) (length s)
          (convert y (take_qualifier y.fmt).0 (take_qualifier y.fmt).1)
          (convert-Leaves y (take_qualifier y.fmt).0 (take_qualifier y.fmt).1)
          (omega (arith, take_qualifier-length y.fmt))

    precisions :
        (o : Option Spec)
        → Within (length s) o
        → Leaves (length s) (o >>= λ y. convert y (take_qualifier y.fmt).0 (take_qualifier y.fmt).1)
    precisions none h = tt
    precisions (some y) h = finish y h

    widths :
        (o : Option Spec)
        → Within (length (take_flags no_flags s).1) o
        → Leaves (length s) (
            o >>= λ x.
            take_precision x >>= λ y. convert y (take_qualifier y.fmt).0 (take_qualifier y.fmt).1)
    widths none h = tt
    widths (some x) h = precisions (take_precision x) (
        Within-le (length x.fmt) (length s) (take_precision x) (take_precision-Within x)
          (omega (arith, take_flags-length no_flags s)))

prepend-ends :
    (t : List ℕ) (r : Printed) → r ≢ Printed.out_of_fuel → prepend t r ≢ Printed.out_of_fuel
prepend-ends t (Printed.text s) h q = cc
prepend-ends t Printed.undefined h q = h q
prepend-ends t Printed.out_of_fuel h q = h q

print_from-round :
    (n c : ℕ) (s : List ℕ) (vs : List Arg)
    → ((t : List ℕ) (us : List Arg) → length t ≤ length s → print_from n t us ≢ Printed.out_of_fuel)
    → print_from (suc n) (c ∷ s) vs ≢ Printed.out_of_fuel
unfolding print_from
print_from-round n c s vs ih = elim (Bool-cases (c == 37)) [
  | inr e ↦ rw (e, print_from) (prepend-ends (c ∷ []) (print_from n s vs) (ih s vs (omega arith)))
  | inl e ↦ rw (e, print_from) (step (conversion s vs) (conversion-Leaves s vs))
]
  where
    step :
        (o : Option Converted)
        → Leaves (length s) o
        → elim o [ none ↦ Printed.undefined | some r ↦ prepend r.out (print_from n r.fmt r.args) ]
          ≢ Printed.out_of_fuel
    step none h = λ q. cc
    step (some r) h = prepend-ends r.out (print_from n r.fmt r.args) (ih r.fmt r.args h)

print_from-ends :
    (n : ℕ) (s : List ℕ) (vs : List Arg) → length s ≤ n → print_from n s vs ≢ Printed.out_of_fuel
print_from-ends zero [] vs h = unfold print_from in (λ q. cc)
print_from-ends (suc n) [] vs h = unfold print_from in (λ q. cc)
print_from-ends zero (c ∷ s) vs h = absurd (omega arith)
print_from-ends (suc n) (c ∷ s) vs h =
    print_from-round n c s vs (λ t us le. print_from-ends n t us (omega arith))

print_from-plain :
    (s : List ℕ) (vs : List Arg) → All (λ c. c ≢ 37) s → print_from (length s) s vs ≡ Printed.text s
unfolding print_from
print_from-plain [] vs h = refl
print_from-plain (c ∷ s) vs h = elim (Bool-cases (c == 37)) [
  | inl e ↦ absurd (h.0 ((==_iff c 37).0 e))
  | inr e ↦ rw (e, print_from) (ap (prepend (c ∷ [])) (print_from-plain s vs h.1))
]

-- The loop of `vsprintf` ends, whatever the format and the arguments are: fuel for one round for each
-- character of the format is enough. With no '%' in the format the text is the format.
pub vsprintf-ends :
    (fmt : List ℕ) (vs : List Arg)
    → (vsprintf fmt vs ≢ Printed.out_of_fuel)
      × (All (λ c. c ≢ 37) fmt → vsprintf fmt vs ≡ Printed.text fmt)
unfolding vsprintf
vsprintf-ends fmt vs = (print_from-ends (length fmt) fmt vs (omega arith), print_from-plain fmt vs)
