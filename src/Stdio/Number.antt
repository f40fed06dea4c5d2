-- ===== src/Stdio/Number.antt =====
-- lib/src/stdio.c: the text that `number` writes, its width and its value.
use tiny_os_qemu.Base.{
  ℕ, zero, suc, ◌+◌, ◌-◌, ◌/◌, ◌%◌, ◌^◌, ◌≡◌, ◌≢◌, ◌≤◌, ◌<◌, refl, Bool, true, false, ◌||◌, none,
  some, List, [], ◌∷◌, ◌++◌, ltb, ◌==◌, if◌then◌else◌, length, replicate, arith, Bool-cases, inl,
  inr, ap, sym, ◌∙◌, All, ==_iff, map, length-append,
}
use mathlib.Core.Path.{subst}
use native.Mathlib.Nat.{div-add-mod', mod-lt}
use tiny_os_qemu.Num.Digits.{eval, half}
use tiny_os_qemu.Stdio.Parts.{
  glyph, map-glyph, IsSign, IsPrefix, IsMagnitude, IsPlaced, sign_of-IsSign, prefix_of-IsPrefix,
  magnitude-IsMagnitude, lay_out-IsPlaced,
}
use tiny_os_qemu.Stdio.{
  Flags, dig, put_number, tmp_digits, is_minus, sign_of, magnitude, prefix_of, larger, room,
  lay_out, number,
}

-- The digits that `ds` has, for the number `num`.
record Digits (upper : Bool) (base num : ℕ) (text : List ℕ) : Type 0 where
  pub ds : List ℕ
  pub text_eq : text ≡ map (dig upper) ds
  pub value_eq : eval base 0 ds ≡ num
  pub digits_lt : All (λ d. d < base) ds
  pub some_digit : ds ≢ []

put_number-Digits :
    (n : ℕ) (upper : Bool) (base num : ℕ) (ds : List ℕ)
    → 2 ≤ base
    → num < 2 ^ n
    → All (λ d. d < base) ds
    → (ds ≡ [] → num ≢ 0)
    → Digits upper base (eval base num ds) (put_number n upper base num (map (dig upper) ds))
unfolding put_number eval
put_number-Digits zero upper base num ds hb hn a h = record {
  ds = ds;
  text_eq = refl;
  value_eq = ap (λ x. eval base x ds) (omega arith);
  digits_lt = a;
  some_digit = λ q. h q (omega arith);
}
put_number-Digits (suc n) upper base num ds hb hn a h = elim (Bool-cases (num == 0)) [
  | inl e ↦
      rw (e, put_number)
        (record {
          ds = ds;
          text_eq = refl;
          value_eq = ap (λ x. eval base x ds) (sym ((==_iff num 0).0 e));
          digits_lt = a;
          some_digit = λ q. h q ((==_iff num 0).0 e);
        })
  | inr e ↦
      rw (e, put_number)
        (subst
          (λ x.
            Digits upper base (eval base x ds)
              (put_number n upper base (num / base) (map (dig upper) (num % base ∷ ds))))
          (div-add-mod' num base)
          (put_number-Digits n upper base (num / base) (num % base ∷ ds) hb (half base num n hb hn)
            (mod-lt num (omega arith), a) (λ q. absurd (cc))))
]

length-replicate : (n a : ℕ) → length (replicate n a) ≡ n
length-replicate zero a = refl
length-replicate (suc n) a = ap suc (length-replicate n a)

length-map : (g : ℕ → ℕ) (xs : List ℕ) → length (map g xs) ≡ length xs
length-map g [] = refl
length-map g (x ∷ xs) = ap suc (length-map g xs)

eval-nil : (base num : ℕ) → eval base num [] ≡ num
unfolding eval
eval-nil base num = refl

tmp_digits-Digits :
    (upper : Bool) (base num : ℕ)
    → 2 ≤ base
    → num < 2 ^ 32
    → Digits upper base num (tmp_digits upper base num)
tmp_digits-Digits upper base num hb hn = elim (Bool-cases (num == 0)) [
  | inl e ↦ rw e (record {
    ds = 0 ∷ [];
    text_eq = refl;
    value_eq = unfold eval in ground (arith, (==_iff num 0).0 e);
    digits_lt = (omega arith, tt);
    some_digit = λ q. cc;
  })
  | inr e ↦ rw e (
      subst (λ x. Digits upper base x (put_number 32 upper base num [])) (eval-nil base num)
        (put_number-Digits 32 upper base num [] hb hn tt (λ q z. cc ((==_iff num 0).1 z))))
]

magnitude-lt : (f : Flags) (num : ℕ) → num < 2 ^ 32 → magnitude f num < 2 ^ 32
magnitude-lt f num h = elim (Bool-cases (is_minus f num)) [
  | inl e ↦ rw e (omega arith)
  | inr e ↦ rw e h
]

lay_out-length :
    (f : Flags) (pad : ℕ) (sign prefix body : List ℕ)
    → length (lay_out f pad sign prefix body) ≡ pad + length sign + length prefix + length body
lay_out-length f pad sign prefix body = ground (
  arith,
  length-append sign (prefix ++ (body ++ replicate pad 32)),
  length-append prefix (body ++ replicate pad 32),
  length-append body (replicate pad 32),
  length-append sign (prefix ++ (replicate pad 48 ++ body)),
  length-append prefix (replicate pad 48 ++ body),
  length-append (replicate pad 48) body,
  length-append (replicate pad 32) (sign ++ (prefix ++ body)),
  length-append sign (prefix ++ body),
  length-append prefix body,
  length-replicate pad 32,
  length-replicate pad 48,
)

-- `number` with the digits `ds` for those of `tmp`.
abbrev written : ℕ → ℕ → ℕ → Flags → ℕ → List ℕ → List ℕ
written base size precision f num ds =
    lay_out f (room f num base size precision (length ds)) (sign_of f num) (prefix_of f base)
      (replicate (precision - length ds) 48 ++ ds)

number-written :
    (num base size precision : ℕ) (f : Flags)
    → 2 ≤ base
    → base ≤ 36
    → number num base size precision f
      ≡ some (written base size precision f num (tmp_digits f.uppercase base (magnitude f num)))
unfolding number
number-written num base size precision f lo hi = go (ltb base 2 || ltb 36 base) (ground arith)
  where
    go :
        (b : Bool)
        → b ≡ false
        → (if b
            then none
            else some
                (written base size precision f num (tmp_digits f.uppercase base (magnitude f num))))
          ≡ some (written base size precision f num (tmp_digits f.uppercase base (magnitude f num)))
    go true e = absurd (cc)
    go false e = refl

written-length :
    (base size precision : ℕ) (f : Flags) (num : ℕ) (ds : List ℕ)
    → length (written base size precision f num ds)
      ≡ larger size
          (length (sign_of f num) + length (prefix_of f base) + larger (length ds) precision)
written-length base size precision f num ds = ground (
  arith,
  lay_out-length f (room f num base size precision (length ds)) (sign_of f num) (prefix_of f base)
      (replicate (precision - length ds) 48 ++ ds),
  length-append (replicate (precision - length ds) 48) ds,
  length-replicate (precision - length ds) 48,
)

-- A text of `number`: its parts, where they stand, and its width.
pub record Shown (num base size precision : ℕ) (f : Flags) : Type 0 where
  pub sign : List ℕ
  pub is_sign : IsSign num f sign
  pub prefix : List ℕ
  pub is_prefix : IsPrefix base f prefix
  pub ds : List ℕ
  pub value : IsMagnitude num f (eval base 0 ds)
  pub digits_lt : All (λ d. d < base) ds
  pub some_digit : ds ≢ []
  pub pad : ℕ
  pub text : List ℕ
  pub number_eq : number num base size precision f ≡ some text
  pub placed :
      IsPlaced f pad sign prefix
        (replicate (precision - length ds) 48 ++ map (glyph f.uppercase) ds)
        text
  pub width_eq :
      length text ≡ larger size (length sign + length prefix + larger (length ds) precision)

-- For a base from 2 to 36 and a 32-bit `num`, `number` writes the digits of `num`, of a negative int
-- without its sign, at least one and each below the base; in front of them as many zeros as the
-- precision asks for; the sign, which is '-' for a negative int and else what the flags ask for; the
-- prefix of base 8 or 16 if the flags ask for one; and the padding: blanks on the right, zeros
-- behind the prefix or blanks on the left. The text is as long as the field width, or as sign,
-- prefix and digits together where these need more.
pub number-Shown :
    (num base size precision : ℕ) (f : Flags)
    → 2 ≤ base
    → base ≤ 36
    → num < 2 ^ 32
    → Shown num base size precision f
number-Shown num base size precision f lo hi h =
    let d = tmp_digits-Digits f.uppercase base (magnitude f num) lo (magnitude-lt f num h) in
    record {
      sign = sign_of f num;
      is_sign = sign_of-IsSign num f;
      prefix = prefix_of f base;
      is_prefix = prefix_of-IsPrefix base f;
      ds = d.ds;
      value = subst (IsMagnitude num f) (sym d.value_eq) (magnitude-IsMagnitude num f h);
      digits_lt = d.digits_lt;
      some_digit = d.some_digit;
      pad = room f num base size precision (length (map (dig f.uppercase) d.ds));
      text = written base size precision f num (map (dig f.uppercase) d.ds);
      number_eq =
          number-written num base size precision f lo hi
          ∙ ap (λ x. some (written base size precision f num x)) d.text_eq;
      placed =
          subst
            (λ n.
              IsPlaced f (room f num base size precision (length (map (dig f.uppercase) d.ds)))
                (sign_of f num) (prefix_of f base)
                (replicate (precision - n) 48 ++ map (glyph f.uppercase) d.ds)
                (written base size precision f num (map (dig f.uppercase) d.ds)))
            (length-map (dig f.uppercase) d.ds)
            (subst
              (λ cs.
                IsPlaced f (room f num base size precision (length (map (dig f.uppercase) d.ds)))
                  (sign_of f num) (prefix_of f base)
                  (replicate (precision - length (map (dig f.uppercase) d.ds)) 48 ++ cs)
                  (written base size precision f num (map (dig f.uppercase) d.ds)))
              (map-glyph f.uppercase d.ds) (lay_out-IsPlaced f _ _ _ _));
      width_eq =
          written-length base size precision f num (map (dig f.uppercase) d.ds)
          ∙ ap
              (λ k.
                larger size
                  (length (sign_of f num) + length (prefix_of f base) + larger k precision))
              (length-map (dig f.uppercase) d.ds);
    }
