-- ===== src/Stdio/Parts.antt =====
-- lib/src/stdio.c: what the parts of a text of `number` are, said without the code, and that the
-- code's are those.
use tiny_os_qemu.Base.{
  ℕ, ◌+◌, ◌-◌, ◌^◌, ◌≡◌, ◌≢◌, ◌≤◌, ◌<◌, refl, Bool, true, false, List, [], ◌∷◌, ◌++◌, ltb, leb,
  ◌==◌, if◌then◌else◌, replicate, arith, ap, ◌∙◌, ==_iff, map,
}
use tiny_os_qemu.Stdio.{Flags, dig, sign_of, magnitude, prefix_of, lay_out}

-- The character for a digit: '0' to '9', then the letters from 'A' or from 'a' on.
abbrev pub glyph : Bool → ℕ → ℕ
glyph true d = if ltb d 10 then 48 + d else 65 + (d - 10)
glyph false d = if ltb d 10 then 48 + d else 97 + (d - 10)

cons_eq : {x y : ℕ} {xs ys : List ℕ} → x ≡ y → xs ≡ ys → x ∷ xs ≡ y ∷ ys
cons_eq {x} {y} {xs} {ys} p q = ap (λ z. z ∷ xs) p ∙ ap (λ z. y ∷ z) q

pub map-glyph : (upper : Bool) (ds : List ℕ) → map (dig upper) ds ≡ map (glyph upper) ds
map-glyph upper [] = refl
map-glyph true (d ∷ ds) = cons_eq (ground arith) (map-glyph true ds)
map-glyph false (d ∷ ds) = cons_eq (ground arith) (map-glyph false ds)

-- What stands for the sign: '-' for a negative int, else '+' or a blank where a flag asks for it, and
-- nothing for an unsigned number.
pub record IsSign (num : ℕ) (f : Flags) (sign : List ℕ) : Type 0 where
  pub unsigned : f.sign ≡ false → sign ≡ []
  pub negative : f.sign ≡ true → 2 ^ 31 ≤ num → sign ≡ 45 ∷ []
  pub plus : f.sign ≡ true → num < 2 ^ 31 → f.plus ≡ true → sign ≡ 43 ∷ []
  pub space : f.sign ≡ true → num < 2 ^ 31 → f.plus ≡ false → f.space ≡ true → sign ≡ 32 ∷ []
  pub bare : f.sign ≡ true → num < 2 ^ 31 → f.plus ≡ false → f.space ≡ false → sign ≡ []

-- What stands for the base: "0" or "0x" where the flag asks for it.
pub record IsPrefix (base : ℕ) (f : Flags) (prefix : List ℕ) : Type 0 where
  pub absent : f.hex_prep ≡ false → prefix ≡ []
  pub octal : f.hex_prep ≡ true → base ≡ 8 → prefix ≡ 48 ∷ []
  pub hex : f.hex_prep ≡ true → base ≡ 16 → prefix ≡ 48 ∷ 120 ∷ []
  pub other : f.hex_prep ≡ true → base ≢ 8 → base ≢ 16 → prefix ≡ []

-- The value that is written: for a negative int that without its sign.
pub record IsMagnitude (num : ℕ) (f : Flags) (value : ℕ) : Type 0 where
  pub negative : f.sign ≡ true → 2 ^ 31 ≤ num → value + num ≡ 2 ^ 32
  pub positive : f.sign ≡ true → num < 2 ^ 31 → value ≡ num
  pub unsigned : f.sign ≡ false → value ≡ num

-- Where the padding stands: blanks on the right, zeros behind sign and prefix, or blanks on the left.
pub record IsPlaced (f : Flags) (pad : ℕ) (sign prefix body text : List ℕ) : Type 0 where
  pub left : f.left ≡ true → text ≡ sign ++ (prefix ++ (body ++ replicate pad 32))
  pub zeros :
      f.left ≡ false → f.zeropad ≡ true → text ≡ sign ++ (prefix ++ (replicate pad 48 ++ body))
  pub blanks :
      f.left ≡ false → f.zeropad ≡ false → text ≡ replicate pad 32 ++ (sign ++ (prefix ++ body))

pub sign_of-IsSign : (num : ℕ) (f : Flags) → IsSign num f (sign_of f num)
sign_of-IsSign num f = record {
  unsigned = λ a. rw a refl;
  negative = λ a b. rw a (rw (at_least b) refl);
  plus = λ a b c. rw a (rw (below b) (rw c refl));
  space = λ a b c d. rw a (rw (below b) (rw c (rw d refl)));
  bare = λ a b c d. rw a (rw (below b) (rw c (rw d refl)));
}
  where
    at_least : 2 ^ 31 ≤ num → leb (2 ^ 31) num ≡ true
    at_least b = ground (arith, b)

    below : num < 2 ^ 31 → leb (2 ^ 31) num ≡ false
    below b = ground (arith, b)

pub prefix_of-IsPrefix : (base : ℕ) (f : Flags) → IsPrefix base f (prefix_of f base)
prefix_of-IsPrefix base f = record {
  absent = λ a. rw a refl;
  octal = λ a b. rw a (rw b refl);
  hex = λ a b. rw a (rw b refl);
  other = λ a b c. rw a (rw (not_at 8 b) (rw (not_at 16 c) refl));
}
  where
    not_at : (n : ℕ) → base ≢ n → (base == n) ≡ false
    not_at n b = ground (arith, b, ==_iff base n)

pub magnitude-IsMagnitude :
    (num : ℕ) (f : Flags) → num < 2 ^ 32 → IsMagnitude num f (magnitude f num)
magnitude-IsMagnitude num f h = record {
  negative = λ a b. ground (arith, h);
  positive = λ a b. ground arith;
  unsigned = λ a. ground arith;
}

pub lay_out-IsPlaced :
    (f : Flags) (pad : ℕ) (sign prefix body : List ℕ)
    → IsPlaced f pad sign prefix body (lay_out f pad sign prefix body)
lay_out-IsPlaced f pad sign prefix body = record {
  left = λ a. rw a refl;
  zeros = λ a b. rw a (rw b refl);
  blanks = λ a b. rw a (rw b refl);
}
