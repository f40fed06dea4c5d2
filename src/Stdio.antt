-- ===== src/Stdio.antt =====
-- lib/src/stdio.c: how numbers and addresses are printed. What is written from `str` on is a list of
-- characters. An int that only counts down to a test for `> 0` is its positive part.
pub mod Format
pub mod Parts
pub mod Number
pub mod Ends
mod Tests
use tiny_os_qemu.Base.{
  ℕ, zero, suc, ◌+◌, ◌-◌, ◌*◌, ◌/◌, ◌%◌, ◌^◌, Bool, true, false, not, ◌&&◌, ◌||◌, Option, none,
  some, List, [], ◌∷◌, ◌++◌, ltb, leb, ◌==◌, if◌then◌else◌, length, replicate,
}

-- The flags, a Boolean for each bit of `type`.
pub record Flags : Type 0 where
  pub zeropad : Bool
  pub sign : Bool
  pub plus : Bool
  pub space : Bool
  pub left : Bool
  pub hex_prep : Bool
  pub uppercase : Bool

-- `digits` and `upper_digits`
abbrev pub dig : Bool → ℕ → ℕ
dig upper d = if ltb d 10 then 48 + d else if upper then 55 + d else 87 + d

-- The characters for the digits of `num` in front of `tail`. `n` bounds the digits.
unfoldable pub put_number : ℕ → Bool → ℕ → ℕ → List ℕ → List ℕ
put_number zero upper base num tail = tail
put_number (suc n) upper base num tail = elim (num == 0) [
  | true ↦ tail
  | false ↦ put_number n upper base (num / base) (dig upper (num % base) ∷ tail)
]

-- The contents of `tmp`, from its end. A number below 2 ^ 32 has at most 32 digits.
abbrev pub tmp_digits : Bool → ℕ → ℕ → List ℕ
tmp_digits upper base num = if num == 0 then 48 ∷ [] else put_number 32 upper base num []

abbrev pub is_minus : Flags → ℕ → Bool
is_minus f num = f.sign && leb (2 ^ 31) num

-- The sign that is printed.
abbrev pub sign_of : Flags → ℕ → List ℕ
sign_of f num =
    if not f.sign
    then []
    else if leb (2 ^ 31) num
    then 45 ∷ []
    else if f.plus
    then 43 ∷ []
    else if f.space
    then 32 ∷ []
    else []

abbrev pub magnitude : Flags → ℕ → ℕ
magnitude f num = if is_minus f num then (2 ^ 32 - num) % 2 ^ 32 else num

-- "0" or "0x".
abbrev pub prefix_of : Flags → ℕ → List ℕ
prefix_of f base =
    if not f.hex_prep
    then []
    else if base == 8
    then 48 ∷ []
    else if base == 16
    then 48 ∷ 120 ∷ []
    else []

abbrev pub larger : ℕ → ℕ → ℕ
larger a b = if ltb b a then a else b

-- `size` behind all that is taken off it.
abbrev pub room : Flags → ℕ → ℕ → ℕ → ℕ → ℕ → ℕ
room f num base size precision i =
    size - length (sign_of f num) - length (prefix_of f base) - larger i precision

-- The end of `number`, from the padding on; LEFT takes ZEROPAD away.
abbrev pub lay_out : Flags → ℕ → List ℕ → List ℕ → List ℕ → List ℕ
lay_out f pad sign prefix body =
    if f.left
    then sign ++ (prefix ++ (body ++ replicate pad 32))
    else if f.zeropad
    then sign ++ (prefix ++ (replicate pad 48 ++ body))
    else replicate pad 32 ++ (sign ++ (prefix ++ body))

-- `none` is the result NULL.
unfoldable pub number : ℕ → ℕ → ℕ → ℕ → Flags → Option (List ℕ)
number num base size precision f =
    if ltb base 2 || ltb 36 base
    then none
    else let ds = tmp_digits f.uppercase base (magnitude f num) in
      some (
        lay_out f (room f num base size precision (length ds)) (sign_of f num) (prefix_of f base)
          (replicate (precision - length ds) 48 ++ ds))

-- The end of `eaddr` and `iaddr`.
abbrev pub place : Flags → ℕ → List ℕ → List ℕ
place f size text =
    if f.left
    then text ++ replicate (size - length text) 32
    else replicate (size - length text) 32 ++ text

-- The bytes of an Ethernet address, with ':' in front of all but the first.
abbrev pub hex_pairs : Bool → List ℕ → List ℕ
hex_pairs upper [] = []
hex_pairs upper (b ∷ bs) = 58 ∷ dig upper (b / 16) ∷ dig upper (b % 16) ∷ hex_pairs upper bs

unfoldable pub eaddr : List ℕ → ℕ → Flags → List ℕ
eaddr [] size f = place f size []
eaddr (b ∷ bs) size f =
    place f size (dig f.uppercase (b / 16) ∷ dig f.uppercase (b % 16) ∷ hex_pairs f.uppercase bs)

-- A byte in decimal.
abbrev pub decimal : ℕ → List ℕ
decimal n =
    if n == 0
    then 48 ∷ []
    else if leb 100 n
    then dig false (n / 100) ∷ dig false (n % 100 / 10) ∷ dig false (n % 10) ∷ []
    else if leb 10 n
    then dig false (n / 10) ∷ dig false (n % 10) ∷ []
    else dig false n ∷ []

abbrev pub dotted : List ℕ → List ℕ
dotted [] = []
dotted (b ∷ bs) = 46 ∷ (decimal b ++ dotted bs)

unfoldable pub iaddr : List ℕ → ℕ → Flags → List ℕ
iaddr [] size f = place f size []
iaddr (b ∷ bs) size f = place f size (decimal b ++ dotted bs)
