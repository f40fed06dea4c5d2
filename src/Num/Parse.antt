-- ===== src/Num/Parse.antt =====
-- lib/src/stdlib: strtol.c, strtoul.c, atoi.c and rand.c. `n` bounds the bytes of the string that are
-- looked at; `none` is a string that does not end within them.
pub mod Scan
pub mod Roundtrip
use tiny_os_qemu.Base.{
  ℕ, zero, suc, ◌+◌, ◌-◌, ◌*◌, ◌/◌, ◌%◌, ◌^◌, Bool, true, false, not, ◌&&◌, ◌||◌, Option, none,
  some, Bytes, ltb, leb, ◌==◌, if◌then◌else◌,
}

abbrev pub is_space : ℕ → Bool
is_space c = c == 32 || c == 9 || c == 10

unfoldable pub skip_spaces : ℕ → Bytes → ℕ → Option ℕ
skip_spaces zero m s = none
skip_spaces (suc n) m s = elim (is_space (m s)) [ true ↦ skip_spaces n m (s + 1) | false ↦ some s ]

abbrev pub is_negated : Bytes → ℕ → Bool
is_negated m s = m s == 45

-- Behind the sign, if there is one.
abbrev pub after_sign : Bytes → ℕ → ℕ
after_sign m s = if m s == 45 || m s == 43 then s + 1 else s

-- "0x" in front, where the base allows it.
abbrev pub is_hex : Bytes → ℕ → ℕ → Bool
is_hex m s base = (base == 0 || base == 16) && m s == 48 && (m (s + 1) == 120 || m (s + 1) == 88)

abbrev pub after_prefix : Bytes → ℕ → ℕ → ℕ
after_prefix m s base = if is_hex m s base then s + 2 else s

abbrev pub real_base : Bytes → ℕ → ℕ → ℕ
real_base m s base =
    if is_hex m s base then 16 else if base == 0 then (if m s == 48 then 8 else 10) else base

-- The value of a digit or a letter.
abbrev pub digit_value : ℕ → Option ℕ
digit_value c =
    if leb 48 c && leb c 57
    then some (c - 48)
    else if leb 65 c && leb c 90
    then some (c - 55)
    else if leb 97 c && leb c 122
    then some (c - 87)
    else none

-- The variable `any`: 0, 1 and -1.
pub data Seen : Type 0 where
  nothing digits overflow : Seen

pub record Scanned : Type 0 where
  pub acc : ℕ
  pub any : Seen
  pub stop : ℕ

abbrev pub has_overflowed : Seen → Bool
has_overflowed Seen.overflow = true
has_overflowed _ = false

abbrev pub too_big : ℕ → ℕ → ℕ → Seen → ℕ → Bool
too_big cutoff cutlim acc any c =
    has_overflowed any || ltb cutoff acc || acc == cutoff && ltb cutlim c

-- The loop over the digits, from `s` on.
unfoldable pub scan_digits : ℕ → Bytes → ℕ → ℕ → ℕ → ℕ → ℕ → Seen → Option Scanned
scan_digits zero m base cutoff cutlim s acc any = none
scan_digits (suc n) m base cutoff cutlim s acc any = elim (digit_value (m s)) [
  | none ↦ some (record { acc = acc; any = any; stop = s })
  | some c ↦ elim (leb base c) [
    | true ↦ some (record { acc = acc; any = any; stop = s })
    | false ↦ elim (too_big cutoff cutlim acc any c) [
      | true ↦ scan_digits n m base cutoff cutlim (s + 1) acc Seen.overflow
      | false ↦
          scan_digits n m base cutoff cutlim (s + 1) ((acc * base % 2 ^ 32 + c) % 2 ^ 32)
            Seen.digits
    ]
  ]
]

abbrev pub end_of : Seen → ℕ → ℕ → ℕ
end_of Seen.nothing nptr stop = nptr
end_of _ nptr stop = stop

abbrev pub negate : ℕ → ℕ
negate v = (2 ^ 32 - v) % 2 ^ 32

-- The largest magnitude that a long of this sign can have.
abbrev pub limit : Bool → ℕ
limit neg = if neg then 2 ^ 31 else 2 ^ 31 - 1

-- The value, as the pattern of a long; LONG_MIN is the pattern of 2 ^ 31.
abbrev pub long_value : Bool → Scanned → ℕ
long_value neg r = if has_overflowed r.any then limit neg else if neg then negate r.acc else r.acc

-- From the first digit on.
unfoldable pub long_digits : ℕ → Bytes → ℕ → Bool → ℕ → ℕ → Option (ℕ × ℕ)
long_digits n m nptr neg b s =
    let top : ℕ = limit neg in
    elim (scan_digits n m b (top / b) (top % b) s 0 Seen.nothing) [
      | none ↦ none
      | some r ↦ some (long_value neg r, end_of r.any nptr r.stop)
    ]

-- From the first byte that is no space on.
unfoldable pub long_from : ℕ → Bytes → ℕ → ℕ → ℕ → Option (ℕ × ℕ)
long_from n m nptr s base =
    let t = after_sign m s in
    long_digits n m nptr (is_negated m s) (real_base m t base) (after_prefix m t base)

-- The value and `*endptr`. A base that is not supported leaves `*endptr` alone; here it is `nptr`.
unfoldable pub strtol : ℕ → Bytes → ℕ → ℕ → Option (ℕ × ℕ)
strtol n m nptr base =
    if base == 1 || ltb 36 base
    then some (0, nptr)
    else elim (skip_spaces n m nptr) [ none ↦ none | some s ↦ long_from n m nptr s base ]

abbrev pub unsigned_value : Bool → Scanned → ℕ
unsigned_value neg r =
    if has_overflowed r.any then 2 ^ 32 - 1 else if neg then negate r.acc else r.acc

unfoldable pub unsigned_digits : ℕ → Bytes → ℕ → Bool → ℕ → ℕ → Option (ℕ × ℕ)
unsigned_digits n m nptr neg b s =
    let top : ℕ = (2 ^ 32 - 1) in
    elim (scan_digits n m b (top / b) (top % b) s 0 Seen.nothing) [
      | none ↦ none
      | some r ↦ some (unsigned_value neg r, end_of r.any nptr r.stop)
    ]

-- From the first byte that is no space on.
unfoldable pub unsigned_from : ℕ → Bytes → ℕ → ℕ → ℕ → Option (ℕ × ℕ)
unsigned_from n m nptr s base =
    let t = after_sign m s in
    unsigned_digits n m nptr (is_negated m s) (real_base m t base) (after_prefix m t base)

-- For a base that is not negative.
unfoldable pub strtoul : ℕ → Bytes → ℕ → ℕ → Option (ℕ × ℕ)
strtoul n m nptr base = elim (skip_spaces n m nptr) [
  | none ↦ none
  | some s ↦ unsigned_from n m nptr s base
]

unfoldable pub atoi : ℕ → Bytes → ℕ → Option ℕ
atoi n m s = elim (strtol n m s 10) [ none ↦ none | some (v, _) ↦ some v ]

-- `next` behind a call of `rand`, and what it returns.
unfoldable pub rand : ℕ → ℕ × ℕ
rand next = let new = (next * 6364136223846793005 + 1) % 2 ^ 64 in (new, new / 2 ^ 32 % 2 ^ 31)
