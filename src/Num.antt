-- ===== src/Num.antt =====
-- lib/src/stdlib: utoa.c, itoa.c, strtol.c, strtoul.c, atoi.c and rand.c on a memory of bytes. An int,
-- a long and an unsigned are 32-bit patterns.
pub mod Digits
pub mod Parse
mod Tests
use tiny_os_qemu.Base.{
  ℕ, zero, suc, ◌+◌, ◌-◌, ◌*◌, ◌/◌, ◌%◌, ◌^◌, Bool, true, false, not, ◌&&◌, ◌||◌, Option, none,
  some, Bytes, update, ltb, leb, ◌==◌, if◌then◌else◌,
}

-- `digits[d]`
abbrev pub digit_char : ℕ → ℕ
digit_char d = if ltb d 10 then 48 + d else 87 + d

abbrev pub bad_base : ℕ → Bool
bad_base base = ltb base 2 || ltb 36 base

-- The first loop of `utoa`, from index `i` on: where it ends, and the memory. `n` bounds the rounds.
unfoldable pub put_digits : ℕ → Bytes → ℕ → ℕ → ℕ → ℕ → Option (ℕ × Bytes)
put_digits zero m str base i value = none
put_digits (suc n) m str base i value = elim (value / base == 0) [
  | true ↦ some (i + 1, update m (str + i) (digit_char (value % base)))
  | false ↦
      put_digits n (update m (str + i) (digit_char (value % base))) str base (i + 1) (value / base)
]

abbrev pub swap : Bytes → ℕ → ℕ → Bytes
swap m a b = update (update m a (m b)) b (m a)

-- The second loop: the bytes from `j` to `i` are reversed. Each round takes two of them.
unfoldable pub reverse_bytes : ℕ → Bytes → ℕ → ℕ → ℕ → Bytes
reverse_bytes zero m str j i = m
reverse_bytes (suc n) m str j i = elim (ltb j i) [
  | true ↦ reverse_bytes n (swap m (str + j) (str + i)) str (j + 1) (i - 1)
  | false ↦ m
]

-- What `utoa` returns is NULL for a base that it does not support. A value below 2 ^ 32 has at most
-- 32 digits.
unfoldable pub utoa : Bytes → ℕ → ℕ → ℕ → Option (Option ℕ × Bytes)
utoa m value str base =
    if bad_base base then some (none, update m str 0) else elim (put_digits 32 m str base 0 value) [
      | none ↦ none
      | some (i, t) ↦ some (some str, reverse_bytes i (update t (str + i) 0) str 0 (i - 1))
    ]

-- `base == 10 && value < 0`
abbrev pub prints_sign : ℕ → ℕ → Bool
prints_sign value base = base == 10 && leb (2 ^ 31) value

unfoldable pub itoa : Bytes → ℕ → ℕ → ℕ → Option (Option ℕ × Bytes)
itoa m value str base =
    if bad_base base
    then some (none, update m str 0)
    else elim (if prints_sign value base
        then utoa (update m str 45) ((2 ^ 32 - value) % 2 ^ 32) (str + 1) base
        else utoa m value str base) [ none ↦ none | some (_, t) ↦ some (some str, t) ]
