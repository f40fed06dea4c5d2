-- ===== src/Str/Copy.antt =====
-- lib/src/string: memcpy.c, memmove.c, memset.c, memccpy.c, strcpy.c, strncpy.c, strcat.c and
-- strncat.c. They return a pointer that the caller knows, so the result is the memory.
pub mod Move
use tiny_os_qemu.Base.{
  ℕ, zero, suc, ◌+◌, ◌%◌, Bool, true, false, ◌&&◌, Option, none, some, Bytes, update, ltb, ◌==◌,
  if◌then◌else◌,
}

unfoldable pub memset : Bytes → ℕ → ℕ → ℕ → Bytes
memset m s c zero = m
memset m s c (suc n) = memset (update m s (c % 256)) (s + 1) c n

unfoldable pub memcpy : Bytes → ℕ → ℕ → ℕ → Bytes
memcpy m dst src zero = m
memcpy m dst src (suc n) = memcpy (update m dst (m src)) (dst + 1) (src + 1) n

-- The loop of `memmove` that counts down, from the ends `dst + n` and `src + n`.
unfoldable pub copy_backwards : Bytes → ℕ → ℕ → ℕ → Bytes
copy_backwards m dst src zero = m
copy_backwards m dst src (suc n) = copy_backwards (update m (dst + n) (m (src + n))) dst src n

-- The other loop of `memmove` is that of `memcpy`.
unfoldable pub memmove : Bytes → ℕ → ℕ → ℕ → Bytes
memmove m dst src n =
    if ltb src dst && ltb dst (src + n) then copy_backwards m dst src n else memcpy m dst src n

-- With the pointer behind `endchar`, if it is among the bytes.
unfoldable pub memccpy : Bytes → ℕ → ℕ → ℕ → ℕ → Option ℕ × Bytes
memccpy m dst src c zero = (none, m)
memccpy m dst src c (suc n) = elim (m src == c % 256) [
  | true ↦ (some (dst + 1), update m dst (m src))
  | false ↦ memccpy (update m dst (m src)) (dst + 1) (src + 1) c n
]

-- A string that does not end within `n` bytes gives `none`: the code runs on.
unfoldable pub strcpy : ℕ → Bytes → ℕ → ℕ → Option Bytes
strcpy zero m dst src = none
strcpy (suc n) m dst src = elim (m src == 0) [
  | true ↦ some (update m dst (m src))
  | false ↦ strcpy n (update m dst (m src)) (dst + 1) (src + 1)
]

unfoldable pub strncpy : Bytes → ℕ → ℕ → ℕ → Bytes
strncpy m dst src zero = m
strncpy m dst src (suc n) = elim (m src == 0) [
  | true ↦ memset (update m dst (m src)) (dst + 1) 0 n
  | false ↦ strncpy (update m dst (m src)) (dst + 1) (src + 1) n
]

-- The address of the 0 that ends the string at `s`.
unfoldable pub string_end : ℕ → Bytes → ℕ → Option ℕ
string_end zero m s = none
string_end (suc n) m s = elim (m s == 0) [ true ↦ some s | false ↦ string_end n m (s + 1) ]

unfoldable pub strcat : ℕ → Bytes → ℕ → ℕ → Option Bytes
strcat n m s1 s2 = elim (string_end n m s1) [ none ↦ none | some e ↦ strcpy n m e s2 ]

-- The second loop of `strncat`, with `n` bytes to go.
unfoldable pub append_up_to : Bytes → ℕ → ℕ → ℕ → Bytes
append_up_to m s1 s2 zero = m
append_up_to m s1 s2 (suc n) = elim (m s2 == 0) [
  | true ↦ update m s1 (m s2)
  | false ↦
      append_up_to (if n == 0 then update (update m s1 (m s2)) (s1 + 1) 0 else update m s1 (m s2))
        (s1 + 1) (s2 + 1) n
]

unfoldable pub strncat : ℕ → Bytes → ℕ → ℕ → ℕ → Option Bytes
strncat f m s1 s2 n = elim (string_end f m s1) [
  | none ↦ none
  | some e ↦ some (append_up_to m e s2 n)
]
