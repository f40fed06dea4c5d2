-- ===== src/Str/Scan.antt =====
-- lib/src/string: the functions that look for a byte or a set of bytes. `n` bounds the bytes of a
-- string that are looked at; a string that does not end within them gives `none`: the code runs on.
pub mod String
use tiny_os_qemu.Base.{
  ℕ, zero, suc, ◌+◌, ◌-◌, ◌%◌, Bool, true, false, not, ◌&&◌, ◌||◌, Option, none, some, Bytes, ltb,
  ◌==◌, if◌then◌else◌,
}

-- The address of the first 0 from `s` on.
unfoldable pub find_end : ℕ → Bytes → ℕ → Option ℕ
find_end zero m s = none
find_end (suc n) m s = elim (m s == 0) [ true ↦ some s | false ↦ find_end n m (s + 1) ]

unfoldable pub strlen : ℕ → Bytes → ℕ → Option ℕ
strlen n m s = elim (find_end n m s) [ none ↦ none | some e ↦ some (e - s) ]

-- `strnlen` without the subtraction of the start.
unfoldable pub find_end_within : ℕ → Bytes → ℕ → ℕ
find_end_within zero m s = s
find_end_within (suc n) m s = elim (m s == 0) [ true ↦ s | false ↦ find_end_within n m (s + 1) ]

unfoldable pub strnlen : Bytes → ℕ → ℕ → ℕ
strnlen m s n = find_end_within n m s - s

-- NULL is `some none`.
unfoldable pub strchr : ℕ → Bytes → ℕ → ℕ → Option (Option ℕ)
strchr zero m s c = none
strchr (suc n) m s c = elim (not (m s == 0) && not (m s == c % 256)) [
  | true ↦ strchr n m (s + 1) c
  | false ↦ some (if m s == c % 256 then some s else none)
]

-- The loop of `strrchr`, for a character that is not 0.
unfoldable pub last_of : ℕ → Bytes → ℕ → ℕ → Option ℕ → Option (Option ℕ)
last_of zero m s c last = none
last_of (suc n) m s c last = elim (strchr (suc n) m s c) [
  | none ↦ none
  | some none ↦ some last
  | some (some p) ↦ last_of n m (p + 1) c (some p)
]

unfoldable pub strrchr : ℕ → Bytes → ℕ → ℕ → Option (Option ℕ)
strrchr n m s c = if not (c == 0) then last_of n m s c none else strchr n m s c

unfoldable pub memchr : Bytes → ℕ → ℕ → ℕ → Option ℕ
memchr m s c zero = none
memchr m s c (suc n) = elim (m s == c % 256) [ true ↦ some s | false ↦ memchr m (s + 1) c n ]

-- From the last of the `n` bytes down.
unfoldable pub memrchr : Bytes → ℕ → ℕ → ℕ → Option ℕ
memrchr m s c zero = none
memrchr m s c (suc n) = elim (m (s + n) == c % 256) [
  | true ↦ some (s + n)
  | false ↦ memrchr m s c n
]

-- Whether the byte `c` is in the string at `s`: where the inner loops of `strspn`, `strcspn` and
-- `strpbrk` stop.
unfoldable pub is_among : ℕ → Bytes → ℕ → ℕ → Option Bool
is_among zero m s c = none
is_among (suc n) m s c = elim (m s == 0) [
  | true ↦ some false
  | false ↦ elim (c == m s) [ true ↦ some true | false ↦ is_among n m (s + 1) c ]
]

abbrev pub same_bool : Bool → Bool → Bool
same_bool true b = b
same_bool false b = not b

-- The loop of `strspn` (`want` is true) and of `strcspn` (false), to the address where it stops.
unfoldable pub span_end : Bool → ℕ → Bytes → ℕ → ℕ → Option ℕ
span_end want zero m s1 s2 = none
span_end want (suc n) m s1 s2 = elim (m s1 == 0) [
  | true ↦ some s1
  | false ↦ elim (is_among (suc n) m s2 (m s1)) [
    | none ↦ none
    | some b ↦ elim (same_bool b want) [ true ↦ span_end want n m (s1 + 1) s2 | false ↦ some s1 ]
  ]
]

unfoldable pub strspn : ℕ → Bytes → ℕ → ℕ → Option ℕ
strspn n m s1 s2 = elim (span_end true n m s1 s2) [ none ↦ none | some e ↦ some (e - s1) ]

unfoldable pub strcspn : ℕ → Bytes → ℕ → ℕ → Option ℕ
strcspn n m s1 s2 = elim (span_end false n m s1 s2) [ none ↦ none | some e ↦ some (e - s1) ]

unfoldable pub strpbrk : ℕ → Bytes → ℕ → ℕ → Option (Option ℕ)
strpbrk n m s1 s2 = elim (span_end false n m s1 s2) [
  | none ↦ none
  | some e ↦ some (if m e == 0 then none else some e)
]
