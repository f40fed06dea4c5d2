-- ===== src/Str/Compare.antt =====
-- lib/src/string: memcmp.c, strcmp.c, strncmp.c, memmem.c, strstr.c and strnstr.c.
pub mod Equal
use tiny_os_qemu.Base.{
  ℕ, zero, suc, ◌+◌, ◌-◌, ◌%◌, ◌^◌, Bool, true, false, not, ◌&&◌, ◌||◌, Option, none, some, Bytes,
  ltb, leb, ◌==◌, if◌then◌else◌,
}
use tiny_os_qemu.Str.Scan.{strnlen, memchr}

-- `*s1 - *s2` of two bytes, as the pattern of an int.
abbrev pub difference : ℕ → ℕ → ℕ
difference a b = (a + 2 ^ 32 - b) % 2 ^ 32

unfoldable pub memcmp : Bytes → ℕ → ℕ → ℕ → ℕ
memcmp m s1 s2 zero = 0
memcmp m s1 s2 (suc n) = elim (m s1 == m s2) [
  | true ↦ memcmp m (s1 + 1) (s2 + 1) n
  | false ↦ difference (m s1) (m s2)
]

-- `none` when neither string ends nor differs within `n` bytes: the code runs on.
unfoldable pub strcmp : ℕ → Bytes → ℕ → ℕ → Option ℕ
strcmp zero m s1 s2 = none
strcmp (suc n) m s1 s2 = elim (not (m s1 == 0) && m s1 == m s2) [
  | true ↦ strcmp n m (s1 + 1) (s2 + 1)
  | false ↦ some (difference (m s1) (m s2))
]

-- The loop of `strncmp`, with `n` bytes to go.
unfoldable pub compare_up_to : Bytes → ℕ → ℕ → ℕ → ℕ
compare_up_to m s1 s2 zero = difference (m s1) (m s2)
compare_up_to m s1 s2 (suc n) = elim (m s1 == m s2 && not (n == 0 || m s1 == 0)) [
  | true ↦ compare_up_to m (s1 + 1) (s2 + 1) n
  | false ↦ difference (m s1) (m s2)
]

unfoldable pub strncmp : Bytes → ℕ → ℕ → ℕ → ℕ
strncmp m s1 s2 n = if n == 0 then 0 else compare_up_to m s1 s2 n

-- The inner loop of `memmem`, from index `i` down to 1: whether all these bytes agree.
unfoldable pub agrees_down : Bytes → ℕ → ℕ → ℕ → Bool
agrees_down m hs ne zero = true
agrees_down m hs ne (suc i) = elim (m (hs + suc i) == m (ne + suc i)) [
  | true ↦ agrees_down m hs ne i
  | false ↦ false
]

-- The outer loop, with `n` places to go.
unfoldable pub memmem_from : ℕ → Bytes → ℕ → ℕ → ℕ → Option ℕ
memmem_from zero m hs ne ne_len = none
memmem_from (suc n) m hs ne ne_len = elim (m hs == m ne && agrees_down m hs ne (ne_len - 1)) [
  | true ↦ some hs
  | false ↦ memmem_from n m (hs + 1) ne ne_len
]

unfoldable pub memmem : Bytes → ℕ → ℕ → ℕ → ℕ → Option ℕ
memmem m hs hs_len ne ne_len =
    if ne_len == 0 then some hs else memmem_from (hs_len + 1 - ne_len) m hs ne ne_len

-- The inner loop of `strstr`, from index `i` on: whether `ne` ends before it differs.
unfoldable pub agrees_up : ℕ → Bytes → ℕ → ℕ → ℕ → Option Bool
agrees_up zero m hs ne i = none
agrees_up (suc n) m hs ne i = elim (m (ne + i) == 0) [
  | true ↦ some true
  | false ↦ elim (m (hs + i) == m (ne + i)) [
    | true ↦ agrees_up n m hs ne (i + 1)
    | false ↦ some false
  ]
]

unfoldable pub strstr_from : ℕ → Bytes → ℕ → ℕ → Option (Option ℕ)
strstr_from zero m hs ne = none
strstr_from (suc n) m hs ne = elim (m hs == 0) [
  | true ↦ some none
  | false ↦ elim (m hs == m ne) [
    | false ↦ strstr_from n m (hs + 1) ne
    | true ↦ elim (agrees_up (suc n) m hs ne 1) [
      | none ↦ none
      | some true ↦ some (some hs)
      | some false ↦ strstr_from n m (hs + 1) ne
    ]
  ]
]

unfoldable pub strstr : ℕ → Bytes → ℕ → ℕ → Option (Option ℕ)
strstr n m hs ne = if m ne == 0 then some (some hs) else strstr_from n m hs ne

-- `x && !memchr(haystack, 0, x - haystack)`
abbrev pub before_end : Bytes → ℕ → Option ℕ → Option ℕ
before_end m haystack none = none
before_end m haystack (some x) = elim (memchr m haystack 0 (x - haystack)) [
  | none ↦ some x
  | some _ ↦ none
]

unfoldable pub strnstr : Bytes → ℕ → ℕ → ℕ → Option ℕ
strnstr m haystack needle len =
    let needle_len = strnlen m needle len in
    if ltb needle_len len || m (needle + needle_len) == 0
    then before_end m haystack (memmem m haystack len needle needle_len)
    else none
