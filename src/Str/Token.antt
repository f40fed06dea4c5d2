-- ===== src/Str/Token.antt =====
-- lib/src/string/strtok.c. `lasts` is the static pointer, passed on.
use tiny_os_qemu.Base.{
  ℕ, zero, suc, ◌+◌, true, false, Option, none, some, Bytes, update, ◌==◌, if◌then◌else◌,
}
use tiny_os_qemu.Str.Scan.{is_among}

-- The address of the first byte from `s` on that is not among the delimiters.
unfoldable pub skip_delims : ℕ → Bytes → ℕ → ℕ → Option ℕ
skip_delims zero m s delim = none
skip_delims (suc n) m s delim = elim (is_among (suc n) m delim (m s)) [
  | none ↦ none
  | some true ↦ skip_delims n m (s + 1) delim
  | some false ↦ some s
]

-- The address of the first byte from `s` on that is a delimiter or 0.
unfoldable pub token_end : ℕ → Bytes → ℕ → ℕ → Option ℕ
token_end zero m s delim = none
token_end (suc n) m s delim = elim (m s == 0) [
  | true ↦ some s
  | false ↦ elim (is_among (suc n) m delim (m s)) [
    | none ↦ none
    | some true ↦ some s
    | some false ↦ token_end n m (s + 1) delim
  ]
]

-- The token, `lasts` and the memory.
abbrev pub Token : Type 0
Token = Option ℕ × Option ℕ × Bytes

abbrev pub cut_at : Bytes → ℕ → ℕ → Token
cut_at m tok e = if m e == 0 then (some tok, none, m) else (some tok, some (e + 1), update m e 0)

unfoldable pub token_from : ℕ → Bytes → ℕ → ℕ → Option Token
token_from n m s delim = elim (skip_delims n m s delim) [
  | none ↦ none
  | some tok ↦ elim (m tok == 0) [
    | true ↦ some (none, none, m)
    | false ↦ elim (token_end n m (tok + 1) delim) [ none ↦ none | some e ↦ some (cut_at m tok e) ]
  ]
]

abbrev pub start : Option ℕ → Option ℕ → Option ℕ
start (some s) lasts = some s
start none lasts = lasts

unfoldable pub strtok : ℕ → Bytes → Option ℕ → Option ℕ → ℕ → Option Token
strtok n m lasts s delim = elim (start s lasts) [
  | none ↦ some (none, lasts, m)
  | some p ↦ token_from n m p delim
]
