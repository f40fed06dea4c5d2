-- ===== src/Input/Scan.antt =====
-- user/ulib/scanf.c: `scanf`. The format is the list of its characters, without the 0 at its end.
use tiny_os_qemu.Base.{
  ℕ, ◌-◌, ◌^◌, Bool, true, false, Option, none, some, List, [], ◌∷◌, ◌==◌, if◌then◌else◌,
}
use tiny_os_qemu.Num.Parse.{is_space, strtol, strtoul}
use tiny_os_qemu.Input.{Input, filled, getchar, peekchar, remove_space, gets}

-- What is stored for a scan_conversion.
pub data Item : Type 0 where
  char : ℕ → Item
  string : List ℕ → Item
  long : ℕ → Item

infixl 5 ◌>>=◌
abbrev pub ◌>>=◌ : {A B : Type 0} → Option A → (A → Option B) → Option B
none >>= f = none
(some a) >>= f = f a

-- " \t\n"
abbrev pub blanks : List ℕ
blanks = 32 ∷ 9 ∷ 10 ∷ []

-- The formats of numbers. The digits are read from a buffer of 32 bytes.
abbrev pub scan_number : ℕ → Bool → ℕ → Input → Option (Item × Input)
scan_number fuel sign base s = do
  t ← remove_space fuel s
  r ← gets fuel 32 blanks true false t
  v ←
      if sign
      then strtol 33 (filled r.0 (λ _. 0)) 0 base
      else strtoul 33 (filled r.0 (λ _. 0)) 0 base
  some (Item.long v.0, r.1)

abbrev pub scan_string : ℕ → Input → Option (Item × Input)
scan_string fuel s = do
  t ← remove_space fuel s
  r ← gets fuel (2 ^ 32 - 1) blanks true false t
  some (Item.string r.0, r.1)

-- The switch on the character behind '%'; `none` is `default`.
abbrev pub scan_conversion : ℕ → ℕ → Option (Input → Option (Item × Input))
scan_conversion fuel c =
    if c == 99
    then some (λ s. some (Item.char (getchar s).0, (getchar s).1))
    else if c == 115
    then some (scan_string fuel)
    else if c == 100
    then some (scan_number fuel true 10)
    else if c == 117
    then some (scan_number fuel false 10)
    else if c == 120
    then some (scan_number fuel false 16)
    else none

-- A character of the format other than '%'.
abbrev pub match_char : ℕ → ℕ → Input → Option Input
match_char fuel c s =
    if is_space c
    then remove_space fuel s
    else some (let (p, t) = peekchar s in if c == p then (getchar t).1 else t)

abbrev pub push : Item → List Item × Input → Option (List Item × Input)
push i (is, s) = some (i ∷ is, s)

-- The items that are stored, whose number is what `scanf` returns, and the input behind them. `fuel`
-- bounds the bytes that a loop over the input drops.
unfoldable pub scanf : ℕ → List ℕ → Input → Option (List Item × Input)
scanf fuel [] s = some ([], s)
scanf fuel (c ∷ []) s =
    if c == 37 then some ([], s) else (match_char fuel c s >>= λ t. some ([], t))
scanf fuel (c ∷ d ∷ fmt) s = elim (c == 37) [
  | false ↦ match_char fuel c s >>= λ t. scanf fuel (d ∷ fmt) t
  | true ↦ elim (scan_conversion fuel d) [
    | none ↦ scanf fuel (d ∷ fmt) s
    | some f ↦ f s >>= λ r. scanf fuel fmt r.1 >>= λ q. push r.0 q
  ]
]
