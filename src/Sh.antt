-- ===== src/Sh.antt =====
-- user/src/phase6/sh.c, the shell: tokens and commands. A pointer into the line is an address of
-- `m`, `es` is the end of the line.
pub mod Parse
pub mod Words
pub mod Sound
pub mod Ends
mod Tests
use tiny_os_qemu.Base.{
  ℕ, zero, suc, ◌+◌, ◌-◌, Bool, true, false, not, ◌&&◌, ◌||◌, List, [], ◌∷◌, Bytes, update, ltb,
  ◌==◌, if◌then◌else◌,
}

abbrev pub whitespace : List ℕ
whitespace = 32 ∷ 9 ∷ 13 ∷ 10 ∷ 11 ∷ []

abbrev pub symbols : List ℕ
symbols = 60 ∷ 124 ∷ 62 ∷ 38 ∷ 59 ∷ 40 ∷ 41 ∷ []

-- `strchr` of a string constant finds also the 0 behind it.
abbrev pub is_in : List ℕ → ℕ → Bool
is_in [] c = c == 0
is_in (x ∷ xs) c = c == x || is_in xs c

-- `while(s < es && strchr(whitespace, *s)) s++`, with `n` bytes before `es`.
unfoldable pub skip_white : ℕ → Bytes → ℕ → ℕ
skip_white zero m s = s
skip_white (suc n) m s = elim (is_in whitespace (m s)) [ true ↦ skip_white n m (s + 1) | false ↦ s ]

-- The loop over a word.
unfoldable pub word_end : ℕ → Bytes → ℕ → ℕ
word_end zero m s = s
word_end (suc n) m s = elim (is_in whitespace (m s) || is_in symbols (m s)) [
  | true ↦ s
  | false ↦ word_end n m (s + 1)
]

-- What `gettoken` returns and stores: the kind, `*q`, `*eq` and `*ps`.
pub record Token : Type 0 where
  pub kind : ℕ
  pub start : ℕ
  pub end : ℕ
  pub rest : ℕ

abbrev pub is_single : ℕ → Bool
is_single c = c == 124 || c == 40 || c == 41 || c == 59 || c == 38 || c == 60

-- The kind of the token at `s`, behind the white space, and where it ends. 'a' is a word, '+' is ">>".
abbrev pub token_at : Bytes → ℕ → ℕ → ℕ × ℕ
token_at m es s =
    if m s == 0
    then (0, s)
    else if is_single (m s)
    then (m s, s + 1)
    else if m s == 62
    then (if m (s + 1) == 62 then (43, s + 2) else (62, s + 1))
    else (97, word_end (es - s) m s)

unfoldable pub gettoken : Bytes → ℕ → ℕ → Token
gettoken m es s =
    let start = skip_white (es - s) m s in
    let (kind, end) = token_at m es start in
    record { kind = kind; start = start; end = end; rest = skip_white (es - end) m end }

-- With the new value of `*ps`.
unfoldable pub peek : Bytes → ℕ → List ℕ → ℕ → Bool × ℕ
peek m es toks s = let t = skip_white (es - s) m s in (not (m t == 0) && is_in toks (m t), t)

-- A word of the line, by where it starts and ends.
pub record Word : Type 0 where
  pub start : ℕ
  pub end : ℕ

pub data Cmd : Type 0 where
  exec : (argv : List Word) → Cmd
  redir : (cmd : Cmd) (file : Word) (mode fd whence : ℕ) → Cmd
  pipe : (left right : Cmd) → Cmd
  list : (left right : Cmd) → Cmd
  back : (cmd : Cmd) → Cmd

-- The strings of a command get their ends.
unfoldable pub end_words : List Word → Bytes → Bytes
end_words [] m = m
end_words (w ∷ ws) m = end_words ws (update m w.end 0)

unfoldable pub nulterminate : Cmd → Bytes → Bytes
nulterminate (Cmd.exec argv) m = end_words argv m
nulterminate (Cmd.redir cmd file mode fd whence) m = update (nulterminate cmd m) file.end 0
nulterminate (Cmd.pipe left right) m = nulterminate right (nulterminate left m)
nulterminate (Cmd.list left right) m = nulterminate right (nulterminate left m)
nulterminate (Cmd.back cmd) m = nulterminate cmd m
