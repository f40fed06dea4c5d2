-- ===== src/Str/Tests.antt =====
-- lib/src/string: runs on small memories, and the theorems there.
use tiny_os_qemu.Base.{
  ℕ, zero, suc, ◌<◌, ◌≡◌, refl, Option, none, some, List, [], ◌∷◌, Bytes, arith,
}
use tiny_os_qemu.Str.Copy.{memmove}
use tiny_os_qemu.Str.Copy.Move.{moved, memmove-moved}
use tiny_os_qemu.Str.Scan.{is_among}
use tiny_os_qemu.Str.Token.{Token, strtok, token_from, skip_delims, token_end}

abbrev at : List ℕ → Bytes
at [] i = 0
at (c ∷ s) zero = c
at (c ∷ s) (suc i) = at s i

-- "ab,c" at 0, then ",": delimiters at 5.
abbrev text : Bytes
text = at (97 ∷ 98 ∷ 44 ∷ 99 ∷ 0 ∷ 44 ∷ 0 ∷ 97 ∷ 98 ∷ 0 ∷ [])

first_token : Option Token → Option (Option ℕ × Option ℕ)
first_token none = none
first_token (some (t, l, m)) = some (t, l)

tokens : first_token (strtok 9 text none (some 0) 5) ≡ some (some 0, some 3)
unfolding strtok first_token token_from skip_delims token_end is_among
tokens = refl

memmove-moved_example : memmove text 1 0 3 2 ≡ moved text 1 0 3 2
memmove-moved_example = memmove-moved text 1 0 3 2

abbrev ab : List ℕ
ab = 97 ∷ 98 ∷ []

abbrev ab_c : List ℕ
ab_c = 97 ∷ 98 ∷ 44 ∷ 99 ∷ []

small : (i : ℕ) → text i < 256
small i = ground arith
