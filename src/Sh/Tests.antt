-- ===== src/Sh/Tests.antt =====
-- user/src/phase6/sh.c: the line "a >b;(c|d)&" and what it parses to.
use tiny_os_qemu.Base.{
  ℕ, zero, suc, ◌+◌, ◌≡◌, refl, Option, none, some, List, [], ◌∷◌, Bytes, arith,
}
use tiny_os_qemu.Sh.{Word, Cmd, gettoken, peek, skip_white, word_end}
use tiny_os_qemu.Sh.Parse.{
  Result, add_arg, parseredirs, parseargs, parsebacks, parseline, parsepipe, parseblock, parseexec,
  parsecmd,
}
use tiny_os_qemu.Sh.Ends.{Outcome, parsecmd-Outcome}

abbrev at : List ℕ → Bytes
at [] i = 0
at (c ∷ s) zero = c
at (c ∷ s) (suc i) = at s i

abbrev line : Bytes
line = at (97 ∷ 32 ∷ 62 ∷ 98 ∷ 59 ∷ 40 ∷ 99 ∷ 124 ∷ 100 ∷ 41 ∷ 38 ∷ [])

abbrev word : ℕ → Word
word i = record { start = i; end = i + 1 }

abbrev tree : Result (Cmd × Bytes) → Option Cmd
tree (Result.ok (c, t)) = some c
tree _ = none

line_tree :
    tree (parsecmd line 11 0)
    ≡ some (
        Cmd.list
          (Cmd.redir (Cmd.exec (word 0 ∷ [])) (word 3) 1537 1 0)
          (Cmd.back (Cmd.pipe (Cmd.exec (word 6 ∷ [])) (Cmd.exec (word 8 ∷ [])))))
unfolding parsecmd parseline parsepipe parseblock parseexec parseredirs parseargs parsebacks add_arg
    gettoken peek skip_white word_end
line_tree = refl

parsecmd-Outcome_example : Outcome line 11 (parsecmd line 11 0)
parsecmd-Outcome_example = parsecmd-Outcome line 11 0 refl (omega arith)
