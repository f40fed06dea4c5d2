-- ===== src/Sh/Ends.antt =====
-- user/src/phase6/sh.c: `parsecmd`, and the strings that `nulterminate` makes of the words.
use tiny_os_qemu.Base.{
  ℕ, ◌+◌, ◌-◌, ◌*◌, ◌<◌, ◌≤◌, ◌≡◌, ◌≢◌, refl, Bool, true, false, List, [], ◌∷◌, ◌++◌, Bytes, ◌==◌,
  if◌then◌else◌, update, arith, Bool-cases, inl, inr, ap, sym, ◌∙◌, ==_refl,
}
use mathlib.Core.Path.{subst}
use tiny_os_qemu.Sh.{Word, Cmd, peek, end_words, nulterminate}
use tiny_os_qemu.Sh.Parse.{Syntax, Result, Parsed, parseline, parsecmd}
use tiny_os_qemu.Sh.Words.{IsWord, is_plain}
use tiny_os_qemu.Sh.Sound.{AllWords, words, Sound, IsParsed, parseline-IsParsed}

map-AllWords :
    (P Q : Word → Type 0) (ws : List Word)
    → ((w : Word) → P w → Q w)
    → AllWords P ws
    → AllWords Q ws
map-AllWords P Q [] f a = tt
map-AllWords P Q (w ∷ ws) f a = (f w a.0, map-AllWords P Q ws f a.1)

zip-AllWords :
    (P Q : Word → Type 0) (ws : List Word)
    → AllWords P ws
    → AllWords Q ws
    → AllWords (λ w. P w × Q w) ws
zip-AllWords P Q [] a b = tt
zip-AllWords P Q (w ∷ ws) a b = ((a.0, b.0), zip-AllWords P Q ws a.1 b.1)

end_words-append :
    (ws us : List Word) (u : Bytes) → end_words (ws ++ us) u ≡ end_words us (end_words ws u)
unfolding end_words
end_words-append [] us u = refl
end_words-append (w ∷ ws) us u = end_words-append ws us (update u w.end 0)

nulterminate-words : (c : Cmd) (u : Bytes) → nulterminate c u ≡ end_words (words c) u
unfolding nulterminate words end_words
nulterminate-words (Cmd.exec argv) u = refl
nulterminate-words (Cmd.redir c f mode fd whence) u =
    ap (λ x. update x f.end 0) (nulterminate-words c u)
    ∙ sym (end_words-append (words c) (f ∷ []) u)
nulterminate-words (Cmd.pipe l r) u =
    nulterminate-words r (nulterminate l u)
    ∙ ap (end_words (words r)) (nulterminate-words l u)
    ∙ sym (end_words-append (words l) (words r) u)
nulterminate-words (Cmd.list l r) u =
    nulterminate-words r (nulterminate l u)
    ∙ ap (end_words (words r)) (nulterminate-words l u)
    ∙ sym (end_words-append (words l) (words r) u)
nulterminate-words (Cmd.back c) u = nulterminate-words c u

end_words-kept :
    (ws : List Word) (u : Bytes) (i : ℕ) → AllWords (λ w. w.end ≢ i) ws → end_words ws u i ≡ u i
unfolding end_words
end_words-kept [] u i a = refl
end_words-kept (w ∷ ws) u i a = end_words-kept ws (update u w.end 0) i a.1 ∙ ground (arith, a.0)

end_words_zero : (ws : List Word) (u : Bytes) (i : ℕ) → u i ≡ 0 → end_words ws u i ≡ 0
unfolding end_words
end_words_zero [] u i h = h
end_words_zero (w ∷ ws) u i h = end_words_zero ws (update u w.end 0) i (ground arith)

end_words-ended : (ws : List Word) (u : Bytes) → AllWords (λ w. end_words ws u w.end ≡ 0) ws
unfolding end_words
end_words-ended [] u = tt
end_words-ended (w ∷ ws) u = (
  end_words_zero ws (update u w.end 0) w.end (ground (arith, ==_refl w.end)),
  end_words-ended ws (update u w.end 0),
)

-- In `t` the word of `m` is a string of its own.
pub record IsEnded (m t : Bytes) (w : Word) : Type 0 where
  pub kept : (i : ℕ) → w.start ≤ i → i < w.end → t i ≡ m i
  pub ended : t w.end ≡ 0

module _ (m : Bytes) (es : ℕ) where
  -- No word ends at a character of a word.
  ends_apart :
      (i : ℕ) (ws : List Word)
      → is_plain (m i) ≡ true
      → AllWords (IsWord m es) ws
      → AllWords (λ w. w.end ≢ i) ws
  ends_apart i ws p a =
      map-AllWords (IsWord m es) (λ w. w.end ≢ i) ws
        (λ w h e. cross (subst (λ x. is_plain (m x) ≡ false) e h.ends) p) a
    where
      cross : {b : Bool} → b ≡ false → b ≡ true → ⊥
      cross x y = cc

  nulterminate-IsEnded :
      (c : Cmd)
      → Sound m es c
      → AllWords (λ w. IsWord m es w × IsEnded m (nulterminate c m) w) (words c)
  nulterminate-IsEnded c a =
      subst (λ t. AllWords (λ w. IsWord m es w × IsEnded m t w) (words c))
        (sym (nulterminate-words c m))
        (map-AllWords (λ w. IsWord m es w × (end_words (words c) m w.end ≡ 0))
          (λ w. IsWord m es w × IsEnded m (end_words (words c) m) w) (words c)
          (λ w h. (
            h.0,
            record {
              kept = λ i x y.
                  end_words-kept (words c) m i (ends_apart i (words c) (h.0.plain i x y) a);
              ended = h.1;
            },
          ))
          (zip-AllWords (IsWord m es) _ (words c) a (end_words-ended (words c) m)))

  -- What `parsecmd` comes to: a syntax error, or a command whose words are strings.
  abbrev pub Outcome : Result (Cmd × Bytes) → Type 0
  Outcome (Result.ok (c, t)) = AllWords (λ w. IsWord m es w × IsEnded m t w) (words c)
  Outcome (Result.panic e) = Unit {0}
  Outcome Result.out_of_fuel = ⊥

  finish :
      (s : ℕ) (r : Parsed)
      → IsParsed m es s r
      → Outcome (elim r [
        | Result.ok a ↦
            (if (peek m es [] a.1).1 == es
              then Result.ok (a.0, nulterminate a.0 m)
              else Result.panic Syntax.leftovers)
        | Result.panic e ↦ Result.panic e
        | Result.out_of_fuel ↦ Result.out_of_fuel
      ])
  finish s (Result.ok (c, t)) (a, b, d) = elim (Bool-cases ((peek m es [] t).1 == es)) [
    | inl e ↦ rw e (nulterminate-IsEnded c a)
    | inr e ↦ rw e tt
  ]
  finish s (Result.panic e) h = tt
  finish s Result.out_of_fuel h = h

  -- For every line that ends at `es`, `parsecmd` stops within its bound on the depth of the calls,
  -- with a syntax error or a command. Every argument and file name of the command is a word of the
  -- line, not empty, without white space and symbols, and stands in the line that `nulterminate`
  -- leaves as a string of its own.
  pub parsecmd-Outcome : (s : ℕ) → m es ≡ 0 → s ≤ es → Outcome (parsecmd m es s)
  unfolding parsecmd
  parsecmd-Outcome s z le =
      finish s (parseline m es (4 * (es - s) + 4) s) (parseline-IsParsed m es z s le)
