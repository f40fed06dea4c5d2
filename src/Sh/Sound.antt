-- ===== src/Sh/Sound.antt =====
-- user/src/phase6/sh.c: the parser ends for every line, and takes its words from the line.
use tiny_os_qemu.Base.{
  ℕ, zero, suc, ◌+◌, ◌-◌, ◌*◌, ◌<◌, ◌≤◌, ◌≡◌, refl, true, false, List, [], ◌∷◌, ◌++◌, Bytes, leb,
  ◌==◌, arith, Bool-cases, inl, inr, ==_iff,
}
use tiny_os_qemu.Sh.{Word, Cmd, gettoken, peek}
use tiny_os_qemu.Sh.Parse.{
  Syntax, Result, Parsed, ◌>>=◌, redirect, word_of, add_arg, max_args, parseredirs, parseargs,
  parsebacks, parseline, parsepipe, parseblock, parseexec,
}
use tiny_os_qemu.Sh.Words.{IsWord, gettoken-IsTaken, peek-moves}

abbrev pub AllWords : (Word → Type 0) → List Word → Type 0
AllWords P [] = Unit {0}
AllWords P (w ∷ ws) = P w × AllWords P ws

pub AllWords-append :
    (P : Word → Type 0) (ws us : List Word) → AllWords P ws → AllWords P us → AllWords P (ws ++ us)
AllWords-append P [] us a b = b
AllWords-append P (w ∷ ws) us a b = (a.0, AllWords-append P ws us a.1 b)

-- The arguments and the file names of a command, as `nulterminate` meets them.
unfoldable pub words : Cmd → List Word
words (Cmd.exec argv) = argv
words (Cmd.redir cmd file mode fd whence) = words cmd ++ (file ∷ [])
words (Cmd.pipe left right) = words left ++ words right
words (Cmd.list left right) = words left ++ words right
words (Cmd.back cmd) = words cmd

module _ (m : Bytes) (es : ℕ) where
  abbrev pub Sound : Cmd → Type 0
  Sound c = AllWords (IsWord m es) (words c)

  -- From `s` on a command was found, or a syntax error; the bound was enough.
  abbrev pub IsParsed : ℕ → Parsed → Type 0
  IsParsed s (Result.ok (c, t)) = Sound c × (s ≤ t) × (t ≤ es)
  IsParsed s (Result.panic e) = Unit {0}
  IsParsed s Result.out_of_fuel = ⊥

  later : (s t : ℕ) (r : Parsed) → s ≤ t → IsParsed t r → IsParsed s r
  later s t (Result.ok (c, u)) h (a, b, d) = (a, omega arith, d)
  later s t (Result.panic e) h p = tt
  later s t Result.out_of_fuel h p = p

  bound :
      (s t : ℕ) (r : Parsed) (f : Cmd × ℕ → Parsed)
      → IsParsed s r
      → ((c : Cmd) (u : ℕ) → Sound c → s ≤ u → u ≤ es → IsParsed t (f (c, u)))
      → IsParsed t (r >>= f)
  bound s t (Result.ok (c, u)) f (a, b, d) h = h c u a b d
  bound s t (Result.panic e) f p h = tt
  bound s t Result.out_of_fuel f p h = absurd p

  Sound-redirect : (c : Cmd) (k : ℕ) (w : Word) → Sound c → IsWord m es w → Sound (redirect c k w)
  unfolding words
  Sound-redirect c k w a b = elim (Bool-cases (k == 60)) [
    | inl e ↦ rw e (AllWords-append (IsWord m es) (words c) (w ∷ []) a (b, tt))
    | inr e ↦ rw e (elim (Bool-cases (k == 62)) [
      | inl f ↦ rw f (AllWords-append (IsWord m es) (words c) (w ∷ []) a (b, tt))
      | inr f ↦ rw f (elim (Bool-cases (k == 43)) [
        | inl g ↦ rw g (AllWords-append (IsWord m es) (words c) (w ∷ []) a (b, tt))
        | inr g ↦ rw g a
      ])
    ])
  ]

  split :
      (P : Word → Type 0) (ws us : List Word)
      → AllWords P (ws ++ us)
      → AllWords P ws × AllWords P us
  split P [] us a = (tt, a)
  split P (w ∷ ws) us a = let (b, c) = split P ws us a.1 in ((a.0, b), c)

  Sound-add_arg : (c : Cmd) (w : Word) → Sound c → IsWord m es w → Sound (add_arg w c)
  unfolding words add_arg
  Sound-add_arg (Cmd.exec argv) w a b = AllWords-append (IsWord m es) argv (w ∷ []) a (b, tt)
  Sound-add_arg (Cmd.redir c f mode fd whence) w a b =
      let (d, e) = split (IsWord m es) (words c) (f ∷ []) a in
      AllWords-append (IsWord m es) (words (add_arg w c)) (f ∷ []) (Sound-add_arg c w d b) e
  Sound-add_arg (Cmd.pipe l r) w a b = a
  Sound-add_arg (Cmd.list l r) w a b = a
  Sound-add_arg (Cmd.back c) w a b = a

  module _ (z : m es ≡ 0) where
    parseredirs-IsParsed :
        (n : ℕ) (c : Cmd) (s : ℕ)
        → s ≤ es
        → es - s < n
        → Sound c
        → IsParsed s (parseredirs m es n c s)
    unfolding parseredirs
    parseredirs-IsParsed zero c s le h a = absurd (omega arith)
    parseredirs-IsParsed (suc n) c s le h a =
        let p = peek m es (60 ∷ 62 ∷ []) s in
        let (lo, hi, nz) = peek-moves m es (60 ∷ 62 ∷ []) s le in
        let tok = gettoken m es p.1 in
        let t = gettoken-IsTaken m es p.1 z hi in
        let file = gettoken m es tok.rest in
        let u = gettoken-IsTaken m es tok.rest z t.in_line in
        elim (Bool-cases p.0) [
          | inr e ↦ rw (e, parseredirs) (a, lo, hi)
          | inl e ↦
              rw (e, parseredirs)
                (elim (Bool-cases (file.kind == 97)) [
                  | inr f ↦ rw f tt
                  | inl f ↦ rw f (
                      later s file.rest _ (omega (arith, t.le, u.le)) (
                        parseredirs-IsParsed n (redirect c tok.kind (word_of file)) file.rest
                          u.in_line (omega (arith, t.moves (nz e), u.le, u.in_line))
                          (Sound-redirect c tok.kind (word_of file) a
                            (u.is_word ((==_iff file.kind 97).0 f)))))
                ])
        ]

    parseargs-IsParsed :
        (n argc : ℕ) (c : Cmd) (s : ℕ)
        → s ≤ es
        → argc + n ≡ max_args
        → argc < max_args
        → Sound c
        → IsParsed s (parseargs m es n argc c s)
    unfolding parseargs
    parseargs-IsParsed zero argc c s le h lt a = absurd (omega arith)
    parseargs-IsParsed (suc n) argc c s le h lt a =
        let p = peek m es (124 ∷ 41 ∷ 38 ∷ 59 ∷ []) s in
        let (lo, hi, nz) = peek-moves m es (124 ∷ 41 ∷ 38 ∷ 59 ∷ []) s le in
        let tok = gettoken m es p.1 in
        let t = gettoken-IsTaken m es p.1 z hi in
        elim (Bool-cases p.0) [
          | inl e ↦ rw (e, parseargs) (a, lo, hi)
          | inr e ↦
              rw (e, parseargs)
                (elim (Bool-cases (tok.kind == 0)) [
                  | inl f ↦ rw f (a, omega (arith, t.le), t.in_line)
                  | inr f ↦ rw f (elim (Bool-cases (tok.kind == 97)) [
                    | inr g ↦ rw g tt
                    | inl g ↦ rw g (elim (Bool-cases (leb max_args (argc + 1))) [
                      | inl k ↦ rw k tt
                      | inr k ↦ rw k (
                          bound tok.rest s
                            (parseredirs m es (suc es) (add_arg (word_of tok) c) tok.rest) _
                            (parseredirs-IsParsed (suc es) (add_arg (word_of tok) c) tok.rest
                              t.in_line (omega arith)
                              (Sound-add_arg c (word_of tok) a
                                (t.is_word ((==_iff tok.kind 97).0 g))))
                            (λ r u b d v. later s u _ (omega (arith, t.le)) (
                              parseargs-IsParsed n (argc + 1) r u v (omega arith) (ground arith)
                                b)))
                    ])
                  ])
                ])
        ]

    parsebacks-IsParsed :
        (n : ℕ) (c : Cmd) (s : ℕ)
        → s ≤ es
        → es - s < n
        → Sound c
        → IsParsed s (parsebacks m es n c s)
    unfolding parsebacks words
    parsebacks-IsParsed zero c s le h a = absurd (omega arith)
    parsebacks-IsParsed (suc n) c s le h a =
        let p = peek m es (38 ∷ []) s in
        let (lo, hi, nz) = peek-moves m es (38 ∷ []) s le in
        let tok = gettoken m es p.1 in
        let t = gettoken-IsTaken m es p.1 z hi in
        elim (Bool-cases p.0) [
          | inr e ↦ rw (e, parsebacks) (a, lo, hi)
          | inl e ↦
              rw (e, parsebacks)
                (later s tok.rest _ (omega (arith, t.le)) (
                  parsebacks-IsParsed n (Cmd.back c) tok.rest t.in_line
                    (omega (arith, t.moves (nz e), t.in_line)) a))
        ]

    -- The depth that a call at `s` needs at most: `part` is 4 for a line, 3 for a pipe, 2 for a
    -- simple command and 1 for a block.
    abbrev Enough : ℕ → ℕ → ℕ → Type 0
    Enough part f s = 4 * (es - s) + part ≤ f

    -- What the calls at depth `f` come to.
    record AtDepth (f : ℕ) : Type 0 where
      pub line : (s : ℕ) → s ≤ es → Enough 4 f s → IsParsed s (parseline m es f s)
      pub pipe : (s : ℕ) → s ≤ es → Enough 3 f s → IsParsed s (parsepipe m es f s)
      pub block : (s : ℕ) → s ≤ es → Enough 1 f s → IsParsed s (parseblock m es f s)
      pub exec : (s : ℕ) → s ≤ es → Enough 2 f s → IsParsed s (parseexec m es f s)

    module _ (f : ℕ) (ih : AtDepth f) where
      -- The part behind a separator, if there is one, makes the command `g c`.
      tail :
          (parse : ℕ → Parsed) (g : Cmd → Cmd) (toks : List ℕ) (s u : ℕ) (c : Cmd)
          → Sound c
          → s ≤ u
          → u ≤ es
          → ((d : Cmd) → Sound d → Sound (g d))
          → ((v : ℕ) → v ≤ es → s < v → IsParsed v (parse v))
          → IsParsed s (elim (peek m es toks u).0 [
            | false ↦ Result.ok (c, (peek m es toks u).1)
            | true ↦ parse (gettoken m es (peek m es toks u).1).rest >>= λ (next, w).
                Result.ok (g next, w)
          ])
      tail parse g toks s u c a lo hi mk call =
          let p = peek m es toks u in
          let (lo', hi', nz) = peek-moves m es toks u hi in
          let tok = gettoken m es p.1 in
          let t = gettoken-IsTaken m es p.1 z hi' in
          elim (Bool-cases p.0) [
            | inr e ↦ rw e (a, omega arith, hi')
            | inl e ↦ rw e (
                bound tok.rest s (parse tok.rest) _
                  (call tok.rest t.in_line (omega (arith, t.moves (nz e))))
                  (λ d v b x y. (mk d b, omega (arith, t.le), y)))
          ]

      line_step : (s : ℕ) → s ≤ es → Enough 4 (suc f) s → IsParsed s (parseline m es (suc f) s)
      unfolding parseline words
      line_step s le h =
          bound s s (parsepipe m es f s) _ (ih.pipe s le (omega arith)) (λ c t a lo hi.
            bound t s (parsebacks m es (suc es) c t) _
              (parsebacks-IsParsed (suc es) c t hi (omega arith) a)
              (λ c' u a' lo' hi'.
                tail (parseline m es f) (Cmd.list c') (59 ∷ []) s u c' a' (omega arith) hi'
                  (λ d b. AllWords-append (IsWord m es) (words c') (words d) a' b)
                  (λ v x y. ih.line v x (omega arith))))

      pipe_step : (s : ℕ) → s ≤ es → Enough 3 (suc f) s → IsParsed s (parsepipe m es (suc f) s)
      unfolding parsepipe words
      pipe_step s le h =
          bound s s (parseexec m es f s) _ (ih.exec s le (omega arith)) (λ c t a lo hi.
            tail (parsepipe m es f) (Cmd.pipe c) (124 ∷ []) s t c a lo hi
              (λ d b. AllWords-append (IsWord m es) (words c) (words d) a b)
              (λ v x y. ih.pipe v x (omega arith)))

      close_block :
          (s u : ℕ) (c : Cmd)
          → Sound c
          → s ≤ u
          → u ≤ es
          → IsParsed s (elim (peek m es (41 ∷ []) u).0 [
            | false ↦ Result.panic Syntax.missing_paren
            | true ↦ parseredirs m es (suc es) c (gettoken m es (peek m es (41 ∷ []) u).1).rest
          ])
      close_block s u c a lo hi =
          let p = peek m es (41 ∷ []) u in
          let (lo', hi', nz) = peek-moves m es (41 ∷ []) u hi in
          let tok = gettoken m es p.1 in
          let t = gettoken-IsTaken m es p.1 z hi' in
          elim (Bool-cases p.0) [
            | inr e ↦ rw e tt
            | inl e ↦ rw e (
                later s tok.rest _ (omega (arith, t.le))
                  (parseredirs-IsParsed (suc es) c tok.rest t.in_line (omega arith) a))
          ]

      block_step : (s : ℕ) → s ≤ es → Enough 1 (suc f) s → IsParsed s (parseblock m es (suc f) s)
      unfolding parseblock
      block_step s le h =
          let p = peek m es (40 ∷ []) s in
          let (lo, hi, nz) = peek-moves m es (40 ∷ []) s le in
          let tok = gettoken m es p.1 in
          let t = gettoken-IsTaken m es p.1 z hi in
          elim (Bool-cases p.0) [
            | inr e ↦ rw (e, parseblock) tt
            | inl e ↦
                rw (e, parseblock)
                  (bound tok.rest s (parseline m es f tok.rest) _
                    (ih.line tok.rest t.in_line (omega (arith, t.moves (nz e), t.in_line)))
                    (λ c u a x y. close_block s u c a (omega (arith, t.le)) y))
          ]

      exec_step : (s : ℕ) → s ≤ es → Enough 2 (suc f) s → IsParsed s (parseexec m es (suc f) s)
      unfolding parseexec words
      exec_step s le h =
          let p = peek m es (40 ∷ []) s in
          let (lo, hi, nz) = peek-moves m es (40 ∷ []) s le in
          elim (Bool-cases p.0) [
            | inl e ↦ rw (e, parseexec) (later s p.1 _ lo (ih.block p.1 hi (omega arith)))
            | inr e ↦
                rw (e, parseexec)
                  (bound p.1 s (parseredirs m es (suc es) (Cmd.exec []) p.1) _
                    (parseredirs-IsParsed (suc es) (Cmd.exec []) p.1 hi (omega arith) tt)
                    (λ r u a x y.
                      later s u _ (omega arith)
                        (parseargs-IsParsed max_args 0 r u y refl (omega arith) a)))
          ]

    all_depths : (f : ℕ) → AtDepth f
    all_depths zero = record {
      line = λ s le h. absurd (omega arith);
      pipe = λ s le h. absurd (omega arith);
      block = λ s le h. absurd (omega arith);
      exec = λ s le h. absurd (omega arith);
    }
    all_depths (suc f) =
        let ih = all_depths f in
        record {
          line = line_step f ih;
          pipe = pipe_step f ih;
          block = block_step f ih;
          exec = exec_step f ih;
        }

    pub parseline-IsParsed : (s : ℕ) → s ≤ es → IsParsed s (parseline m es (4 * (es - s) + 4) s)
    parseline-IsParsed s le = (all_depths (4 * (es - s) + 4)).line s le (omega arith)
