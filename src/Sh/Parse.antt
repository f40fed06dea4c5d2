-- ===== src/Sh/Parse.antt =====
-- user/src/phase6/sh.c: the recursive descent of the shell.
use tiny_os_qemu.Base.{
  ℕ, zero, suc, ◌+◌, ◌-◌, ◌*◌, true, false, [], ◌∷◌, ◌++◌, Bytes, leb, ◌==◌, if◌then◌else◌,
}
use tiny_os_qemu.Sh.{Token, Word, Cmd, gettoken, peek, nulterminate}

-- What `panic` says.
pub data Syntax : Type 0 where
  syntax missing_file missing_paren no_block too_many leftovers : Syntax

-- `panic` leaves the process. A bound on the calls that is too small is told apart.
pub data Result (A : Type 0) : Type 0 where
  ok : A → Result A
  panic : Syntax → Result A
  out_of_fuel : Result A

module _ {A B : Type 0} where
  infixl 5 ◌>>=◌
  abbrev pub ◌>>=◌ : Result A → (A → Result B) → Result B
  r >>= f = elim r [
    | Result.ok a ↦ f a
    | Result.panic e ↦ Result.panic e
    | Result.out_of_fuel ↦ Result.out_of_fuel
  ]

-- A command, and the new value of `*ps`.
abbrev pub Parsed : Type 0
Parsed = Result (Cmd × ℕ)

-- The MAXARGS of the shell.
abbrev pub max_args : ℕ
max_args = 10

-- O_RDONLY is 0; O_WRONLY, O_CREATE and O_TRUNC; SEEK_SET is 0 and SEEK_END 2.
abbrev pub redirect : Cmd → ℕ → Word → Cmd
redirect cmd kind file =
    if kind == 60
    then Cmd.redir cmd file 0 0 0
    else if kind == 62
    then Cmd.redir cmd file (1 + 512 + 1024) 1 0
    else if kind == 43
    then Cmd.redir cmd file (1 + 512) 1 2
    else cmd

abbrev pub word_of : Token → Word
word_of t = record { start = t.start; end = t.end }

-- `cmd` of `parseexec` stays the command inside the redirections of `ret`; it gets an argument.
unfoldable pub add_arg : Word → Cmd → Cmd
add_arg w (Cmd.exec argv) = Cmd.exec (argv ++ (w ∷ []))
add_arg w (Cmd.redir cmd file mode fd whence) = Cmd.redir (add_arg w cmd) file mode fd whence
add_arg w (Cmd.pipe left right) = Cmd.pipe left right
add_arg w (Cmd.list left right) = Cmd.list left right
add_arg w (Cmd.back cmd) = Cmd.back cmd

module _ (m : Bytes) (es : ℕ) where
  unfoldable pub parseredirs : ℕ → Cmd → ℕ → Parsed
  parseredirs zero cmd s = Result.out_of_fuel
  parseredirs (suc n) cmd s =
      let (more, t) = peek m es (60 ∷ 62 ∷ []) s in
      elim more [
        | false ↦ Result.ok (cmd, t)
        | true ↦
            let tok = gettoken m es t in
            let file = gettoken m es tok.rest in
            elim (file.kind == 97) [
              | false ↦ Result.panic Syntax.missing_file
              | true ↦ parseredirs n (redirect cmd tok.kind (word_of file)) file.rest
            ]
      ]

  -- The loop of `parseexec`.
  unfoldable pub parseargs : ℕ → ℕ → Cmd → ℕ → Parsed
  parseargs zero argc ret s = Result.out_of_fuel
  parseargs (suc n) argc ret s =
      let (done, t) = peek m es (124 ∷ 41 ∷ 38 ∷ 59 ∷ []) s in
      let tok = gettoken m es t in
      elim (done) [
        | true ↦ Result.ok (ret, t)
        | false ↦ elim (tok.kind == 0) [
          | true ↦ Result.ok (ret, tok.rest)
          | false ↦ elim (tok.kind == 97) [
            | false ↦ Result.panic Syntax.syntax
            | true ↦ elim (leb max_args (argc + 1)) [
              | true ↦ Result.panic Syntax.too_many
              | false ↦ parseredirs (suc es) (add_arg (word_of tok) ret) tok.rest >>= λ (r, u).
                  parseargs n (argc + 1) r u
            ]
          ]
        ]
      ]

  -- The loop of `parseline`.
  unfoldable pub parsebacks : ℕ → Cmd → ℕ → Parsed
  parsebacks zero cmd s = Result.out_of_fuel
  parsebacks (suc n) cmd s =
      let (more, t) = peek m es (38 ∷ []) s in
      elim more [
        | false ↦ Result.ok (cmd, t)
        | true ↦ parsebacks n (Cmd.back cmd) (gettoken m es t).rest
      ]

  -- The first argument bounds the depth of the calls.
  unfoldable mutual
    pub parseline : ℕ → ℕ → Parsed
    parseline zero s = Result.out_of_fuel
    parseline (suc f) s = parsepipe f s >>= λ (cmd, t).
        (parsebacks (suc es) cmd t >>= λ (cmd', u).
        (let (more, v) = peek m es (59 ∷ []) u in
          elim more [
            | false ↦ Result.ok (cmd', v)
            | true ↦ parseline f (gettoken m es v).rest >>= λ (next, w).
                Result.ok (Cmd.list cmd' next, w)
          ]))

    pub parsepipe : ℕ → ℕ → Parsed
    parsepipe zero s = Result.out_of_fuel
    parsepipe (suc f) s = parseexec f s >>= λ (cmd, t).
        (let (more, u) = peek m es (124 ∷ []) t in
          elim more [
            | false ↦ Result.ok (cmd, u)
            | true ↦
                parsepipe f (gettoken m es u).rest >>= λ (next, v). Result.ok (Cmd.pipe cmd next, v)
          ])

    pub parseblock : ℕ → ℕ → Parsed
    parseblock zero s = Result.out_of_fuel
    parseblock (suc f) s =
        let (opens, t) = peek m es (40 ∷ []) s in
        elim opens [
          | false ↦ Result.panic Syntax.no_block
          | true ↦ parseline f (gettoken m es t).rest >>= λ (cmd, u).
              (let (closes, v) = peek m es (41 ∷ []) u in
                elim closes [
                  | false ↦ Result.panic Syntax.missing_paren
                  | true ↦ parseredirs (suc es) cmd (gettoken m es v).rest
                ])
        ]

    pub parseexec : ℕ → ℕ → Parsed
    parseexec zero s = Result.out_of_fuel
    parseexec (suc f) s =
        let (opens, t) = peek m es (40 ∷ []) s in
        elim opens [
          | true ↦ parseblock f t
          | false ↦ parseredirs (suc es) (Cmd.exec []) t >>= λ (ret, u). parseargs max_args 0 ret u
        ]

  -- The command, and the line as `nulterminate` leaves it. `es` is the first 0 from `s` on.
  unfoldable pub parsecmd : ℕ → Result (Cmd × Bytes)
  parsecmd s = parseline (4 * (es - s) + 4) s >>= λ (cmd, t).
      (if (peek m es [] t).1 == es
        then Result.ok (cmd, nulterminate cmd m)
        else Result.panic Syntax.leftovers)
