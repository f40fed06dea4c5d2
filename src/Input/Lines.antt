-- ===== src/Input/Lines.antt =====
-- user/ulib/scanf.c: the lines that `getline` returns.
use tiny_os_qemu.Base.{
  ℕ, zero, suc, ◌+◌, ◌-◌, ◌≡◌, ◌≢◌, ◌<◌, ◌^◌, ◌%◌, refl, Bool, true, false, some, List, [], ◌∷◌,
  ◌++◌, ◌==◌, length, arith, ap, sym, ◌∙◌, ==_iff, All,
}
use tiny_os_qemu.Input.{
  Input, peekchar, is_delim, gets_loop, put_front, gets_round, gets_end, getline,
}
use tiny_os_qemu.Input.Reads.{joined, unread, IsInput, Ending, ending, Takes, slice_split, takes}

-- A byte of a line.
abbrev pub IsPlain : ℕ → Type 0
IsPlain c = (c ≢ 0) × (c ≢ 10)

plain_tests : (c : ℕ) → IsPlain c → ((c == 0) ≡ false) × (is_delim (10 ∷ []) c ≡ false)
plain_tests c h = (ground (arith, h.0, ==_iff c 0), ground (arith, h.1, ==_iff c 10))

-- A round of the loop on a plain byte.
gets-plain :
    (n c : ℕ) (s : Input) (l : List ℕ)
    → IsPlain c
    → (x : Takes s c l)
    → gets_loop (suc n) (10 ∷ []) true s ≡ put_front c (gets_loop n (10 ∷ []) true x.left)
unfolding gets_loop
gets-plain n c s l p x =
    let next : Input → Bool × List ℕ × Input = gets_loop n (10 ∷ []) true in
    ap (gets_round (10 ∷ []) true next) x.peek_eq
    ∙ rw ((plain_tests c p).0, (plain_tests c p).1, gets_round)
        (ap (λ z. put_front z.0 (next z.1)) x.get_eq)

gets-end_of_line :
    (n : ℕ) (s : Input) (l : List ℕ) (x : Takes s 10 l)
    → gets_loop (suc n) (10 ∷ []) true s ≡ (true, 10 ∷ [], x.left)
unfolding gets_loop
gets-end_of_line n s l x =
    ap (gets_round (10 ∷ []) true (gets_loop n (10 ∷ []) true)) x.peek_eq
    ∙ ap (λ z. (true, z.0 ∷ [], z.1)) x.get_eq

-- The loop on a line that ends in '\n' within the `n` bytes.
gets-newline :
    (n : ℕ) (line rest : List ℕ) (s : Input)
    → IsInput s
    → unread s ≡ line ++ (10 ∷ rest)
    → All IsPlain line
    → length line < n
    → (t : Input) × (gets_loop n (10 ∷ []) true s ≡ (true, line ++ (10 ∷ []), t))
      × (unread t ≡ rest)
      × IsInput t
gets-newline zero line rest s h e a l = absurd (omega arith)
gets-newline (suc n) [] rest s h e a l =
    let x = takes s 10 rest h e in (x.left, gets-end_of_line n s rest x, x.left_eq, x.left-IsInput)
gets-newline (suc n) (c ∷ line) rest s h e a l =
    let x = takes s c (line ++ (10 ∷ rest)) h e in
    let (t, q, u, v) = gets-newline n line rest x.left x.left-IsInput x.left_eq a.1 (omega arith) in
    (t, gets-plain n c s (line ++ (10 ∷ rest)) a.0 x ∙ ap (put_front c) q, u, v)

-- The loop on `n` bytes of a longer line.
gets-cut :
    (line rest : List ℕ) (s : Input)
    → IsInput s
    → unread s ≡ line ++ rest
    → All IsPlain line
    → (t : Input) × (gets_loop (length line) (10 ∷ []) true s ≡ (false, line, t))
      × (unread t ≡ rest)
      × IsInput t
gets-cut [] rest s h e a = (s, unfold gets_loop in refl, e, h)
gets-cut (c ∷ line) rest s h e a =
    let x = takes s c (line ++ rest) h e in
    let (t, q, u, v) = gets-cut line rest x.left x.left-IsInput x.left_eq a.1 in
    (t, gets-plain (length line) c s (line ++ rest) a.0 x ∙ ap (put_front c) q, u, v)

some_left : (t : Input) → t.head < t.tail → unread t ≢ []
some_left t p q =
    let x = ap (λ z. z ++ joined t.reads) (sym (slice_split t.buf t.head t.tail p)) ∙ q in cc

ended :
    (s : Input)
    → IsInput s
    → unread s ≡ []
    → (t : Input) × (peekchar s ≡ (0, t)) × (unread t ≡ []) × IsInput t
unfolding peekchar
ended s h e = go (ending s h)
  where
    go : Ending s → (t : Input) × (peekchar s ≡ (0, t)) × (unread t ≡ []) × IsInput t
    go (Ending.at_end t a b d f) = (t, rw a refl, f, d)
    go (Ending.goes_on t a b d f) = absurd (some_left t f (b ∙ e))

-- The loop on the last bytes of the input.
gets-last :
    (n : ℕ) (line : List ℕ) (s : Input)
    → IsInput s
    → unread s ≡ line
    → All IsPlain line
    → length line < n
    → (t : Input) × (gets_loop n (10 ∷ []) true s ≡ (true, line, t)) × (unread t ≡ []) × IsInput t
gets-last zero line s h e a l = absurd (omega arith)
gets-last (suc n) [] s h e a l =
    let (t, q, u, v) = ended s h e in
    (t, unfold gets_loop in ap (gets_round (10 ∷ []) true (gets_loop n (10 ∷ []) true)) q, u, v)
gets-last (suc n) (c ∷ line) s h e a l =
    let x = takes s c line h e in
    let (t, q, u, v) = gets-last n line x.left x.left-IsInput x.left_eq a.1 (omega arith) in
    (t, gets-plain n c s line a.0 x ∙ ap (put_front c) q, u, v)

-- Where a line of `l` is cut for at most `n` bytes: behind the first '\n', after `n` bytes, or at the
-- end of the input.
pub data Cuts (n : ℕ) (l text rest : List ℕ) : Type 0 where
  newline :
      (line : List ℕ)
      → l ≡ line ++ (10 ∷ rest)
      → text ≡ line ++ (10 ∷ [])
      → All IsPlain line
      → length line < n
      → Cuts n l text rest
  full : l ≡ text ++ rest → length text ≡ n → All IsPlain text → Cuts n l text rest
  last : l ≡ text → rest ≡ [] → All IsPlain text → length text < n → Cuts n l text rest

record Got (n : ℕ) (s : Input) (text rest : List ℕ) : Type 0 where
  pub done : Bool
  pub after : Input
  pub loop_eq : gets_loop n (10 ∷ []) true s ≡ (done, text, after)
  pub rest_eq : unread after ≡ rest
  pub after-IsInput : IsInput after

gets-Cuts :
    (n : ℕ) (s : Input) (text rest : List ℕ)
    → IsInput s
    → Cuts n (unread s) text rest
    → Got n s text rest
gets-Cuts n s text rest h (Cuts.newline line e q a l) =
    let (t, g, u, v) = gets-newline n line rest s h e a l in
    record {
      done = true;
      after = t;
      loop_eq = g ∙ ap (λ x. (true, x, t)) (sym q);
      rest_eq = u;
      after-IsInput = v;
    }
gets-Cuts n s text rest h (Cuts.full e q a) =
    let (t, g, u, v) = gets-cut text rest s h e a in
    record {
      done = false;
      after = t;
      loop_eq = ap (λ k. gets_loop k (10 ∷ []) true s) (sym q) ∙ g;
      rest_eq = u;
      after-IsInput = v;
    }
gets-Cuts n s text rest h (Cuts.last e q a l) =
    let (t, g, u, v) = gets-last n text s h e a l in
    record { done = true; after = t; loop_eq = g; rest_eq = u ∙ sym q; after-IsInput = v }

not_thrown :
    (fuel : ℕ) (b : Bool) (cs : List ℕ) (s : Input)
    → gets_end fuel (10 ∷ []) false (b, cs, s) ≡ some (cs, s)
unfolding gets_end
not_thrown fuel true cs s = refl
not_thrown fuel false cs s = refl

-- For a size from 1 to 2 ^ 32 - 1, where `read` returns 0 only at the end of the input and no byte of
-- the line is 0, `getline` returns a line: the bytes that have not been taken up to and with the first
-- '\n', but no more than size - 1 and none behind the end. The bytes behind them are the ones that
-- are left, however the input is split into reads.
pub getline-Cuts :
    (size : ℕ) (s : Input) (text rest : List ℕ)
    → size ≢ 0
    → size < 2 ^ 32
    → IsInput s
    → Cuts (size - 1) (unread s) text rest
    → (t : Input) × (getline size s ≡ some (text, t)) × (unread t ≡ rest) × IsInput t
unfolding getline
getline-Cuts size s text rest z l h c =
    let g = gets-Cuts (size - 1) s text rest h c in
    let n : (size + 2 ^ 32 - 1) % 2 ^ 32 ≡ size - 1 = omega arith in
    (
      g.after,
      ap (λ k. gets_end 0 (10 ∷ []) false (gets_loop k (10 ∷ []) true s)) n
          ∙ ap (gets_end 0 (10 ∷ []) false) g.loop_eq
          ∙ not_thrown 0 g.done text g.after,
      g.rest_eq,
      g.after-IsInput,
    )
