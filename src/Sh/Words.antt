-- ===== src/Sh/Words.antt =====
-- user/src/phase6/sh.c: what `gettoken` and `peek` find in a line.
use tiny_os_qemu.Base.{
  ℕ, zero, suc, ◌+◌, ◌-◌, ◌<◌, ◌≤◌, ◌≡◌, ◌≢◌, refl, Bool, true, false, not, ◌&&◌, ◌||◌, List, Bytes,
  ◌==◌, arith, Bool-cases, inl, inr, ap, sym, ◌∙◌, ==_iff,
}
use mathlib.Core.Path.{subst}
use tiny_os_qemu.Sh.{
  Token, Word, gettoken, peek, skip_white, word_end, whitespace, symbols, is_in, token_at,
  is_single,
}
use tiny_os_qemu.Sh.Parse.{word_of}

-- A character of a word.
abbrev pub is_plain : ℕ → Bool
is_plain c = not (is_in whitespace c || is_in symbols c)

-- A word of the line up to `es`: not empty, without white space, symbols and 0, and not cut short.
pub record IsWord (m : Bytes) (es : ℕ) (w : Word) : Type 0 where
  pub some_char : w.start < w.end
  pub in_line : w.end ≤ es
  pub plain : (i : ℕ) → w.start ≤ i → i < w.end → is_plain (m i) ≡ true
  pub ends : is_plain (m w.end) ≡ false

skip-le : (n : ℕ) (m : Bytes) (s : ℕ) → (s ≤ skip_white n m s) × (skip_white n m s ≤ s + n)
unfolding skip_white
skip-le zero m s = (omega arith, omega arith)
skip-le (suc n) m s = elim (Bool-cases (is_in whitespace (m s))) [
  | inl e ↦ rw (e, skip_white) (let (a, b) = skip-le n m (s + 1) in (omega arith, omega arith))
  | inr e ↦ rw (e, skip_white) (omega arith, omega arith)
]

skip_stop :
    (n : ℕ) (m : Bytes) (s : ℕ)
    → skip_white n m s < s + n
    → is_in whitespace (m (skip_white n m s)) ≡ false
unfolding skip_white
skip_stop zero m s h = absurd (omega arith)
skip_stop (suc n) m s h = elim (Bool-cases (is_in whitespace (m s))) [
  | inl e ↦
      subst (λ x. x < s + suc n → is_in whitespace (m x) ≡ false) (sym (step e))
        (λ k. skip_stop n m (s + 1) (omega arith)) h
  | inr e ↦ subst (λ x. is_in whitespace (m x) ≡ false) (sym (halt e)) e
]
  where
    step : is_in whitespace (m s) ≡ true → skip_white (suc n) m s ≡ skip_white n m (s + 1)
    step e = rw (e, skip_white) refl

    halt : is_in whitespace (m s) ≡ false → skip_white (suc n) m s ≡ s
    halt e = rw (e, skip_white) refl

-- What the loop over a word comes to.
record IsSpan (n : ℕ) (m : Bytes) (s e : ℕ) : Type 0 where
  pub le : s ≤ e
  pub within_line : e ≤ s + n
  pub plain : (i : ℕ) → s ≤ i → i < e → is_plain (m i) ≡ true
  pub stops : e < s + n → is_plain (m e) ≡ false

word_end-IsSpan : (n : ℕ) (m : Bytes) (s : ℕ) → IsSpan n m s (word_end n m s)
unfolding word_end
word_end-IsSpan zero m s = record {
  le = omega arith;
  within_line = omega arith;
  plain = λ i a b. absurd (omega arith);
  stops = λ h. absurd (omega arith);
}
word_end-IsSpan (suc n) m s = elim (Bool-cases (is_in whitespace (m s) || is_in symbols (m s))) [
  | inl e ↦
      rw (e, word_end)
        (record {
          le = omega arith;
          within_line = omega arith;
          plain = λ i a b. absurd (omega arith);
          stops = λ h. ap not e;
        })
  | inr e ↦
      rw (e, word_end)
        (let r = word_end-IsSpan n m (s + 1) in
          record {
            le = omega (arith, r.le);
            within_line = omega (arith, r.within_line);
            plain = λ i a b. elim (Bool-cases (s == i)) [
              | inl q ↦ subst (λ x. is_plain (m x) ≡ true) ((==_iff s i).0 q) (ap not e)
              | inr q ↦ r.plain i (ground arith) b
            ];
            stops = λ h. r.stops (omega arith);
          })
]

abbrev Starts : Bytes → ℕ → ℕ → ℕ × ℕ → Type 0
Starts m es t (kind, end) =
    (t ≤ end)
    × (end ≤ es)
    × (m t ≢ 0 → t < end)
    × (kind ≡ 97 → IsWord m es (record { start = t; end = end }))

-- A character that begins no other token belongs to a word.
plain_start :
    (c : ℕ)
    → is_in whitespace c ≡ false
    → (c == 0) ≡ false
    → is_single c ≡ false
    → (c == 62) ≡ false
    → is_plain c ≡ true
plain_start c w z s g = ground arith

not_plain_zero : is_plain 0 ≡ false
not_plain_zero = refl

inside : (m : Bytes) (es t : ℕ) → m es ≡ 0 → t ≤ es → m t ≢ 0 → t < es
inside m es t z le ne = elim (Bool-cases (t == es)) [
  | inl e ↦ absurd (ne (ap m ((==_iff t es).0 e) ∙ z))
  | inr e ↦ ground arith
]

single_no_word : (c : ℕ) → is_single c ≡ true → c ≢ 97
single_no_word c e q = ground arith

differs : {a b : ℕ} → (a == b) ≡ false → a ≢ b
differs e q = ground arith

equals : {a b : ℕ} → (a == b) ≡ true → a ≡ b
equals {a} {b} e = (==_iff a b).0 e

module _ (m : Bytes) (es t : ℕ) (z : m es ≡ 0) (le : t ≤ es) where
  Starts-word : is_plain (m t) ≡ true → t < es → Starts m es t (97, word_end (es - t) m t)
  Starts-word p lt =
      let r = word_end-IsSpan (es - t) m t in
      let e = word_end (es - t) m t in
      let pos : t < e = elim (Bool-cases (t == e)) [
        | inl q ↦ absurd (
            cross p (subst (λ x. is_plain (m x) ≡ false) (sym (equals q)) (r.stops (ground arith))))
        | inr q ↦ ground (arith, r.le)
      ] in
      (
        r.le,
        omega (arith, r.within_line),
        (λ _. pos),
        λ _. record {
          some_char = pos;
          in_line = omega (arith, r.within_line);
          plain = r.plain;
          ends = elim (Bool-cases (e == es)) [
            | inl q ↦ subst (λ x. is_plain x ≡ false) (sym (ap m (equals q) ∙ z)) not_plain_zero
            | inr q ↦ r.stops (ground (arith, r.within_line))
          ];
        },
      )
    where
      cross : {b : Bool} → b ≡ true → b ≡ false → ⊥
      cross a b = cc

  token_at-Starts : (t < es → is_in whitespace (m t) ≡ false) → Starts m es t (token_at m es t)
  token_at-Starts white = elim (Bool-cases (m t == 0)) [
    | inl e ↦ rw e (omega arith, le, (λ ne. absurd (ne (equals e))), (λ q. absurd (omega arith)))
    | inr e ↦ rw e (
        let lt = inside m es t z le (differs e) in
        elim (Bool-cases (is_single (m t))) [
          | inl s ↦ rw s (
            omega arith,
            omega arith,
            (λ _. omega arith),
            (λ q. absurd (single_no_word (m t) s q)),
          )
          | inr s ↦ rw s (elim (Bool-cases (m t == 62)) [
            | inl g ↦ rw g (elim (Bool-cases (m (t + 1) == 62)) [
              | inl d ↦ rw d (
                omega arith,
                omega (arith, inside m es (t + 1) z (omega arith) (λ q. absurd (ground arith))),
                (λ _. omega arith),
                (λ q. absurd (omega arith)),
              )
              | inr d ↦
                  rw d (omega arith, omega arith, (λ _. omega arith), (λ q. absurd (omega arith)))
            ])
            | inr g ↦ rw g (Starts-word (plain_start (m t) (white lt) e s g) lt)
          ])
        ])
  ]

-- What `gettoken` does to the line.
pub record IsTaken (m : Bytes) (es s : ℕ) (t : Token) : Type 0 where
  pub le : s ≤ t.rest
  pub in_line : t.rest ≤ es
  pub moves : m s ≢ 0 → s < t.rest
  pub is_word : t.kind ≡ 97 → IsWord m es (word_of t)

pub gettoken-IsTaken : (m : Bytes) (es s : ℕ) → m es ≡ 0 → s ≤ es → IsTaken m es s (gettoken m es s)
unfolding gettoken
gettoken-IsTaken m es s z le =
    let t = skip_white (es - s) m s in
    let (lo, hi) = skip-le (es - s) m s in
    let (a, b, c, d) =
      token_at-Starts m es t z (omega arith) (λ h. skip_stop (es - s) m s (omega arith)) in
    let e = (token_at m es t).1 in
    let (lo', hi') = skip-le (es - e) m e in
    record {
      le = omega arith;
      in_line = omega arith;
      moves = λ ne. elim (Bool-cases (s == t)) [
        | inl q ↦ omega (arith, c (λ y. ne (ap m (equals q) ∙ y)), equals q)
        | inr q ↦ ground arith
      ];
      is_word = d;
    }

pub peek-moves :
    (m : Bytes) (es : ℕ) (toks : List ℕ) (s : ℕ)
    → s ≤ es
    → (s ≤ (peek m es toks s).1)
      × ((peek m es toks s).1 ≤ es)
      × ((peek m es toks s).0 ≡ true → m (peek m es toks s).1 ≢ 0)
unfolding peek
peek-moves m es toks s le =
    let (lo, hi) = skip-le (es - s) m s in
    (lo, omega arith, λ e q. nonzero (m (skip_white (es - s) m s)) _ e q)
  where
    nonzero : (c : ℕ) (b : Bool) → (not (c == 0) && b) ≡ true → c ≢ 0
    nonzero c b e q = ground arith
