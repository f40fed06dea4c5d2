-- ===== src/Input/Reads.antt =====
-- user/ulib/scanf.c: the buffer with the reads to come is a plain list of bytes.
use tiny_os_qemu.Base.{
  ℕ, zero, suc, ◌+◌, ◌-◌, ◌≡◌, ◌≢◌, ◌≤◌, ◌<◌, refl, true, false, List, [], ◌∷◌, ◌++◌, Bytes, ◌==◌,
  length, arith, Bool-cases, inl, inr, ap, sym, ◌∙◌, ==_iff,
}
use mathlib.Core.Path.{subst}
use tiny_os_qemu.Input.{Input, filled, refill, is_end, getchar, peekchar}

-- The `n` bytes of `b` from `o` on.
unfoldable pub slice : Bytes → ℕ → ℕ → List ℕ
slice b o zero = []
slice b o (suc n) = b o ∷ slice b (o + 1) n

unfoldable pub joined : List (List ℕ) → List ℕ
joined [] = []
joined (c ∷ cs) = c ++ joined cs

-- The bytes that have not been taken: those in the buffer, then those of the reads to come.
abbrev pub unread : Input → List ℕ
unread s = slice s.buf s.head (s.tail - s.head) ++ joined s.reads

-- Only behind the end of the input does `read` return 0.
abbrev pub AllFull : List (List ℕ) → Type 0
AllFull [] = Unit {0}
AllFull (c ∷ cs) = (c ≢ []) × AllFull cs

pub record IsInput (s : Input) : Type 0 where
  pub head_le : s.head ≤ s.tail
  pub full : AllFull s.reads

pub filled_suc :
    (c : ℕ) (cs : List ℕ) (b : Bytes) (o : ℕ)
    → filled (c ∷ cs) b (o + 1) ≡ filled cs (λ j. b (j + 1)) o
filled_suc c cs b o =
    let x : (o + 1 == 0) ≡ false = ground arith in
    rw x (ap (filled cs (λ j. b (j + 1))) (omega arith))

pub slice_shift :
    (c : ℕ) (cs : List ℕ) (b : Bytes) (n o : ℕ)
    → slice (filled (c ∷ cs) b) (o + 1) n ≡ slice (filled cs (λ j. b (j + 1))) o n
unfolding slice
slice_shift c cs b zero o = refl
slice_shift c cs b (suc n) o =
    ap (λ x. x ∷ slice (filled (c ∷ cs) b) (o + 1 + 1) n) (filled_suc c cs b o)
    ∙ ap (λ x. filled cs (λ j. b (j + 1)) o ∷ x) (slice_shift c cs b n (o + 1))

pub slice-filled : (c : List ℕ) (b : Bytes) → slice (filled c b) 0 (length c) ≡ c
unfolding slice
slice-filled [] b = refl
slice-filled (c ∷ cs) b =
    ap (λ x. c ∷ x) (slice_shift c cs b (length cs) 0 ∙ slice-filled cs (λ j. b (j + 1)))

-- How `is_end` comes out.
pub data Ending (s : Input) : Type 0 where
  at_end : (t : Input) → is_end s ≡ (true, t) → unread s ≡ [] → IsInput t → unread t ≡ [] → Ending s
  goes_on :
      (t : Input)
      → is_end s ≡ (false, t)
      → unread t ≡ unread s
      → IsInput t
      → t.head < t.tail
      → Ending s

pub slice_nil : (b : Bytes) (o n : ℕ) → n ≡ 0 → slice b o n ≡ []
unfolding slice
slice_nil b o n e = subst (λ m. slice b o m ≡ []) (sym e) refl

pub emptied : (b : Bytes) (h t : ℕ) → (h == t) ≡ true → slice b h (t - h) ≡ []
emptied b h t e = slice_nil b h (t - h) (ground (arith, ==_iff h t))

pub refilled :
    (b : Bytes) (h t : ℕ) (r : List (List ℕ))
    → (h == t) ≡ true
    → AllFull r
    → Ending (record { buf = b; head = h; tail = t; reads = r })
unfolding is_end refill joined
refilled b h t [] e f =
    Ending.at_end (record { buf = b; head = 0; tail = 0; reads = [] }) (rw e refl)
      (rw (emptied b h t e) refl) (record { head_le = omega arith; full = tt })
      (ap (λ z. z ++ joined []) (slice_nil b 0 (0 - 0) (omega arith)))
refilled b h t ([] ∷ cs) e f = absurd (f.0 refl)
refilled b h t ((x ∷ xs) ∷ cs) e f =
    let u : Input = record {
      buf = filled (x ∷ xs) b;
      head = 0;
      tail = length (x ∷ xs);
      reads = cs;
    } in
    let q : length (x ∷ xs) - 0 ≡ length (x ∷ xs) = omega arith in
    Ending.goes_on u (rw e (ap (λ z. (z, u)) (ground arith)))
      (rw (emptied b h t e)
        (ap (λ z. z ++ joined cs) (ap (slice (filled (x ∷ xs) b) 0) q ∙ slice-filled (x ∷ xs) b)))
      (record { head_le = omega arith; full = f.1 }) (omega arith)

pub ending : (s : Input) → IsInput s → Ending s
unfolding is_end
ending s h = elim (Bool-cases (s.head == s.tail)) [
  | inr e ↦
      Ending.goes_on s (rw (e, is_end) refl) refl h
        (ground (arith, h.head_le, ==_iff s.head s.tail))
  | inl e ↦ refilled s.buf s.head s.tail s.reads e h.full
]

-- `peekchar` and `getchar` where a byte is left.
pub record Takes (s : Input) (c : ℕ) (l : List ℕ) : Type 0 where
  pub looked : Input
  pub peek_eq : peekchar s ≡ (c, looked)
  pub kept : unread looked ≡ c ∷ l
  pub looked-IsInput : IsInput looked
  pub left : Input
  pub get_eq : getchar looked ≡ (c, left)
  pub left_eq : unread left ≡ l
  pub left-IsInput : IsInput left

pub slice_split :
    (b : Bytes) (h t : ℕ) → h < t → slice b h (t - h) ≡ b h ∷ slice b (h + 1) (t - (h + 1))
unfolding slice
slice_split b h t l =
    subst (λ n. slice b h n ≡ b h ∷ slice b (h + 1) (t - (h + 1))) {x = suc (t - (h + 1))}
      {y = t - h} (omega arith) refl

abbrev pub head_of : List ℕ → ℕ
head_of [] = 0
head_of (c ∷ l) = c

abbrev pub tail_of : List ℕ → List ℕ
tail_of [] = []
tail_of (c ∷ l) = l

pub takes : (s : Input) (c : ℕ) (l : List ℕ) → IsInput s → unread s ≡ c ∷ l → Takes s c l
unfolding peekchar getchar is_end
takes s c l h e = go (ending s h)
  where
    from :
        (t : Input)
        → t.head < t.tail
        → unread t ≡ t.buf t.head ∷ unread (record t { head = t.head + 1 })
    from t p = ap (λ x. x ++ joined t.reads) (slice_split t.buf t.head t.tail p)

    open_again : (t : Input) → t.head < t.tail → is_end t ≡ (false, t)
    open_again t p = let x : (t.head == t.tail) ≡ false = ground arith in rw (x, is_end) refl

    go : Ending s → Takes s c l
    go (Ending.at_end t a b d f) = absurd (cc)
    go (Ending.goes_on t a b d f) =
        let x : t.buf t.head ∷ unread (record t { head = t.head + 1 }) ≡ c ∷ l =
          sym (from t f) ∙ b ∙ e in
        record {
          looked = t;
          peek_eq = rw a (ap (λ z. (z, t)) (ap head_of x));
          kept = b ∙ e;
          looked-IsInput = d;
          left = record t { head = t.head + 1 };
          get_eq =
              rw (open_again t f) (ap (λ z. (z, record t { head = t.head + 1 })) (ap head_of x));
          left_eq = ap tail_of x;
          left-IsInput = record { head_le = omega arith; full = d.full };
        }
