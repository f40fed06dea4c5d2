-- ===== src/Fs/Paths/Elements.antt =====
-- kernel/src/fs.c, `skipelem`: the elements of a path.
use tiny_os_qemu.Base.{
  All, ℕ, ◌≡◌, ◌≢◌, refl, none, some, List, [], ◌∷◌, arith, ap, sym, ◌∙◌, ◌++◌, ◌⊎◌, ◌==◌,
  Bool-cases, inl, inr,
}
use mathlib.Core.Path.{subst}
use tiny_os_qemu.Fs.Paths.{slash, max_name, skip_slashes, span_name, take, cut, skipelem}

abbrev pub NoSlash : List ℕ → Type 0
NoSlash s = All (λ c. c ≢ slash) s

-- No slash stands in front.
abbrev pub Plain : List ℕ → Type 0
Plain [] = Unit {0}
Plain (c ∷ s) = c ≢ slash

abbrev pub Slashes : List ℕ → Type 0
Slashes s = All (λ c. c ≡ slash) s

-- Every slash in front is skipped, and nothing else.
skip_slashes-Plain :
    (s : List ℕ) → (a : List ℕ) × Slashes a × (s ≡ a ++ skip_slashes s) × Plain (skip_slashes s)
unfolding skip_slashes
skip_slashes-Plain [] = ([], tt, refl, tt)
skip_slashes-Plain (c ∷ s) = elim (Bool-cases (c == slash)) [
  | inl e ↦
      let (a, h, q, p) = skip_slashes-Plain s in
      rw e (c ∷ a, ((ground arith), h), ap (λ x. c ∷ x) q, p)
  | inr e ↦ rw e ([], tt, refl, λ q. ground arith)
]

Begins : List ℕ → Type 0
Begins s = (s ≡ []) ⊎ ((t : List ℕ) × (s ≡ slash ∷ t))

span_name-NoSlash :
    (s : List ℕ)
    → NoSlash (span_name s).0 × (s ≡ (span_name s).0 ++ (span_name s).1) × Begins (span_name s).1
unfolding span_name Begins
span_name-NoSlash [] = (tt, refl, inl refl)
span_name-NoSlash (c ∷ s) = elim (Bool-cases (c == slash)) [
  | inl e ↦ rw e (tt, refl, inr (s, ap (λ x. x ∷ s) (ground arith)))
  | inr e ↦
      let (a, b, d) = span_name-NoSlash s in rw e (((λ q. ground arith), a), ap (λ x. c ∷ x) b, d)
]

list_ne : {c : ℕ} {s : List ℕ} → c ∷ s ≢ []
list_ne h = cc

list_head : {c d : ℕ} {s t : List ℕ} → c ∷ s ≡ d ∷ t → c ≡ d
list_head h = cc

ends_at : (t back rest : List ℕ) → Begins t → t ≡ back ++ rest → Plain rest → back ≡ [] → rest ≡ []
unfolding Begins
ends_at t back [] b q p e = refl
ends_at t back (c ∷ r) b q p e =
    let t-eq : t ≡ c ∷ r = q ∙ ap (λ x. x ++ c ∷ r) e in
    elim b [
      | inl n ↦ absurd (list_ne (sym t-eq ∙ n))
      | inr (u, n) ↦ absurd (p (list_head (sym t-eq ∙ n)))
    ]

span_cons :
    (c : ℕ) (s : List ℕ) → c ≢ slash → span_name (c ∷ s) ≡ (c ∷ (span_name s).0, (span_name s).1)
unfolding span_name
span_cons c s h = ground arith

-- `path` is some slashes, the element `elem`, which ends at a slash or with the path, more slashes,
-- and `rest`; `name` is the element, cut to `max_name` bytes.
pub record IsElement (path name rest : List ℕ) : Type 0 where
  pub front : List ℕ
  pub back : List ℕ
  pub elem : List ℕ
  pub splits : path ≡ front ++ (elem ++ (back ++ rest))
  pub front_slashes : Slashes front
  pub back_slashes : Slashes back
  pub not_empty : elem ≢ []
  pub no_slash : NoSlash elem
  pub ends : back ≡ [] → rest ≡ []
  pub rest_plain : Plain rest
  pub name_cut : name ≡ take max_name elem

cut-IsElement :
    (path front : List ℕ) (c : ℕ) (s : List ℕ)
    → Slashes front
    → path ≡ front ++ (c ∷ s)
    → c ≢ slash
    → IsElement path (cut (c ∷ s)).0 (cut (c ∷ s)).1
cut-IsElement path front c s fs q h =
    let (ns, split, begins) = span_name-NoSlash s in
    let (back, bs, bq, plain) = skip_slashes-Plain (span_name s).1 in
    rw (span_cons c s h) record {
      front = front;
      back = back;
      elem = c ∷ (span_name s).0;
      splits = q ∙ ap (λ x. front ++ (c ∷ x)) (split ∙ ap (λ x. (span_name s).0 ++ x) bq);
      front_slashes = fs;
      back_slashes = bs;
      not_empty = list_ne;
      no_slash = (h, ns);
      ends = ends_at (span_name s).1 back (skip_slashes (span_name s).1) begins bq plain;
      rest_plain = plain;
      name_cut = refl;
    }

skipelem-some :
    (path : List ℕ) (c : ℕ) (s : List ℕ)
    → skip_slashes path ≡ c ∷ s
    → skipelem path ≡ some (cut (c ∷ s))
unfolding skipelem
skipelem-some path c s h = rw (h, skipelem) refl

skipelem-none : (path : List ℕ) → skip_slashes path ≡ [] → skipelem path ≡ none
unfolding skipelem
skipelem-none path h = rw (h, skipelem) refl

append-nil : (a : List ℕ) → a ++ [] ≡ a
append-nil [] = refl
append-nil (c ∷ a) = ap (λ x. c ∷ x) (append-nil a)

-- `skipelem` returns NULL for a path of slashes only; for any other path it splits off the first
-- element: `name` is that element, cut to `max_name` bytes, and the path that is left begins behind
-- the slashes that follow the element.
pub skipelem-IsElement :
    (path : List ℕ)
    → ((skipelem path ≡ none) × Slashes path)
      ⊎ ((name rest : List ℕ) × (skipelem path ≡ some (name, rest)) × IsElement path name rest)
skipelem-IsElement path =
    let (a, sl, q, plain) = skip_slashes-Plain path in go (skip_slashes path) refl a sl q plain
  where
    go :
        (t : List ℕ)
        → skip_slashes path ≡ t
        → (a : List ℕ) → Slashes a
        → path ≡ a ++ skip_slashes path
        → Plain (skip_slashes path)
        → ((skipelem path ≡ none) × Slashes path)
          ⊎ ((name rest : List ℕ) × (skipelem path ≡ some (name, rest)) × IsElement path name rest)
    go [] e a sl q p =
        inl (skipelem-none path e, subst Slashes (sym (q ∙ ap (λ x. a ++ x) e ∙ append-nil a)) sl)
    go (c ∷ s) e a sl q p = inr (
      (cut (c ∷ s)).0,
      (cut (c ∷ s)).1,
      skipelem-some path c s e,
      cut-IsElement path a c s sl (q ∙ ap (λ x. a ++ x) e) (subst Plain e p),
    )
