-- ===== src/Mkfs/Walk.antt =====
-- utils/mkfs.c: `iwalk`.
use tiny_os_qemu.Base.{
  ℕ, zero, suc, ◌+◌, ◌-◌, ◌≤◌, ◌<◌, ◌≡◌, ◌≢◌, ◌⊎◌, inl, inr, refl, sym, ap, ◌∙◌, Bool, true, false,
  some, update, ltb, leb, ◌==◌, ◌&&◌, if◌then◌else◌, arith, Bool-cases, ==_refl, ==_iff,
}
use mathlib.Core.Path.{subst}
use tiny_os_qemu.Base.Exec.{Exec, ◌>>=◌, bind-eq}
use tiny_os_qemu.Mkfs.{Image, taken, set_addr, set_entry, own_addr, entry_addr, iwalk, bget}
use tiny_os_qemu.Mkfs.Place.{
  Use, addr, table_entry, lookup, Stands, IsImage, lookup-Stands, own_addr_kept, own_addr_new,
  entry_addr_kept, entry_addr_new,
}
use tiny_os_qemu.Mkfs.Grow.{
  addr-set_addr, Took, Took-addr, Took-table_entry, lookup-page, lookup-table, lookup-table_entry,
  in_use, use_at,
}

-- `m` finds the block for block `k` of file `f`, and gives one where there is none. The other blocks
-- of all files, their contents and the files' sizes stay. At most `d` blocks are taken.
pub record Reached (own : ℕ → Use) (s : Image) (f k d : ℕ) (m : Exec Image ℕ) : Type 0 where
  pub a : ℕ
  pub t : Image
  pub uses : ℕ → Use
  pub run : m s ≡ some (a, t)
  pub image : IsImage uses t
  pub at : lookup t f k ≡ a
  pub a_ge : 64 ≤ a
  pub others : (g j : ℕ) → j < 1036 → ((f == g) && (k == j)) ≡ false → lookup t g j ≡ lookup s g j
  pub kept : lookup s f k ≢ 0 → a ≡ lookup s f k
  pub clean : lookup s f k ≡ 0 → (i : ℕ) → t.blocks a i ≡ 0
  pub pages_kept :
      (g j i : ℕ)
      → j < 1036
      → lookup s g j ≢ 0
      → t.blocks (lookup s g j) i ≡ s.blocks (lookup s g j) i
  pub sizes : (g : ℕ) → (t.inodes g).size ≡ (s.inodes g).size
  pub next_lo : s.next_blk ≤ t.next_blk
  pub next_hi : t.next_blk ≤ s.next_blk + d

-- The block is there.
found :
    (own : ℕ → Use) (s : Image) (f k d : ℕ) (m : Exec Image ℕ)
    → IsImage own s
    → k < 1036
    → lookup s f k ≢ 0
    → m s ≡ some (lookup s f k, s)
    → Reached own s f k d m
found own s f k d m h l n e = record {
  a = lookup s f k;
  t = s;
  uses = own;
  run = e;
  image = h;
  at = refl;
  a_ge = (in_use own s (Use.page f k) (lookup s f k) n (lookup-Stands own s f k h l)).0;
  others = λ g j _ _. refl;
  kept = λ _. refl;
  clean = λ z. absurd (n z);
  pages_kept = λ g j i _ _. refl;
  sizes = λ g. refl;
  next_lo = omega arith;
  next_hi = omega arith;
}

-- The next block is taken.
given :
    (own : ℕ → Use) (s : Image) (f k d : ℕ) (m : Exec Image ℕ) (t : Image) (v : Use)
    → Took own s v t
    → 64 ≤ s.next_blk
    → 1 ≤ d
    → ((g j : ℕ)
        → j < 1036
        → lookup t g j ≡ (if (f == g) && (k == j) then s.next_blk else lookup s g j))
    → lookup s f k ≡ 0
    → k < 1036
    → m s ≡ some (s.next_blk, t)
    → Reached own s f k d m
given own s f k d m t v x ge one look z l e = record {
  a = s.next_blk;
  t = t;
  uses = update own s.next_blk v;
  run = e;
  image = x.image;
  at = look f k l ∙ rw (==_refl f, ==_refl k) refl;
  a_ge = ge;
  others = λ g j lt q. look g j lt ∙ ap (λ (c : Bool). if c then s.next_blk else lookup s g j) q;
  kept = λ n. absurd (n z);
  clean = λ _. x.clean;
  pages_kept = x.pages_kept;
  sizes = x.sizes;
  next_lo = omega (arith, x.next_eq);
  next_hi = omega (arith, x.next_eq);
}

pub zero-cases : (n : ℕ) → (n ≡ 0) ⊎ (n ≢ 0)
zero-cases zero = inl refl
zero-cases (suc n) = inr (λ e. absurd (omega arith))

own_addr-Reached :
    (own : ℕ → Use) (s : Image) (f k : ℕ)
    → IsImage own s
    → k < 12
    → s.next_blk < 32768
    → Reached own s f k 1 (own_addr f k)
own_addr-Reached own s f k h l m =
    let q : ltb k 12 ≡ true = ground arith in
    let p : lookup s f k ≡ addr s f k = rw q refl in
    elim (zero-cases (addr s f k)) [
      | inr n ↦
          found own s f k 1 (own_addr f k) h (omega arith) (λ e. n (sym p ∙ e))
            (own_addr_kept f k s n ∙ ap (λ x. some (x, s)) (sym p))
      | inl z ↦
          given own s f k 1 (own_addr f k) (set_addr f k s.next_blk (taken s)) (use_at f k)
            (Took-addr own f k s h (omega arith) z m) h.next_ge (omega arith)
            (λ g j _. lookup-page own f k s h (omega arith) z m l g j) (p ∙ z) (omega arith)
            (own_addr_new f k s z m)
    ]

entry_addr-Reached :
    (own : ℕ → Use) (s : Image) (f j : ℕ)
    → IsImage own s
    → j < 1024
    → addr s f 12 ≢ 0
    → s.next_blk < 32768
    → Reached own s f (12 + j) 1 (entry_addr (addr s f 12) j)
entry_addr-Reached own s f j h l n m =
    let q : ltb (12 + j) 12 ≡ false = ground arith in
    let r : (addr s f 12 == 0) ≡ false = ground (arith, ==_iff (addr s f 12) 0) in
    let p : lookup s f (12 + j) ≡ table_entry s (addr s f 12) j =
      rw (q, r) (ap (table_entry s (addr s f 12)) (omega arith)) in
    elim (zero-cases (table_entry s (addr s f 12) j)) [
      | inr y ↦
          found own s f (12 + j) 1 (entry_addr (addr s f 12) j) h (omega arith) (λ e. y (sym p ∙ e))
            (entry_addr_kept (addr s f 12) j s y ∙ ap (λ x. some (x, s)) (sym p))
      | inl z ↦
          given own s f (12 + j) 1 (entry_addr (addr s f 12) j)
            (set_entry (addr s f 12) j s.next_blk (taken s)) (Use.page f (12 + j))
            (Took-table_entry own f j s h l n z m) h.next_ge (omega arith)
            (λ g k lt. lookup-table_entry own f j s h l n z m g k lt) (p ∙ z) (omega arith)
            (entry_addr_new (addr s f 12) j s z m)
    ]

bget-eq : (b : ℕ) (s : Image) → 32 ≤ b → b < 32768 → bget b s ≡ some (b, s)
bget-eq b s lo hi =
    let p : leb 32 b ≡ true = ground arith in
    let q : ltb b 32768 ≡ true = ground arith in rw (p, q) refl

bget-Reached :
    (own : ℕ → Use) (s : Image) (f k d : ℕ) (m : Exec Image ℕ)
    → k < 1036
    → Reached own s f k d m
    → Reached own s f k d (m >>= λ b. bget b)
bget-Reached own s f k d m l r = record {
  a = r.a;
  t = r.t;
  uses = r.uses;
  run =
      bind-eq m (λ b. bget b) s r.t r.a r.run
      ∙ bget-eq r.a r.t (omega (arith, r.a_ge)) (
          let p = in_use r.uses r.t (Use.page f k) r.a (omega (arith, r.a_ge)) (
            subst (Stands r.uses r.t (Use.page f k)) r.at
              (lookup-Stands r.uses r.t f k r.image l)) in
          omega (arith, p.1, r.image.next_le));
  image = r.image;
  at = r.at;
  a_ge = r.a_ge;
  others = r.others;
  kept = r.kept;
  clean = r.clean;
  pages_kept = r.pages_kept;
  sizes = r.sizes;
  next_lo = r.next_lo;
  next_hi = r.next_hi;
}

weaken :
    {own : ℕ → Use} {s : Image} {f k d : ℕ} {m : Exec Image ℕ} (e : ℕ) (n : Exec Image ℕ)
    → d ≤ e
    → n s ≡ m s
    → Reached own s f k d m
    → Reached own s f k e n
weaken e n le q r = record {
  a = r.a;
  t = r.t;
  uses = r.uses;
  run = q ∙ r.run;
  image = r.image;
  at = r.at;
  a_ge = r.a_ge;
  others = r.others;
  kept = r.kept;
  clean = r.clean;
  pages_kept = r.pages_kept;
  sizes = r.sizes;
  next_lo = r.next_lo;
  next_hi = omega (arith, r.next_hi);
}

-- The same from before a table was taken.
before :
    (own : ℕ → Use) (s u : Image) (v : Use) (f k : ℕ) (m n : Exec Image ℕ)
    → Took own s v u
    → k < 1036
    → ((g j : ℕ) → j < 1036 → lookup u g j ≡ lookup s g j)
    → n s ≡ m u
    → Reached (update own s.next_blk v) u f k 1 m
    → Reached own s f k 2 n
before own s u v f k m n x l look q r = record {
  a = r.a;
  t = r.t;
  uses = r.uses;
  run = q ∙ r.run;
  image = r.image;
  at = r.at;
  a_ge = r.a_ge;
  others = λ g j lt c. r.others g j lt c ∙ look g j lt;
  kept = λ z. r.kept (λ y. z (sym (look f k l) ∙ y)) ∙ look f k l;
  clean = λ z. r.clean (look f k l ∙ z);
  pages_kept = λ g j i lt z.
      subst (λ b. r.t.blocks b i ≡ u.blocks b i) (look g j lt)
        (r.pages_kept g j i lt (λ y. z (sym (look g j lt) ∙ y)))
      ∙ x.pages_kept g j i lt z;
  sizes = λ g. r.sizes g ∙ x.sizes g;
  next_lo = omega (arith, r.next_lo, x.next_eq);
  next_hi = omega (arith, r.next_hi, x.next_eq);
}

-- What `iwalk` does behind its range check, for a block that is not a file's own.
by_table : ℕ → ℕ → Exec Image ℕ
by_table f j = own_addr f 12 >>= λ i. bget i >>= λ t. entry_addr t j >>= λ b. bget b

module _ (own : ℕ → Use) (s : Image) (f j : ℕ) (h : IsImage own s) (l : j < 1024)
    (m : s.next_blk + 2 ≤ 32768) where
  past_table :
      (u : Image) (t : ℕ)
      → own_addr f 12 s ≡ some (t, u)
      → 32 ≤ t
      → t < 32768
      → by_table f j s ≡ (entry_addr t j >>= λ b. bget b) u
  unfolding by_table
  past_table u t e lo hi =
      bind-eq (own_addr f 12) (λ i. bget i >>= λ t. entry_addr t j >>= λ b. bget b) s u t e
      ∙ bind-eq (bget t) (λ t. entry_addr t j >>= λ b. bget b) u u t (bget-eq t u lo hi)

  by_table-Reached : Reached own s f (12 + j) 2 (by_table f j)
  by_table-Reached = elim (zero-cases (addr s f 12)) [
    | inr n ↦
        let p = in_use own s (Use.table f) (addr s f 12) n (h.tables f) in
        weaken 2 (by_table f j) (omega arith)
          (past_table s (addr s f 12) (own_addr_kept f 12 s n) (omega (arith, p.0))
            (omega (arith, p.1, h.next_le)))
          (bget-Reached own s f (12 + j) 1 (entry_addr (addr s f 12) j) (omega arith)
            (entry_addr-Reached own s f j h l n (omega arith)))
    | inl z ↦
        let u : Image = set_addr f 12 s.next_blk (taken s) in
        let x = Took-addr own f 12 s h (omega arith) z (omega arith) in
        let c : addr u f 12 ≡ s.next_blk =
          addr-set_addr f 12 s.next_blk f 12 (taken s) ∙ rw (==_refl f) refl in
        before own s u (use_at f 12) f (12 + j) (entry_addr (addr u f 12) j >>= λ b. bget b)
          (by_table f j) x (omega arith)
          (λ g k lt. lookup-table own f 12 s h (omega arith) z (omega arith) refl g k lt)
          (past_table u s.next_blk (own_addr_new f 12 s z (omega arith)) (omega (arith, h.next_ge))
              (omega arith)
            ∙ ap (λ t. (entry_addr t j >>= λ b. bget b) u) (sym c))
          (bget-Reached (update own s.next_blk (use_at f 12)) u f (12 + j) 1
            (entry_addr (addr u f 12) j) (omega arith)
            (entry_addr-Reached (update own s.next_blk (use_at f 12)) u f j x.image l
              (λ y. absurd (omega (arith, h.next_ge))) (omega arith)))
  ]

-- `iwalk` with two blocks left finds or gives the block for block `k` of a file.
pub iwalk-Reached :
    (own : ℕ → Use) (s : Image) (f k : ℕ)
    → IsImage own s
    → k < 1036
    → s.next_blk + 2 ≤ 32768
    → Reached own s f k 2 (iwalk f k)
unfolding iwalk by_table
iwalk-Reached own s f k h l m = elim (Bool-cases (ltb k 12)) [
  | inl e ↦ weaken 2 (iwalk f k) (omega arith) (rw e refl) (
      bget-Reached own s f k 1 (own_addr f k) l
        (own_addr-Reached own s f k h (ground arith) (omega arith)))
  | inr e ↦
      let c : ltb (k - 12) 1024 ≡ true = ground arith in
      weaken 2 (iwalk f k) (omega arith) (rw (e, c) refl) (
        subst (λ n. Reached own s f n 2 (by_table f (k - 12))) {x = 12 + (k - 12)} {y = k}
          (ground arith) (by_table-Reached own s f (k - 12) h (ground arith) m))
]
