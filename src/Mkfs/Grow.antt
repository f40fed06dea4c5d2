-- ===== src/Mkfs/Grow.antt =====
-- utils/mkfs.c: a file gets a block more.
use tiny_os_qemu.Base.{
  ℕ, suc, ◌+◌, ◌-◌, ◌*◌, ◌≤◌, ◌<◌, ◌≡◌, ◌≢◌, ◌⊎◌, inl, inr, refl, sym, ap, ◌∙◌, Bool, true, false,
  update, ltb, ◌==◌, ◌&&◌, if◌then◌else◌, paste, arith, Bool-cases, ==_refl, ==_iff,
}
use mathlib.Core.Path.{subst}
use tiny_os_qemu.Fs.State.{Dinode, word, of_word}
use tiny_os_qemu.Mkfs.{Image, taken, set_addr, set_entry}
use tiny_os_qemu.Mkfs.Place.{
  Use, addr, table_entry, lookup, Stands, IsImage, lookup-Stands, Stands-taken, Stands_new,
  word-paste, word-paste_other,
}

-- The next block has been taken for `v`, and nothing else of the files has changed.
pub record Took (own : ℕ → Use) (s : Image) (v : Use) (t : Image) : Type 0 where
  pub image : IsImage (update own s.next_blk v) t
  pub next_eq : t.next_blk ≡ s.next_blk + 1
  pub sizes : (g : ℕ) → (t.inodes g).size ≡ (s.inodes g).size
  pub pages_kept :
      (g j i : ℕ)
      → j < 1036
      → lookup s g j ≢ 0
      → t.blocks (lookup s g j) i ≡ s.blocks (lookup s g j) i
  pub clean : (i : ℕ) → t.blocks s.next_blk i ≡ 0

pub both : (a b c d : ℕ) → ((a == b) && (c == d)) ≡ true → (a ≡ b) × (c ≡ d)
both a b c d e = (ground (arith, ==_iff a b), ground (arith, ==_iff a b, ==_iff c d))

pub addr-set_addr :
    (f k b g j : ℕ) (s : Image)
    → addr (set_addr f k b s) g j ≡ (if (f == g) && (k == j) then b else addr s g j)
addr-set_addr f k b g j s =
    let d : Dinode = record (s.inodes f) { addrs = update (s.inodes f).addrs k b } in
    elim (Bool-cases (f == g)) [
      | inr e ↦
          ap (λ (c : Bool). (if c then d else s.inodes g).addrs j) e
          ∙ sym (ap (λ (c : Bool). if c && (k == j) then b else addr s g j) e)
      | inl e ↦
          ap (λ (c : Bool). (if c then d else s.inodes g).addrs j) e
          ∙ ap (λ x. if k == j then b else addr s x j) ((==_iff f g).0 e)
          ∙ sym (ap (λ (c : Bool). if c && (k == j) then b else addr s g j) e)
    ]

abbrev pub use_at : ℕ → ℕ → Use
use_at f k = if ltb k 12 then Use.page f k else Use.table f

module _ (own : ℕ → Use) (f k : ℕ) (s : Image) (h : IsImage own s) (l : k < 13) (z : addr s f k ≡ 0)
    (m : s.next_blk < 32768) where
  abbrev grown : Image
  grown = set_addr f k s.next_blk (taken s)

  at_or : (g j : ℕ) → addr grown g j ≡ (if (f == g) && (k == j) then s.next_blk else addr s g j)
  at_or g j = addr-set_addr f k s.next_blk g j (taken s)

  there :
      (g j : ℕ) (u : Use)
      → ((f ≡ g) → (k ≡ j) → use_at f k ≡ u)
      → Stands own s u (addr s g j)
      → Stands (update own s.next_blk (use_at f k)) grown u (addr grown g j)
  there g j u q st =
      subst (Stands (update own s.next_blk (use_at f k)) grown u) (sym (at_or g j))
        (go ((f == g) && (k == j)) refl)
    where
      go :
          (b : Bool)
          → ((f == g) && (k == j)) ≡ b
          → Stands
              (update own s.next_blk (use_at f k))
              grown
              u
              (if b then s.next_blk else addr s g j)
      go true e =
          subst (λ x. Stands (update own s.next_blk (use_at f k)) grown x s.next_blk)
            (q (both f g k j e).0 (both f g k j e).1)
            (Stands_new own (use_at f k) s grown refl h.next_ge)
      go false e = Stands-taken own (use_at f k) u s grown (addr s g j) refl st

  use_page : (g j : ℕ) → j < 12 → f ≡ g → k ≡ j → use_at f k ≡ Use.page g j
  use_page g j lt p q =
      let e : ltb k 12 ≡ true = ground arith in rw e (ap (λ x. Use.page x k) p ∙ ap (Use.page g) q)

  is_table_use : (g : ℕ) → f ≡ g → k ≡ 12 → use_at f k ≡ Use.table g
  is_table_use g p q = let e : ltb k 12 ≡ false = ground arith in rw e (ap Use.table p)

  entries_there :
      (g j : ℕ)
      → addr grown g 12 ≢ 0
      → j < 1024
      → Stands
          (update own s.next_blk (use_at f k))
          grown
          (Use.page g (12 + j))
          (table_entry grown (addr grown g 12) j)
  entries_there g j nz lt =
      subst
        (λ x.
          x ≢ 0
          → Stands (update own s.next_blk (use_at f k)) grown (Use.page g (12 + j))
              (table_entry grown x j))
        (sym (at_or g 12)) (go ((f == g) && (k == 12)) refl) nz
    where
      go :
          (b : Bool)
          → ((f == g) && (k == 12)) ≡ b
          → (if b then s.next_blk else addr s g 12) ≢ 0
          → Stands
              (update own s.next_blk (use_at f k))
              grown
              (Use.page g (12 + j))
              (table_entry grown (if b then s.next_blk else addr s g 12) j)
      go true e nz = inl (
          omega (
            arith,
            h.fresh s.next_blk (4 * j) (omega arith),
            h.fresh s.next_blk (4 * j + 1) (omega arith),
            h.fresh s.next_blk (4 * j + 2) (omega arith),
            h.fresh s.next_blk (4 * j + 3) (omega arith),
          ))
      go false e nz =
          Stands-taken own (use_at f k) (Use.page g (12 + j)) s grown
            (table_entry s (addr s g 12) j) refl (h.entries g j nz lt)

  size_there : (g : ℕ) → (grown.inodes g).size ≡ (s.inodes g).size
  size_there g = elim (Bool-cases (f == g)) [
    | inr e ↦
        ap
          (λ (c : Bool).
            (if c
              then (record (s.inodes f) { addrs = update (s.inodes f).addrs k s.next_blk })
              else s.inodes g).size)
          e
    | inl e ↦
        ap
          (λ (c : Bool).
            (if c
              then (record (s.inodes f) { addrs = update (s.inodes f).addrs k s.next_blk })
              else s.inodes g).size)
          e
        ∙ ap (λ x. (s.inodes x).size) ((==_iff f g).0 e)
  ]

  pub Took-addr : Took own s (use_at f k) grown
  Took-addr = record {
    image = record {
      next_ge = omega (arith, h.next_ge);
      next_le = omega arith;
      pages = λ g j lt. there g j (Use.page g j) (use_page g j lt) (h.pages g j lt);
      tables = λ g. there g 12 (Use.table g) (is_table_use g) (h.tables g);
      entries = entries_there;
      fresh = λ b i le. h.fresh b i (omega arith);
    };
    next_eq = refl;
    sizes = size_there;
    pages_kept = λ g j i lt nz. refl;
    clean = λ i. h.fresh s.next_blk i (omega arith);
  }

  -- A file's own address.
  pub lookup-page :
      k < 12
      → (g j : ℕ) → lookup grown g j ≡ (if (f == g) && (k == j) then s.next_blk else lookup s g j)
  lookup-page kl g j = elim (Bool-cases (ltb j 12)) [
    | inl e ↦ rw e (at_or g j)
    | inr e ↦
        let q : ((f == g) && (k == j)) ≡ false = ground arith in
        let r : ((f == g) && (k == 12)) ≡ false = ground arith in
        let x : addr grown g 12 ≡ addr s g 12 =
          at_or g 12 ∙ ap (λ (b : Bool). if b then s.next_blk else addr s g 12) r in
        rw (e, q) (ap (λ a. if a == 0 then 0 else table_entry s a (j - 12)) x)
  ]

  -- A table, which is empty.
  pub lookup-table : k ≡ 12 → (g j : ℕ) → j < 1036 → lookup grown g j ≡ lookup s g j
  lookup-table ke g j lt = elim (Bool-cases (ltb j 12)) [
    | inl e ↦
        let q : ((f == g) && (k == j)) ≡ false = ground arith in
        rw e (at_or g j ∙ ap (λ (b : Bool). if b then s.next_blk else addr s g j) q)
    | inr e ↦ rw e (
        ap (λ a. if a == 0 then 0 else table_entry s a (j - 12)) (at_or g 12)
        ∙ go ((f == g) && (k == 12)) refl)
  ]
    where
      go :
          (b : Bool)
          → ((f == g) && (k == 12)) ≡ b
          → (if (if b then s.next_blk else addr s g 12) == 0
              then 0
              else table_entry s (if b then s.next_blk else addr s g 12) (j - 12))
            ≡ (if addr s g 12 == 0 then 0 else table_entry s (addr s g 12) (j - 12))
      go false e = refl
      go true e =
          let x : (addr s g 12 == 0) ≡ true = ground (
            arith,
            ==_iff (addr s g 12) 0,
            ap (λ y. addr s y 12) (both f g k 12 e).0,
            ap (addr s f) ke,
          ) in
          let y : (s.next_blk == 0) ≡ false = ground (arith, h.next_ge) in
          rw (x, y)
            (omega (
              arith,
              h.fresh s.next_blk (4 * (j - 12)) (omega arith),
              h.fresh s.next_blk (4 * (j - 12) + 1) (omega arith),
              h.fresh s.next_blk (4 * (j - 12) + 2) (omega arith),
              h.fresh s.next_blk (4 * (j - 12) + 3) (omega arith),
            ))

-- An address that is there is one of a block that has been taken.
pub in_use :
    (own : ℕ → Use) (s : Image) (u : Use) (a : ℕ)
    → a ≢ 0
    → Stands own s u a
    → (64 ≤ a) × (a < s.next_blk) × (own a ≡ u)
in_use own s u a nz (inl e) = absurd (nz e)
in_use own s u a nz (inr x) = x

abbrev pub page_of : Use → ℕ × ℕ
page_of (Use.page f k) = (f, k)
page_of (Use.table f) = (0, 0)

abbrev pub table_of : Use → ℕ
table_of (Use.page f k) = 0
table_of (Use.table f) = suc f

module _ (own : ℕ → Use) (f j : ℕ) (s : Image) (h : IsImage own s) (l : j < 1024)
    (nz : addr s f 12 ≢ 0) (z : table_entry s (addr s f 12) j ≡ 0) (m : s.next_blk < 32768) where
  abbrev entered : Image
  entered = set_entry (addr s f 12) j s.next_blk (taken s)

  the_table : (64 ≤ addr s f 12) × (addr s f 12 < s.next_blk) × (own (addr s f 12) ≡ Use.table f)
  the_table = in_use own s (Use.table f) (addr s f 12) nz (h.tables f)

  -- The other blocks are as before.
  block_kept : (b i : ℕ) → b ≢ addr s f 12 → entered.blocks b i ≡ s.blocks b i
  block_kept b i d =
      let e : (addr s f 12 == b) ≡ false = ground (arith, ==_iff (addr s f 12) b) in rw e refl

  page_kept :
      (g k i : ℕ)
      → k < 1036
      → lookup s g k ≢ 0
      → entered.blocks (lookup s g k) i ≡ s.blocks (lookup s g k) i
  page_kept g k i lt n = block_kept (lookup s g k) i (λ e.
      let p = in_use own s (Use.page g k) (lookup s g k) n (lookup-Stands own s g k h lt) in
      cc (p.2, the_table.2, e))

  same_table :
      (i : ℕ)
      → table_entry entered (addr s f 12) i
        ≡ (if (f == f) && (j == i) then s.next_blk else table_entry s (addr s f 12) i)
  same_table i =
      rw (==_refl (addr s f 12), ==_refl f)
        (elim (Bool-cases (j == i)) [
          | inl e ↦ rw e (
              subst
                (λ x.
                  word (paste (s.blocks (addr s f 12)) (4 * j) 4 (of_word s.next_blk)) (4 * x)
                  ≡ s.next_blk)
                ((==_iff j i).0 e)
                (word-paste (s.blocks (addr s f 12)) (4 * j) s.next_blk (omega arith)))
          | inr e ↦ rw e (
              word-paste_other (s.blocks (addr s f 12)) (4 * j) (4 * i) (of_word s.next_blk)
                (apart (ground (arith, ==_iff j i))))
        ])
    where
      apart : {a b : ℕ} → a ≢ b → (4 * a + 4 ≤ 4 * b) ⊎ (4 * b + 4 ≤ 4 * a)
      apart {a} {b} d = elim (Bool-cases (ltb a b)) [
        | inl e ↦ inl (ground arith)
        | inr e ↦ inr (ground arith)
      ]

  table_entry-entered :
      (g i : ℕ)
      → addr s g 12 ≢ 0
      → table_entry entered (addr s g 12) i
        ≡ (if (f == g) && (j == i) then s.next_blk else table_entry s (addr s g 12) i)
  table_entry-entered g i n = elim (Bool-cases (f == g)) [
    | inr e ↦
        let p = in_use own s (Use.table g) (addr s g 12) n (h.tables g) in
        let d : addr s f 12 ≢ addr s g 12 = λ x.
          absurd (ground (arith, ==_iff f g, ap table_of (sym the_table.2 ∙ ap own x ∙ p.2))) in
        by_table (addr s f 12 == addr s g 12) (addr s g 12) i
          (ground (arith, ==_iff (addr s f 12) (addr s g 12)))
        ∙ sym (
            ap (λ (c : Bool). if c && (j == i) then s.next_blk else table_entry s (addr s g 12) i)
              e)
    | inl e ↦
        subst
          (λ x.
            table_entry entered (addr s x 12) i
            ≡ (if (f == x) && (j == i) then s.next_blk else table_entry s (addr s x 12) i))
          ((==_iff f g).0 e) (same_table i)
  ]
    where
      by_table :
          (c : Bool) (t i : ℕ)
          → c ≡ false
          → word
              (if c
                then paste (s.blocks (addr s f 12)) (4 * j) 4 (of_word s.next_blk)
                else s.blocks t)
              (4 * i)
            ≡ table_entry s t i
      by_table true t i e = absurd (cc)
      by_table false t i e = refl

  pub Took-table_entry : Took own s (Use.page f (12 + j)) entered
  Took-table_entry = record {
    image = record {
      next_ge = omega (arith, h.next_ge);
      next_le = omega arith;
      pages = λ g i lt. stay (Use.page g i) (addr s g i) (h.pages g i lt);
      tables = λ g. stay (Use.table g) (addr s g 12) (h.tables g);
      entries = λ g i n lt.
          subst (Stands (update own s.next_blk (Use.page f (12 + j))) entered (Use.page g (12 + i)))
            (sym (table_entry-entered g i n)) (new_entry g i n lt ((f == g) && (j == i)) refl);
      fresh = λ b i le. block_kept b i (omega (arith, the_table.1)) ∙ h.fresh b i (omega arith);
    };
    next_eq = refl;
    sizes = λ g. refl;
    pages_kept = page_kept;
    clean = λ i.
        block_kept s.next_blk i (omega (arith, the_table.1)) ∙ h.fresh s.next_blk i (omega arith);
  }
    where
      stay :
          (u : Use) (a : ℕ)
          → Stands own s u a
          → Stands (update own s.next_blk (Use.page f (12 + j))) entered u a
      stay u a = Stands-taken own (Use.page f (12 + j)) u s entered a refl

      new_entry :
          (g i : ℕ)
          → addr s g 12 ≢ 0
          → i < 1024
          → (b : Bool) → ((f == g) && (j == i)) ≡ b
          → Stands
              (update own s.next_blk (Use.page f (12 + j)))
              entered
              (Use.page g (12 + i))
              (if b then s.next_blk else table_entry s (addr s g 12) i)
      new_entry g i n lt true e =
          subst (λ x. Stands (update own s.next_blk (Use.page f (12 + j))) entered x s.next_blk)
            (ap (λ x. Use.page x (12 + j)) (both f g j i e).0
              ∙ ap (λ x. Use.page g (12 + x)) (both f g j i e).1)
            (Stands_new own (Use.page f (12 + j)) s entered refl h.next_ge)
      new_entry g i n lt false e =
          stay (Use.page g (12 + i)) (table_entry s (addr s g 12) i) (h.entries g i n lt)

  pub lookup-table_entry :
      (g k : ℕ)
      → k < 1036
      → lookup entered g k ≡ (if (f == g) && (12 + j == k) then s.next_blk else lookup s g k)
  lookup-table_entry g k lt = elim (Bool-cases (ltb k 12)) [
    | inl e ↦ let q : ((f == g) && (12 + j == k)) ≡ false = ground arith in rw (e, q) refl
    | inr e ↦ elim (Bool-cases (addr s g 12 == 0)) [
      | inl y ↦
          let q : ((f == g) && (12 + j == k)) ≡ false =
            ground (arith, ==_iff f g, ==_iff (addr s g 12) 0, no_table g) in
          rw (e, y, q) refl
      | inr y ↦
          let q : (j == k - 12) ≡ (12 + j == k) = ground arith in
          rw (e, y)
            (table_entry-entered g (k - 12) (λ x. absurd (ground (arith, ==_iff (addr s g 12) 0)))
              ∙ ap
                  (λ (c : Bool).
                    if (f == g) && c then s.next_blk else table_entry s (addr s g 12) (k - 12))
                  q)
    ]
  ]
    where
      no_table : (g : ℕ) → f ≡ g → addr s g 12 ≢ 0
      no_table g e q = nz (ap (λ x. addr s x 12) e ∙ q)
