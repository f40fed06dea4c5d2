-- ===== src/Mkfs/Write.antt =====
-- utils/mkfs.c: the bytes of the files, across `iwalk` and the copy in `iappend`.
use tiny_os_qemu.Base.{
  ℕ, ◌+◌, ◌-◌, ◌*◌, ◌/◌, ◌%◌, ◌^◌, ◌≤◌, ◌<◌, ◌≡◌, ◌≢◌, inl, inr, refl, sym, ap, ◌∙◌, Bool, true,
  false, Bytes, ltb, ◌==◌, ◌&&◌, if◌then◌else◌, within, arith, Bool-cases, ==_refl, ==_iff,
}
use mathlib.Core.Path.{subst}
use tiny_os_qemu.Base.Exec.{Exec}
use tiny_os_qemu.Mkfs.{Image, put_part}
use tiny_os_qemu.Mkfs.Place.{Use, addr, table_entry, lookup, Stands, IsImage, lookup-Stands}
use tiny_os_qemu.Mkfs.Grow.{in_use, page_of, both}
use tiny_os_qemu.Mkfs.Walk.{Reached, zero-cases}

-- The byte at `o` of block `k` of file `f`.
abbrev pub byte_at : Image → ℕ → ℕ → ℕ → ℕ
byte_at s f k o = if lookup s f k == 0 then 0 else s.blocks (lookup s f k) o

-- The byte at `i` of file `f`.
abbrev pub byte_of : Image → ℕ → ℕ → ℕ
byte_of s f i = byte_at s f (i / 4096) (i % 4096)

-- How many bytes a file can have.
abbrev pub max_size : ℕ
max_size = 1036 * 4096

-- The same byte in two images.
same_byte :
    (s t : Image) (g j o : ℕ)
    → lookup t g j ≡ lookup s g j
    → (lookup s g j ≢ 0 → t.blocks (lookup s g j) o ≡ s.blocks (lookup s g j) o)
    → byte_at t g j o ≡ byte_at s g j o
same_byte s t g j o e h =
    ap (λ b. if b == 0 then 0 else t.blocks b o) e ∙ elim (zero-cases (lookup s g j)) [
      | inl z ↦
          let q : (lookup s g j == 0) ≡ true = ground (arith, ==_iff (lookup s g j) 0) in rw q refl
      | inr n ↦ ap (λ x. if lookup s g j == 0 then 0 else x) (h n)
    ]

-- A block that was given is empty.
reached_byte :
    {own : ℕ → Use} {s : Image} {f k d : ℕ} {m : Exec Image ℕ} (r : Reached own s f k d m) (o : ℕ)
    → k < 1036
    → byte_at r.t f k o ≡ byte_at s f k o
reached_byte {own} {s} {f} {k} r o l = elim (zero-cases (lookup s f k)) [
  | inr n ↦ same_byte s r.t f k o (r.at ∙ r.kept n) (λ n. r.pages_kept f k o l n)
  | inl z ↦
      let q : (lookup s f k == 0) ≡ true = ground (arith, ==_iff (lookup s f k) 0) in
      ap (λ b. if b == 0 then 0 else r.t.blocks b o) r.at
      ∙ ap (λ x. if r.a == 0 then 0 else x) (r.clean z o)
      ∙ nothing (r.a == 0)
      ∙ rw q refl
]
  where
    nothing : (b : Bool) → ◌≡◌ {A = ℕ} (if b then 0 else 0) 0
    nothing true = refl
    nothing false = refl

pub byte_of-Reached :
    {own : ℕ → Use} {s : Image} {f k d : ℕ} {m : Exec Image ℕ} (r : Reached own s f k d m) (g i : ℕ)
    → i < max_size
    → byte_of r.t g i ≡ byte_of s g i
byte_of-Reached {own} {s} {f} {k} r g i l = elim (Bool-cases ((f == g) && (k == i / 4096))) [
  | inr q ↦
      same_byte s r.t g (i / 4096) (i % 4096) (r.others g (i / 4096) (omega arith) q)
        (r.pages_kept g (i / 4096) (i % 4096) (omega arith))
  | inl q ↦
      let (x, y) = both f g k (i / 4096) q in
      subst (λ v. byte_at r.t v (i / 4096) (i % 4096) ≡ byte_at s v (i / 4096) (i % 4096)) x
        (subst (λ v. byte_at r.t f v (i % 4096) ≡ byte_at s f v (i % 4096)) y
          (reached_byte r (i % 4096) (omega arith)))
]

module _ (own : ℕ → Use) (t : Image) (f k off n p : ℕ) (buf : Bytes) (h : IsImage own t)
    (l : k < 1036) (nz : lookup t f k ≢ 0) (fits : off + n ≤ 4096) where
  abbrev written : Image
  written = put_part f (lookup t f k) off n p buf t

  inode_kept : (g j : ℕ) → addr written g j ≡ addr t g j
  inode_kept g j = elim (Bool-cases (f == g)) [
    | inr e ↦
        ap
          (λ (c : Bool).
            (if c
                then (record (t.inodes f) { size = ((t.inodes f).size + n) % 2 ^ 32 })
                else t.inodes g).addrs
              j)
          e
    | inl e ↦
        ap
          (λ (c : Bool).
            (if c
                then (record (t.inodes f) { size = ((t.inodes f).size + n) % 2 ^ 32 })
                else t.inodes g).addrs
              j)
          e
        ∙ ap (λ x. addr t x j) ((==_iff f g).0 e)
  ]

  the_page : (64 ≤ lookup t f k) × (lookup t f k < t.next_blk) × (own (lookup t f k) ≡ Use.page f k)
  the_page = in_use own t (Use.page f k) (lookup t f k) nz (lookup-Stands own t f k h l)

  block_kept : (b i : ℕ) → b ≢ lookup t f k → written.blocks b i ≡ t.blocks b i
  block_kept b i d =
      let e : (lookup t f k == b) ≡ false = ground (arith, ==_iff (lookup t f k) b) in rw e refl

  table_kept :
      (g i : ℕ) → addr t g 12 ≢ 0 → written.blocks (addr t g 12) i ≡ t.blocks (addr t g 12) i
  table_kept g i n = block_kept (addr t g 12) i (λ e.
      let p = in_use own t (Use.table g) (addr t g 12) n (h.tables g) in cc (p.2, the_page.2, e))

  entry_kept :
      (g i : ℕ)
      → addr t g 12 ≢ 0
      → table_entry written (addr t g 12) i ≡ table_entry t (addr t g 12) i
  entry_kept g i n = ground (
    arith,
    table_kept g (4 * i) n,
    table_kept g (4 * i + 1) n,
    table_kept g (4 * i + 2) n,
    table_kept g (4 * i + 3) n,
  )

  lookup-written : (g j : ℕ) → lookup written g j ≡ lookup t g j
  lookup-written g j = elim (Bool-cases (ltb j 12)) [
    | inl e ↦ rw e (inode_kept g j)
    | inr e ↦ rw e (
        ap (λ a. if a == 0 then 0 else table_entry written a (j - 12)) (inode_kept g 12)
        ∙ elim (Bool-cases (addr t g 12 == 0)) [
          | inl q ↦ rw q refl
          | inr q ↦
              rw q (entry_kept g (j - 12) (λ z. absurd (ground (arith, ==_iff (addr t g 12) 0))))
        ])
  ]

  pub written-IsImage : IsImage own written
  written-IsImage = record {
    next_ge = h.next_ge;
    next_le = h.next_le;
    pages = λ g j lt. subst (Stands own t (Use.page g j)) (sym (inode_kept g j)) (h.pages g j lt);
    tables = λ g. subst (Stands own t (Use.table g)) (sym (inode_kept g 12)) (h.tables g);
    entries = λ g j n lt.
        let m : addr t g 12 ≢ 0 = λ z. n (inode_kept g 12 ∙ z) in
        subst (Stands own t (Use.page g (12 + j)))
          (sym (ap (λ a. table_entry written a j) (inode_kept g 12) ∙ entry_kept g j m))
          (h.entries g j m lt);
    fresh = λ b i le. block_kept b i (omega (arith, the_page.1)) ∙ h.fresh b i le;
  }

  elsewhere :
      (g j : ℕ)
      → j < 1036
      → ((f == g) && (k == j)) ≡ false
      → lookup t g j ≢ 0
      → lookup t g j ≢ lookup t f k
  elsewhere g j lt e n x =
      let q = in_use own t (Use.page g j) (lookup t g j) n (lookup-Stands own t g j h lt) in
      let y : Use.page f k ≡ Use.page g j = sym the_page.2 ∙ ap own (sym x) ∙ q.2 in
      absurd (
        ground
          (arith, ap (λ u. (page_of u).0) y, ap (λ u. (page_of u).1) y, ==_iff f g, ==_iff k j))

  byte_at-written :
      (g j o : ℕ)
      → j < 1036
      → byte_at written g j o ≡ (
          if ((f == g) && (k == j)) && within off n o then buf (p + (o - off)) else byte_at t g j o)
  byte_at-written g j o lt = elim (Bool-cases ((f == g) && (k == j))) [
    | inr e ↦
        same_byte t written g j o (lookup-written g j)
          (λ m. block_kept (lookup t g j) o (elsewhere g j lt e m))
        ∙ sym (
            ap (λ (c : Bool). if c && within off n o then buf (p + (o - off)) else byte_at t g j o)
              e)
    | inl e ↦
        let (x, y) = both f g k j e in
        subst
          (λ v. byte_at written v j o ≡ (
            if ((f == v) && (k == j)) && within off n o
            then buf (p + (o - off))
            else byte_at t v j o))
          x
          (subst
            (λ v. byte_at written f v o ≡ (
              if ((f == f) && (k == v)) && within off n o
              then buf (p + (o - off))
              else byte_at t f v o))
            y (here o))
  ]
    where
      here :
          (o : ℕ)
          → byte_at written f k o ≡ (
              if ((f == f) && (k == k)) && within off n o
              then buf (p + (o - off))
              else byte_at t f k o)
      here o =
          let q : (lookup t f k == 0) ≡ false = ground (arith, nz, ==_iff (lookup t f k) 0) in
          ap (λ b. if b == 0 then 0 else written.blocks b o) (lookup-written f k)
          ∙ rw (q, ==_refl (lookup t f k), ==_refl f, ==_refl k) refl

  pub byte_of-written :
      (g i : ℕ)
      → i < max_size
      → byte_of written g i ≡ (
          if (f == g) && within (4096 * k + off) n i
          then buf (p + (i - (4096 * k + off)))
          else byte_of t g i)
  byte_of-written g i lt = byte_at-written g (i / 4096) (i % 4096) (omega arith) ∙ choose (f == g)
    where
      choose :
          (b : Bool)
          → (if (b && (k == i / 4096)) && within off n (i % 4096)
              then buf (p + (i % 4096 - off))
              else byte_of t g i)
            ≡ (if b && within (4096 * k + off) n i
                then buf (p + (i - (4096 * k + off)))
                else byte_of t g i)
      choose false = refl
      choose true = elim (Bool-cases (within (4096 * k + off) n i)) [
        | inl e ↦
            let c : ((k == i / 4096) && within off n (i % 4096)) ≡ true = ground arith in
            rw (e, c) (ap (λ x. buf (p + x)) (ground arith))
        | inr e ↦
            let c : ((k == i / 4096) && within off n (i % 4096)) ≡ false = ground arith in
            rw (e, c) refl
      ]

  pub size-written :
      (g : ℕ)
      → (written.inodes g).size
        ≡ (if f == g then ((t.inodes f).size + n) % 2 ^ 32 else (t.inodes g).size)
  size-written g = elim (Bool-cases (f == g)) [
    | inr e ↦
        ap
          (λ (c : Bool).
            (if c
              then (record (t.inodes f) { size = ((t.inodes f).size + n) % 2 ^ 32 })
              else t.inodes g).size)
          e
        ∙ rw e refl
    | inl e ↦
        ap
          (λ (c : Bool).
            (if c
              then (record (t.inodes f) { size = ((t.inodes f).size + n) % 2 ^ 32 })
              else t.inodes g).size)
          e
        ∙ rw e refl
  ]
