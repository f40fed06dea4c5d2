-- ===== src/Mkfs/Files.antt =====
-- utils/mkfs.c: `add_file` puts a file into the root directory.
use tiny_os_qemu.Base.{
  ℕ, zero, suc, ◌+◌, ◌-◌, ◌*◌, ◌/◌, ◌%◌, ◌≤◌, ◌<◌, ◌≡◌, ◌≢◌, ◌⊎◌, inl, inr, refl, sym, ap, ◌∙◌,
  Bool, true, false, some, List, length, Bytes, ltb, leb, ◌==◌, ◌&&◌, if◌then◌else◌, within, arith,
  Bool-cases, ==_refl, ==_iff, min,
}
use mathlib.Core.Path.{subst}
use tiny_os_qemu.Base.Exec.{Exec, bind-eq, ◌>>◌}
use tiny_os_qemu.Fs.State.{Dinode, word}
use tiny_os_qemu.Fs.Paths.{put_dirent}
use tiny_os_qemu.Mkfs.{
  Image, iappend, ialloc, set_inode, append_dirent, copy_file, add_file, inode_num,
}
use tiny_os_qemu.Mkfs.Place.{Use, IsImage, Stands}
use tiny_os_qemu.Mkfs.Write.{byte_of, max_size}
use tiny_os_qemu.Mkfs.Append.{
  Appended, Appended-then, Appends, rounds, nothing_more, iappend-Appends,
}

-- The bytes of a buffer that starts `p` bytes further on.
Appended-shift :
    {s t : Image} {f a n p d : ℕ} {buf : Bytes}
    → Appended s f a n 0 d (λ i. buf (p + i)) t
    → Appended s f a n p d buf t
Appended-shift {s} {t} {f} {a} {n} {p} {d} {buf} x = record {
  next_hi = x.next_hi;
  uses = x.uses;
  image = x.image;
  bytes_eq = λ g i lt.
      x.bytes_eq g i lt
      ∙ ap (λ (k : ℕ). if (f == g) && within a n i then buf (p + k) else byte_of s g i)
          {x = 0 + (i - a)} {y = i - a} (omega arith);
  size_eq = x.size_eq;
  others_eq = x.others_eq;
}

copy_then :
    (s u : Image) (f p n m d e : ℕ) (buf : Bytes) (first rest : Exec Image (Unit {0}))
    → first s ≡ some (tt, u)
    → Appended s f p n p d buf u
    → Appends u f (p + n) m (p + n) e buf rest
    → Appends s f p (n + m) p (d + e) buf (first >> rest)
copy_then s u f p n m d e buf first rest q x (v, r, y) =
    (v, bind-eq first (λ _. rest) s u tt q ∙ r, Appended-then s u v f p n m p d e buf x y)

piece :
    (own : ℕ → Use) (s : Image) (f p w : ℕ) (buf : Bytes)
    → IsImage own s
    → (s.inodes f).size ≡ p
    → p % 4096 ≡ 0
    → w ≤ 4096
    → p + w ≤ max_size
    → s.next_blk + 2 * rounds 0 w ≤ 32768
    → Appends s f p w p (2 * rounds 0 w) buf (iappend f (λ i. buf (p + i)) w)
piece own s f p w buf h sz al le top room =
    let (u, q, x) = iappend-Appends own s f w (λ i. buf (p + i)) h (omega arith) (omega arith) in
    (
      u,
      q,
      Appended-shift (
          subst (λ e. Appended s f p w 0 e (λ i. buf (p + i)) u)
            {x = 2 * rounds ((s.inodes f).size % 4096) w} {y = 2 * rounds 0 w} (omega arith)
            (subst
              (λ a.
                Appended s f a w 0 (2 * rounds ((s.inodes f).size % 4096) w) (λ i. buf (p + i)) u)
              sz x)),
    )

-- `add_file` copies the file in pieces of 4096 bytes, the last of which may be shorter.
copy_file-Appends :
    (n : ℕ) (own : ℕ → Use) (s : Image) (f p left : ℕ) (buf : Bytes)
    → IsImage own s
    → left ≤ n
    → (s.inodes f).size ≡ p
    → (left ≡ 0) ⊎ (p % 4096 ≡ 0)
    → p + left ≤ max_size
    → s.next_blk + 2 * rounds 0 left ≤ 32768
    → Appends s f p left p (2 * rounds 0 left) buf (copy_file n f buf p left)
unfolding copy_file
copy_file-Appends n own s f p zero buf h le sz al top room =
    (s, refl, nothing_more own s f p p (2 * rounds 0 0) buf h sz)
copy_file-Appends zero own s f p (suc left) buf h le sz al top room = absurd (omega arith)
copy_file-Appends (suc n) own s f p (suc left) buf h le sz (inl al) top room = absurd (omega arith)
copy_file-Appends (suc n) own s f p (suc left) buf h le sz (inr al) top room =
    let w : ℕ = min (suc left) 4096 in
    let m : ℕ = suc left - w in
    let (u, q, x) = piece own s f p w buf h sz al (omega arith) (omega arith) (omega arith) in
    subst
      (λ e.
        Appends s f p (suc left) p e buf
          (iappend f (λ i. buf (p + i)) w >> copy_file n f buf (p + w) m))
      {x = 2 * rounds 0 w + 2 * rounds 0 m} {y = 2 * rounds 0 (suc left)} (omega arith)
      (subst
        (λ v.
          Appends s f p v p (2 * rounds 0 w + 2 * rounds 0 m) buf
            (iappend f (λ i. buf (p + i)) w >> copy_file n f buf (p + w) m))
        {x = w + m} {y = suc left} (omega arith)
        (copy_then s u f p w m (2 * rounds 0 w) (2 * rounds 0 m) buf
          (iappend f (λ i. buf (p + i)) w) (copy_file n f buf (p + w) m) q x
          (copy_file-Appends n x.uses u f (p + w) m buf x.image (omega arith) x.size_eq
            (whole (suc left) p al) (omega arith) (omega (arith, x.next_hi)))))
  where
    whole :
        (left p : ℕ) → p % 4096 ≡ 0 → (left - min left 4096 ≡ 0) ⊎ ((p + min left 4096) % 4096 ≡ 0)
    whole left p al = elim (Bool-cases (ltb left 4096)) [
      | inl e ↦ inl (ground arith)
      | inr e ↦ inr (ground arith)
    ]

-- The image behind `ialloc(type)`.
abbrev pub made : ℕ → Image → Image
made type s =
    record (set_inode s.next_inode (record (s.inodes s.next_inode) { type_of = type }) s) {
      next_inode = s.next_inode + 1;
    }

made-inodes :
    {A : Type 0} (v : Dinode → A) (type : ℕ) (s : Image) (g : ℕ)
    → ((d : Dinode) → v (record d { type_of = type }) ≡ v d)
    → v ((made type s).inodes g) ≡ v (s.inodes g)
made-inodes v type s g h = elim (Bool-cases (s.next_inode == g)) [
  | inr e ↦
      ap
        (λ (c : Bool).
          v (if c then (record (s.inodes s.next_inode) { type_of = type }) else s.inodes g))
        e
  | inl e ↦
      ap
        (λ (c : Bool).
          v (if c then (record (s.inodes s.next_inode) { type_of = type }) else s.inodes g))
        e
      ∙ h (s.inodes s.next_inode)
      ∙ ap (λ x. v (s.inodes x)) ((==_iff s.next_inode g).0 e)
]

made-addrs : (type : ℕ) (s : Image) (g : ℕ) → ((made type s).inodes g).addrs ≡ (s.inodes g).addrs
made-addrs type s g = made-inodes (λ d. d.addrs) type s g (λ d. refl)

pub made-size : (type : ℕ) (s : Image) (g : ℕ) → ((made type s).inodes g).size ≡ (s.inodes g).size
made-size type s g = made-inodes (λ d. d.size) type s g (λ d. refl)

pub byte_of-made : (type : ℕ) (s : Image) (g i : ℕ) → byte_of (made type s) g i ≡ byte_of s g i
byte_of-made type s g i =
    ap
      (λ (a : ℕ → ℕ).
        let b : ℕ =
          if ltb (i / 4096) 12
          then a (i / 4096)
          else if a 12 == 0
          then 0
          else word (s.blocks (a 12)) (4 * (i / 4096 - 12)) in
        if b == 0 then 0 else s.blocks b (i % 4096))
      (made-addrs type s g)

pub made-IsImage :
    (own : ℕ → Use) (type : ℕ) (s : Image) → IsImage own s → IsImage own (made type s)
made-IsImage own type s h = record {
  next_ge = h.next_ge;
  next_le = h.next_le;
  pages = λ g j lt.
      subst (λ (a : ℕ → ℕ). Stands own s (Use.page g j) (a j)) (sym (made-addrs type s g))
        (h.pages g j lt);
  tables = λ g.
      subst (λ (a : ℕ → ℕ). Stands own s (Use.table g) (a 12)) (sym (made-addrs type s g))
        (h.tables g);
  entries = λ g j.
      subst
        (λ (a : ℕ → ℕ).
          a 12 ≢ 0 → j < 1024 → Stands own s (Use.page g (12 + j)) (word (s.blocks (a 12)) (4 * j)))
        (sym (made-addrs type s g)) (h.entries g j);
  fresh = h.fresh;
}

-- `t` is `s` with one file more, `f`, and an entry for it in the root directory.
pub record Added (s : Image) (junk : Bytes) (name : List ℕ) (content : Bytes) (size f : ℕ)
    (t : Image) : Type 0 where
  pub uses : ℕ → Use
  pub image : IsImage uses t
  pub size_eq : (t.inodes f).size ≡ size
  pub content_eq : (i : ℕ) → i < size → byte_of t f i ≡ content i
  pub root_size : (t.inodes s.root).size ≡ (s.inodes s.root).size + 32
  pub entry_eq :
      (i : ℕ) → i < 32 → byte_of t s.root ((s.inodes s.root).size + i) ≡ put_dirent f name junk i
  pub others_eq :
      (g i : ℕ)
      → i < max_size
      → g ≢ f
      → (g ≢ s.root) ⊎ (i < (s.inodes s.root).size)
      → byte_of t g i ≡ byte_of s g i
  pub other_sizes : (g : ℕ) → g ≢ f → g ≢ s.root → (t.inodes g).size ≡ (s.inodes g).size

-- A byte inside of what was appended, and one outside.
pub Appended-byte :
    {s t : Image} {f a n p d : ℕ} {buf : Bytes}
    → Appended s f a n p d buf t
    → (i : ℕ) → i < n
    → a + i < max_size
    → byte_of t f (a + i) ≡ buf (p + i)
Appended-byte {s} {t} {f} {a} {n} {p} {d} {buf} x i lt top =
    let c : within a n (a + i) ≡ true = ground arith in
    x.bytes_eq f (a + i) top ∙ rw (==_refl f, c) (ap (λ k. buf (p + k)) (omega arith))

pub other_byte :
    {s t : Image} {f a n p d : ℕ} {buf : Bytes}
    → Appended s f a n p d buf t
    → (g i : ℕ) → i < max_size
    → (g ≢ f) ⊎ (i < a)
    → byte_of t g i ≡ byte_of s g i
other_byte {s} {t} {f} {a} {n} {p} {d} {buf} x g i top h =
    let c : ((f == g) && within a n i) ≡ false = ground (arith, ==_iff f g) in
    x.bytes_eq g i top ∙ rw c refl

added :
    (s u t : Image) (junk : Bytes) (name : List ℕ) (content : Bytes) (size old f d e : ℕ)
    → s.root ≢ f
    → (s.inodes s.root).size ≡ old
    → old + 32 ≤ max_size
    → size ≤ max_size
    → f ≡ s.next_inode
    → Appended (made 1 s) s.root old 32 0 d (put_dirent f name junk) u
    → Appended u f 0 size 0 e content t
    → Added s junk name content size f t
added s u t junk name content size old f d e nf so top lim fe x y = record {
  uses = y.uses;
  image = y.image;
  size_eq = omega (arith, y.size_eq);
  content_eq = λ i lt.
      subst (λ k. byte_of t f k ≡ content k) {x = 0 + i} {y = i} (omega arith)
        (Appended-byte y i lt (omega arith));
  root_size = y.others_eq s.root nf ∙ x.size_eq ∙ ap (λ a. a + 32) (sym so);
  entry_eq = λ i lt.
      ap (λ a. byte_of t s.root (a + i)) so
      ∙ other_byte y s.root (old + i) (omega arith) (inl nf)
      ∙ Appended-byte x i lt (omega arith)
      ∙ ap (put_dirent f name junk) {x = 0 + i} {y = i} (omega arith);
  others_eq = λ g i lt d h.
      other_byte y g i lt (inl d)
      ∙ other_byte x g i lt (subst (λ a. (g ≢ s.root) ⊎ (i < a)) so h)
      ∙ byte_of-made 1 s g i;
  other_sizes = λ g a b. y.others_eq g a ∙ x.others_eq g b ∙ made-size 1 s g;
}

pub ialloc-made :
    (type : ℕ) (s : Image)
    → s.next_inode < inode_num
    → ialloc type s ≡ some (s.next_inode, made type s)
unfolding ialloc
ialloc-made type s h = let e : leb inode_num s.next_inode ≡ false = ground arith in rw e refl

pub append_dirent-eq :
    (junk : Bytes) (f : ℕ) (name : List ℕ) (s : Image)
    → length name < 28
    → append_dirent junk f name s ≡ iappend s.root (put_dirent f name junk) 32 s
unfolding append_dirent
append_dirent-eq junk f name s h = let e : ltb (length name) 28 ≡ true = ground arith in rw e refl

-- In an image of this kind, with an inode left that has no bytes yet, and where a name of at most 27
-- bytes, the file and the root directory with one entry more fit, `add_file` completes. The new file
-- is the next inode and has exactly the bytes of the file; the root directory has the entry with its
-- inode and its name behind its old bytes; every other byte and size of a file stays, and the image is
-- again of this kind.
pub add_file-Added :
    (own : ℕ → Use) (s : Image) (junk : Bytes) (name : List ℕ) (content : Bytes) (size : ℕ)
    → IsImage own s
    → s.next_inode < inode_num
    → s.root < s.next_inode
    → (s.inodes s.next_inode).size ≡ 0
    → length name < 28
    → (s.inodes s.root).size + 32 ≤ max_size
    → size ≤ max_size
    → s.next_blk + 2 * rounds ((s.inodes s.root).size % 4096) 32 + 2 * rounds 0 size ≤ 32768
    → (t : Image) × (add_file junk name content size s ≡ some (tt, t))
      × Added s junk name content size s.next_inode t
unfolding add_file
add_file-Added own s junk name content size h ni rn z nl top lim room =
    let f : ℕ = s.next_inode in
    let old : ℕ = (s.inodes s.root).size in
    let (u, p, x) =
      subst
        (λ a.
          Appends (made 1 s) s.root a 32 0 (2 * rounds (a % 4096) 32) (put_dirent f name junk)
            (iappend s.root (put_dirent f name junk) 32))
        (made-size 1 s s.root)
        (iappend-Appends own (made 1 s) s.root 32 (put_dirent f name junk) (made-IsImage own 1 s h)
          (omega (arith, made-size 1 s s.root))
          (subst (λ a. s.next_blk + 2 * rounds (a % 4096) 32 ≤ 32768) (sym (made-size 1 s s.root))
            (omega arith))) in
    let (t, q, y) =
      copy_file-Appends size x.uses u f 0 size content x.image (omega arith)
        (x.others_eq f (λ e. absurd (omega arith)) ∙ made-size 1 s f ∙ z) (inr refl) (omega arith)
        (omega (arith, x.next_hi)) in
    (
      t,
      bind-eq (ialloc 1) (λ f. append_dirent junk f name >> copy_file size f content 0 size) s
            (made 1 s) f (ialloc-made 1 s ni)
          ∙ bind-eq (append_dirent junk f name) (λ _. copy_file size f content 0 size) (made 1 s) u
              tt (append_dirent-eq junk f name (made 1 s) nl ∙ p)
          ∙ q,
      added s u t junk name content size old f (2 * rounds (old % 4096) 32) (2 * rounds 0 size)
          (λ e. absurd (omega arith)) refl top lim refl x y,
    )
