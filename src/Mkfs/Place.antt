-- ===== src/Mkfs/Place.antt =====
-- utils/mkfs.c: which file a block of the image belongs to.
use tiny_os_qemu.Base.{
  ℕ, ◌+◌, ◌-◌, ◌*◌, ◌^◌, ◌≤◌, ◌<◌, ◌≡◌, ◌≢◌, ◌⊎◌, inl, inr, refl, ap, ◌∙◌, true, false, some, Bytes,
  update, ltb, leb, ◌==◌, if◌then◌else◌, paste, within, arith, Bool-cases, ==_refl, ==_iff,
}
use mathlib.Core.Path.{subst}
use tiny_os_qemu.Base.Exec.{Exec, ◌>>=◌, modify, bind-eq}
use tiny_os_qemu.Fs.State.{word, word_byte, of_word}
use tiny_os_qemu.Mkfs.{Image, taken, balloc, set_addr, set_entry, own_addr, entry_addr}

-- What a block is used for: block `k` of a file, or a file's table of addresses.
pub data Use : Type 0 where
  page : ℕ → ℕ → Use
  table : ℕ → Use

abbrev pub addr : Image → ℕ → ℕ → ℕ
addr s f k = (s.inodes f).addrs k

abbrev pub table_entry : Image → ℕ → ℕ → ℕ
table_entry s t j = word (s.blocks t) (4 * j)

-- The block that stands for block `k` of file `f`, or 0.
abbrev pub lookup : Image → ℕ → ℕ → ℕ
lookup s f k =
    if ltb k 12
    then addr s f k
    else if addr s f 12 == 0
    then 0
    else table_entry s (addr s f 12) (k - 12)

-- An address is 0, or one of a block that has been taken for this.
abbrev pub Stands : (ℕ → Use) → Image → Use → ℕ → Type 0
Stands own s u a = (a ≡ 0) ⊎ ((64 ≤ a) × (a < s.next_blk) × (own a ≡ u))

pub record IsImage (own : ℕ → Use) (s : Image) : Type 0 where
  pub next_ge : 64 ≤ s.next_blk
  pub next_le : s.next_blk ≤ 32768
  pub pages : (f k : ℕ) → k < 12 → Stands own s (Use.page f k) (addr s f k)
  pub tables : (f : ℕ) → Stands own s (Use.table f) (addr s f 12)
  pub entries :
      (f j : ℕ)
      → addr s f 12 ≢ 0
      → j < 1024
      → Stands own s (Use.page f (12 + j)) (table_entry s (addr s f 12) j)
  pub fresh : (b i : ℕ) → s.next_blk ≤ b → s.blocks b i ≡ 0

-- Every block of a file stands for that block only.
pub lookup-Stands :
    (own : ℕ → Use) (s : Image) (f k : ℕ)
    → IsImage own s
    → k < 1036
    → Stands own s (Use.page f k) (lookup s f k)
lookup-Stands own s f k h l = elim (Bool-cases (ltb k 12)) [
  | inl e ↦ rw e (h.pages f k (ground arith))
  | inr e ↦ rw e (elim (Bool-cases (addr s f 12 == 0)) [
    | inl q ↦ rw q (inl refl)
    | inr q ↦ rw q (
        subst (λ n. Stands own s (Use.page f n) (table_entry s (addr s f 12) (k - 12)))
          {x = 12 + (k - 12)} {y = k} (ground arith)
          (h.entries f (k - 12) (λ z. absurd (ground (arith, ==_iff (addr s f 12) 0)))
            (ground arith)))
  ])
]

-- Addresses that were there stay, when the next block is taken for `v`.
pub Stands-taken :
    (own : ℕ → Use) (v u : Use) (s t : Image) (a : ℕ)
    → t.next_blk ≡ s.next_blk + 1
    → Stands own s u a
    → Stands (update own s.next_blk v) t u a
Stands-taken own v u s t a n (inl e) = inl e
Stands-taken own v u s t a n (inr (lo, hi, e)) =
    let x : (s.next_blk == a) ≡ false = ground arith in inr (lo, omega arith, rw x e)

pub Stands_new :
    (own : ℕ → Use) (v : Use) (s t : Image)
    → t.next_blk ≡ s.next_blk + 1
    → 64 ≤ s.next_blk
    → Stands (update own s.next_blk v) t v s.next_blk
Stands_new own v s t n h = inr (h, omega arith, rw (==_refl s.next_blk) refl)

bytes_word :
    (w : ℕ)
    → w < 2 ^ 32
    → word_byte w 0 + 256 * word_byte w 1 + 65536 * word_byte w 2 + 16777216 * word_byte w 3 ≡ w
bytes_word w h = omega arith

paste_at : (b : Bytes) (o r : ℕ) (v : Bytes) → r < 4 → paste b o 4 v (o + r) ≡ v r
paste_at b o r v h = let e : within o 4 (o + r) ≡ true = ground arith in rw e (ap v (omega arith))

pub word-paste : (b : Bytes) (o w : ℕ) → w < 2 ^ 32 → word (paste b o 4 (of_word w)) o ≡ w
word-paste b o w h = ground (
  arith,
  subst (λ x. paste b o 4 (of_word w) x ≡ of_word w 0) {x = o + 0} {y = o} (omega arith)
      (paste_at b o 0 (of_word w) (omega arith)),
  paste_at b o 1 (of_word w) (omega arith),
  paste_at b o 2 (of_word w) (omega arith),
  paste_at b o 3 (of_word w) (omega arith),
  bytes_word w h,
)

pub word-paste_other :
    (b : Bytes) (o p : ℕ) (v : Bytes)
    → (o + 4 ≤ p) ⊎ (p + 4 ≤ o)
    → word (paste b o 4 v) p ≡ word b p
word-paste_other b o p v h = ground arith

after_balloc :
    {A : Type 0} (f : ℕ → Image → Image) (g : Exec Image A) (s : Image)
    → s.next_blk < 32768
    → ((balloc >>= λ b. modify (f b)) >>= λ _. g) s ≡ g (f s.next_blk (taken s))
unfolding balloc
after_balloc f g s l =
    let m : leb 32768 s.next_blk ≡ false = ground arith in
    bind-eq (balloc >>= λ b. modify (f b)) (λ _. g) s (f s.next_blk (taken s)) tt
      (bind-eq balloc (λ b. modify (f b)) s (taken s) s.next_blk (rw m refl))

pub own_addr_kept : (f k : ℕ) (s : Image) → addr s f k ≢ 0 → own_addr f k s ≡ some (addr s f k, s)
unfolding own_addr
own_addr_kept f k s h =
    let e : (addr s f k == 0) ≡ false = ground (arith, h, ==_iff (addr s f k) 0) in rw e refl

pub own_addr_new :
    (f k : ℕ) (s : Image)
    → addr s f k ≡ 0
    → s.next_blk < 32768
    → own_addr f k s ≡ some (s.next_blk, set_addr f k s.next_blk (taken s))
unfolding own_addr balloc
own_addr_new f k s h l =
    let e : (addr s f k == 0) ≡ true = ground (arith, ==_iff (addr s f k) 0) in
    rw e (after_balloc (set_addr f k) _ s l ∙ rw (==_refl f, ==_refl k) refl)

pub entry_addr_kept :
    (t j : ℕ) (s : Image) → table_entry s t j ≢ 0 → entry_addr t j s ≡ some (table_entry s t j, s)
unfolding entry_addr
entry_addr_kept t j s h =
    let e : (table_entry s t j == 0) ≡ false = ground (arith, h, ==_iff (table_entry s t j) 0) in
    rw e refl

pub entry_addr_new :
    (t j : ℕ) (s : Image)
    → table_entry s t j ≡ 0
    → s.next_blk < 32768
    → entry_addr t j s ≡ some (s.next_blk, set_entry t j s.next_blk (taken s))
unfolding entry_addr balloc
entry_addr_new t j s h l =
    let e : (table_entry s t j == 0) ≡ true = ground (arith, ==_iff (table_entry s t j) 0) in
    rw e (
      after_balloc (set_entry t j) _ s l
      ∙ ap (λ x. some (x, set_entry t j s.next_blk (taken s)))
          (rw (==_refl t) (word-paste (s.blocks t) (4 * j) s.next_blk (omega arith))))
