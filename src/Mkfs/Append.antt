-- ===== src/Mkfs/Append.antt =====
-- utils/mkfs.c: `iappend` appends bytes to a file.
use tiny_os_qemu.Base.{
  ℕ, zero, suc, ◌+◌, ◌-◌, ◌*◌, ◌/◌, ◌%◌, ◌≤◌, ◌<◌, ◌≡◌, ◌≢◌, inl, inr, refl, sym, ap, ◌∙◌, Bool,
  true, false, some, Bytes, ◌==◌, ◌&&◌, if◌then◌else◌, within, arith, Bool-cases, ==_refl, ==_iff,
  min,
}
use mathlib.Core.Path.{subst}
use tiny_os_qemu.Base.Exec.{Exec, bind-eq, modify, ◌>>=◌, ◌>>◌}
use tiny_os_qemu.Mkfs.{Image, put_part, append_from, iappend, iwalk}
use tiny_os_qemu.Mkfs.Place.{Use, lookup, IsImage}
use tiny_os_qemu.Mkfs.Walk.{Reached, iwalk-Reached, zero-cases}
use tiny_os_qemu.Mkfs.Write.{
  byte_of, max_size, byte_of-Reached, written-IsImage, byte_of-written, size-written,
}

-- `t` is `s` with the `size` bytes of `buf` from `p` on behind the `start` bytes of file `f`, in at most
-- `d` blocks more.
pub record Appended (s : Image) (f start size p d : ℕ) (buf : Bytes) (t : Image) : Type 0 where
  pub next_hi : t.next_blk ≤ s.next_blk + d
  pub uses : ℕ → Use
  pub image : IsImage uses t
  pub bytes_eq :
      (g i : ℕ)
      → i < max_size
      → byte_of t g i
        ≡ (if (f == g) && within start size i then buf (p + (i - start)) else byte_of s g i)
  pub size_eq : (t.inodes f).size ≡ start + size
  pub others_eq : (g : ℕ) → g ≢ f → (t.inodes g).size ≡ (s.inodes g).size

-- How many rounds the loop makes.
abbrev pub rounds : ℕ → ℕ → ℕ
rounds offset size = (offset + size + 4095) / 4096

abbrev pub Appends : Image → ℕ → ℕ → ℕ → ℕ → ℕ → Bytes → Exec Image (Unit {0}) → Type 0
Appends s f start size p d buf m =
    (t : Image) × (m s ≡ some (tt, t)) × Appended s f start size p d buf t

-- Two pieces one behind the other.
pub Appended-then :
    (s u t : Image) (f a n m p d e : ℕ) (buf : Bytes)
    → Appended s f a n p d buf u
    → Appended u f (a + n) m (p + n) e buf t
    → Appended s f a (n + m) p (d + e) buf t
Appended-then s u t f a n m p d e buf x y = record {
  next_hi = omega (arith, x.next_hi, y.next_hi);
  uses = y.uses;
  image = y.image;
  bytes_eq = λ g i lt.
      y.bytes_eq g i lt
      ∙ ap (λ b. if (f == g) && within (a + n) m i then buf (p + n + (i - (a + n))) else b)
          (x.bytes_eq g i lt)
      ∙ choose (f == g) (byte_of s g i) i;
  size_eq = omega (arith, y.size_eq);
  others_eq = λ g d. y.others_eq g d ∙ x.others_eq g d;
}
  where
    choose :
        (b : Bool) (z i : ℕ)
        → (if b && within (a + n) m i
            then buf (p + n + (i - (a + n)))
            else if b && within a n i
            then buf (p + (i - a))
            else z)
          ≡ (if b && within a (n + m) i then buf (p + (i - a)) else z)
    choose false z i = refl
    choose true z i = elim (Bool-cases (within (a + n) m i)) [
      | inl e ↦
          let c : within a (n + m) i ≡ true = ground arith in rw (e, c) (ap buf (ground arith))
      | inr e ↦ let c : within a (n + m) i ≡ within a n i = ground arith in rw (e, c) refl
    ]

-- A round of the loop.
round_appends :
    (own : ℕ → Use) (s : Image) (f p off k n : ℕ) (buf : Bytes)
    → (r : Reached own s f k 2 (iwalk f k)) → k < 1036
    → off + n ≤ 4096
    → (s.inodes f).size ≡ 4096 * k + off
    → Appended s f (4096 * k + off) n p 2 buf (put_part f (lookup r.t f k) off n p buf r.t)
round_appends own s f p off k n buf r kl fit sz =
    let nz : lookup r.t f k ≢ 0 = λ z. absurd (omega (arith, r.at, r.a_ge)) in
    record {
      next_hi = r.next_hi;
      uses = r.uses;
      image = written-IsImage r.uses r.t f k off n p buf r.image kl nz fit;
      bytes_eq = λ g i lt.
          byte_of-written r.uses r.t f k off n p buf r.image kl nz fit g i lt
          ∙ ap
              (λ b.
                if (f == g) && within (4096 * k + off) n i
                then buf (p + (i - (4096 * k + off)))
                else b)
              (byte_of-Reached r g i lt);
      size_eq =
          size-written r.uses r.t f k off n p buf r.image kl nz fit f
          ∙ rw (==_refl f) (omega (arith, r.sizes f));
      others_eq = λ g d.
          let e : (f == g) ≡ false = ground (arith, ==_iff f g) in
          size-written r.uses r.t f k off n p buf r.image kl nz fit g ∙ rw e (r.sizes g);
    }

pub nothing_more :
    (own : ℕ → Use) (s : Image) (f a p d : ℕ) (buf : Bytes)
    → IsImage own s
    → (s.inodes f).size ≡ a
    → Appended s f a 0 p d buf s
nothing_more own s f a p d buf h e = record {
  next_hi = omega arith;
  uses = own;
  image = h;
  bytes_eq = λ g i lt. sym (choose (f == g) (byte_of s g i) i);
  size_eq = omega arith;
  others_eq = λ g d. refl;
}
  where
    choose : (b : Bool) (z i : ℕ) → (if b && within a 0 i then buf (p + (i - a)) else z) ≡ z
    choose false z i = refl
    choose true z i = let c : within a 0 i ≡ false = ground arith in rw c refl

-- A round, and then `rest`.
abbrev round_and : ℕ → ℕ → ℕ → ℕ → ℕ → Bytes → Exec Image (Unit {0}) → Exec Image (Unit {0})
round_and f k off w p buf rest = iwalk f k >>= λ b. modify (put_part f b off w p buf) >> rest

round_then :
    (s : Image) (f k off w p m e : ℕ) (buf : Bytes) (t : Image) (b : ℕ)
    (rest : Exec Image (Unit {0}))
    → iwalk f k s ≡ some (b, t)
    → Appended s f (4096 * k + off) w p 2 buf (put_part f b off w p buf t)
    → Appends (put_part f b off w p buf t) f (4096 * k + off + w) m (p + w) e buf rest
    → Appends s f (4096 * k + off) (w + m) p (2 + e) buf (round_and f k off w p buf rest)
round_then s f k off w p m e buf t b rest q0 x (v, q, y) = (
  v,
  bind-eq (iwalk f k) (λ b. modify (put_part f b off w p buf) >> rest) s t b q0 ∙ q,
  Appended-then s (put_part f b off w p buf t) v f (4096 * k + off) w m p 2 e buf x y,
)

append_from-Appends :
    (n : ℕ) (own : ℕ → Use) (s : Image) (f p size off k : ℕ) (buf : Bytes)
    → IsImage own s
    → size ≤ n
    → off < 4096
    → (s.inodes f).size ≡ 4096 * k + off
    → 4096 * k + off + size ≤ max_size
    → s.next_blk + 2 * rounds off size ≤ 32768
    → Appends s f
        (4096 * k + off)
        size
        p
        (2 * rounds off size)
        buf
        (append_from n f buf p size off k)
unfolding append_from
append_from-Appends n own s f p zero off k buf h le o sz top room =
    (s, refl, nothing_more own s f (4096 * k + off) p (2 * rounds off 0) buf h (omega arith))
append_from-Appends zero own s f p (suc size) off k buf h le o sz top room = absurd (omega arith)
append_from-Appends (suc n) own s f p (suc size) off k buf h le o sz top room =
    let w = min (suc size) (4096 - off) in
    let r = iwalk-Reached own s f k h (omega arith) (omega arith) in
    let u = put_part f (lookup r.t f k) off w p buf r.t in
    let x = round_appends own s f p off k w buf r (omega arith) (omega arith) sz in
    let m : ℕ = suc size - w in
    subst
      (λ e.
        Appends s f (4096 * k + off) (suc size) p e buf
          (round_and f k off w p buf (append_from n f buf (p + w) m 0 (k + 1))))
      {x = 2 + 2 * rounds 0 m} {y = 2 * rounds off (suc size)} (omega arith)
      (subst
        (λ v.
          Appends s f (4096 * k + off) v p (2 + 2 * rounds 0 m) buf
            (round_and f k off w p buf (append_from n f buf (p + w) m 0 (k + 1))))
        {x = w + m} {y = suc size} (omega arith)
        (round_then s f k off w p m (2 * rounds 0 m) buf r.t (lookup r.t f k)
          (append_from n f buf (p + w) m 0 (k + 1)) (r.run ∙ ap (λ b. some (b, r.t)) (sym r.at)) x
          (elim (zero-cases m) [
            | inl z ↦
                subst
                  (λ v.
                    Appends u f (4096 * k + off + w) v (p + w) (2 * rounds 0 v) buf
                      (append_from n f buf (p + w) v 0 (k + 1)))
                  (sym z)
                  (
                    u,
                    refl,
                    nothing_more x.uses u f (4096 * k + off + w) (p + w) (2 * rounds 0 0) buf
                        x.image x.size_eq,
                  )
            | inr nz ↦
                subst
                  (λ v.
                    Appends u f v m (p + w) (2 * rounds 0 m) buf
                      (append_from n f buf (p + w) m 0 (k + 1)))
                  {x = 4096 * (k + 1) + 0} {y = 4096 * k + off + w} (omega arith)
                  (append_from-Appends n x.uses u f (p + w) m 0 (k + 1) buf x.image (omega arith)
                    (omega arith) (omega (arith, x.size_eq)) (omega arith)
                    (omega (arith, r.next_hi)))
          ])))

-- In an image in which every address of a file is one of a taken block that stands for no other, and
-- the blocks not yet taken are empty: where the file with the new bytes is not longer than a file can
-- be and two blocks are left for each round of the loop, `iappend` of file `f` completes. The file is
-- then longer by `size`, with the bytes of `buf` behind its old ones; those stay, and so does every
-- byte and the size of every other file; and the image is again of this kind.
pub iappend-Appends :
    (own : ℕ → Use) (s : Image) (f size : ℕ) (buf : Bytes)
    → IsImage own s
    → (s.inodes f).size + size ≤ max_size
    → s.next_blk + 2 * rounds ((s.inodes f).size % 4096) size ≤ 32768
    → Appends s f
        (s.inodes f).size
        size
        0
        (2 * rounds ((s.inodes f).size % 4096) size)
        buf
        (iappend f buf size)
unfolding iappend
iappend-Appends own s f size buf h top room =
    subst
      (λ a.
        Appends s f a size 0 (2 * rounds ((s.inodes f).size % 4096) size) buf (iappend f buf size))
      {x = 4096 * ((s.inodes f).size / 4096) + (s.inodes f).size % 4096} {y = (s.inodes f).size}
      (omega arith)
      (append_from-Appends size own s f 0 size ((s.inodes f).size % 4096) ((s.inodes f).size / 4096)
        buf h (omega arith) (omega arith) (omega arith) (omega arith) room)
