-- ===== src/Mkfs/Layout.antt =====
-- utils/mkfs.c: `init_disk` makes the empty image.
use tiny_os_qemu.Base.{
  ℕ, ◌+◌, ◌*◌, ◌%◌, ◌≤◌, ◌<◌, ◌≡◌, ◌≢◌, inl, inr, refl, sym, ap, ◌∙◌, Option, none, some, List, [],
  ◌∷◌, Bytes, arith,
}
use mathlib.Core.Path.{subst}
use tiny_os_qemu.Base.Exec.{bind-eq, ◌>>◌, modify}
use tiny_os_qemu.Fs.State.{type_dir}
use tiny_os_qemu.Fs.Paths.{put_dirent}
use tiny_os_qemu.Mkfs.{
  Image, iappend, append_from, iwalk, own_addr, balloc, ialloc, append_dirent, init_disk,
  blank_image, set_layout,
}
use tiny_os_qemu.Mkfs.Place.{Use, IsImage}
use tiny_os_qemu.Mkfs.Write.{byte_of}
use tiny_os_qemu.Mkfs.Append.{Appended, rounds, iappend-Appends}
use tiny_os_qemu.Mkfs.Files.{
  made, made-size, made-IsImage, ialloc-made, append_dirent-eq, Appended-byte, other_byte,
}

-- The image with the inode of the root directory, before its entries.
abbrev rooted : Image
rooted =
    let s : Image = made type_dir (set_layout blank_image) in
    record s { sb = record s.sb { root = 1 }; root = 1 }

blank-IsImage : IsImage (λ f. Use.table f) (set_layout blank_image)
blank-IsImage = record {
  next_ge = omega arith;
  next_le = omega arith;
  pages = λ f k lt. inl refl;
  tables = λ f. inl refl;
  entries = λ f j n lt. absurd (n refl);
  fresh = λ b i le. refl;
}

rooted-IsImage : IsImage (λ f. Use.table f) rooted
rooted-IsImage =
    let h = made-IsImage (λ f. Use.table f) type_dir (set_layout blank_image) blank-IsImage in
    record {
      next_ge = h.next_ge;
      next_le = h.next_le;
      pages = h.pages;
      tables = h.tables;
      entries = h.entries;
      fresh = h.fresh;
    }

-- An image with an empty root directory.
pub record IsLaid (junk : Bytes) (t : Image) : Type 0 where
  pub uses : ℕ → Use
  pub image : IsImage uses t
  pub root_size : (t.inodes 1).size ≡ 64
  pub next_hi : t.next_blk ≤ 68
  pub dot : (i : ℕ) → i < 32 → byte_of t 1 i ≡ put_dirent 1 (46 ∷ []) junk i
  pub dot_dot :
      (i : ℕ)
      → i < 32
      → byte_of t 1 (32 + i) ≡ put_dirent 1 (46 ∷ 46 ∷ []) (put_dirent 1 (46 ∷ []) junk) i
  pub other_sizes : (g : ℕ) → g ≢ 1 → (t.inodes g).size ≡ 0

laid :
    (junk : Bytes) (u t : Image) (d e : ℕ)
    → d ≤ 2
    → e ≤ 2
    → Appended rooted 1 0 32 0 d (put_dirent 1 (46 ∷ []) junk) u
    → Appended u 1 32 32 0 e (put_dirent 1 (46 ∷ 46 ∷ []) (put_dirent 1 (46 ∷ []) junk)) t
    → IsLaid junk t
laid junk u t d e d2 e2 x y = record {
  uses = y.uses;
  image = y.image;
  root_size = y.size_eq;
  next_hi = omega (arith, x.next_hi, y.next_hi, d2, e2);
  dot = λ i lt.
      other_byte y 1 i (omega arith) (inr lt)
      ∙ subst (λ k. byte_of u 1 k ≡ put_dirent 1 (46 ∷ []) junk k) {x = 0 + i} {y = i} (omega arith)
          (Appended-byte x i lt (omega arith));
  dot_dot = λ i lt.
      Appended-byte y i lt (omega arith)
      ∙ ap (put_dirent 1 (46 ∷ 46 ∷ []) (put_dirent 1 (46 ∷ []) junk)) {x = 0 + i} {y = i}
          (omega arith);
  other_sizes =
      λ g n. y.others_eq g n ∙ x.others_eq g n ∙ made-size type_dir (set_layout blank_image) g;
}

-- What an outcome says of the root directory and the next inode.
abbrev roots : Option (Unit {0} × Image) → ℕ × ℕ
roots none = (0, 0)
roots (some (_, s)) = (s.root, s.next_inode)

roots-append :
    (junk : Bytes) (name : List ℕ) → roots (iappend 1 (put_dirent 1 name junk) 32 rooted) ≡ (1, 2)
unfolding iappend append_from iwalk own_addr balloc
roots-append junk name = refl

roots-init_disk : (junk : Bytes) → roots (init_disk junk blank_image) ≡ (1, 2)
unfolding init_disk append_dirent ialloc iappend append_from iwalk own_addr balloc
roots-init_disk junk = refl

two_dirents :
    (junk : Bytes) (u t : Image)
    → append_dirent junk 1 (46 ∷ []) rooted ≡ some (tt, u)
    → append_dirent (put_dirent 1 (46 ∷ []) junk) 1 (46 ∷ 46 ∷ []) u ≡ some (tt, t)
    → init_disk junk blank_image ≡ some (tt, t)
unfolding init_disk
two_dirents junk u t p q =
    bind-eq (ialloc type_dir)
      (λ r.
        modify (λ s. record s { sb = record s.sb { root = r }; root = r })
        >> append_dirent junk r (46 ∷ [])
        >> append_dirent (put_dirent r (46 ∷ []) junk) r (46 ∷ 46 ∷ []))
      (set_layout blank_image) (made type_dir (set_layout blank_image)) 1
      (ialloc-made type_dir (set_layout blank_image) (omega arith))
    ∙ bind-eq (append_dirent junk 1 (46 ∷ []))
        (λ _. append_dirent (put_dirent 1 (46 ∷ []) junk) 1 (46 ∷ 46 ∷ [])) rooted u tt p
    ∙ q

-- `init_disk` of an empty file completes, with an image in which every address of a file is one of a
-- taken block that stands for no other. The root directory is inode 1; it has the entries "." and
-- "..", both for itself, behind each other; every other inode has no bytes, inode 2 is the next, and
-- at most four data blocks are taken.
pub init_disk-IsLaid :
    (junk : Bytes)
    → (t : Image) × (init_disk junk blank_image ≡ some (tt, t))
      × (t.root ≡ 1)
      × (t.next_inode ≡ 2)
      × IsLaid junk t
init_disk-IsLaid junk =
    let (u, p, x) =
      iappend-Appends (λ f. Use.table f) rooted 1 32 (put_dirent 1 (46 ∷ []) junk) rooted-IsImage
        (omega arith) (omega arith) in
    let ur : u.root ≡ 1 =
      ap (λ z. (roots z).0) (sym p) ∙ ap (λ z. z.0) (roots-append junk (46 ∷ [])) in
    let (t, q, y) =
      iappend-Appends x.uses u 1 32 (put_dirent 1 (46 ∷ 46 ∷ []) (put_dirent 1 (46 ∷ []) junk))
        x.image (omega (arith, x.size_eq)) (ground (arith, x.size_eq, x.next_hi)) in
    let run : init_disk junk blank_image ≡ some (tt, t) =
      two_dirents junk u t (append_dirent-eq junk 1 (46 ∷ []) rooted (omega arith) ∙ p) (
        append_dirent-eq (put_dirent 1 (46 ∷ []) junk) 1 (46 ∷ 46 ∷ []) u (omega arith)
        ∙ ap (λ r. iappend r (put_dirent 1 (46 ∷ 46 ∷ []) (put_dirent 1 (46 ∷ []) junk)) 32 u) ur
        ∙ q) in
    let e : roots (some (tt, t)) ≡ (1, 2) = ap roots (sym run) ∙ roots-init_disk junk in
    (
      t,
      run,
      ap (λ z. z.0) e,
      ap (λ z. z.1) e,
      laid junk u t 2 (2 * rounds ((u.inodes 1).size % 4096) 32) (omega arith)
          (omega (arith, x.size_eq)) x
          (subst
            (λ a.
              Appended u 1 a 32 0 (2 * rounds ((u.inodes 1).size % 4096) 32)
                (put_dirent 1 (46 ∷ 46 ∷ []) (put_dirent 1 (46 ∷ []) junk)) t)
            x.size_eq y),
    )
