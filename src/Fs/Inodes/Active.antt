-- ===== src/Fs/Inodes/Active.antt =====
-- kernel/src/fs.c, `iget`: the table of active inodes holds each inode once.
use tiny_os_qemu.Base.{
  ℕ, zero, suc, ◌+◌, ◌<◌, ◌≡◌, ◌≢◌, refl, Bool, true, false, none, some, arith, ap, sym, ◌∙◌,
  Bool-cases, Option-cases, inl, inr, ==_refl,
}
use mathlib.Core.Path.{subst}
use native.Mathlib.Decide.{ℕ_discrete}
use tiny_os_qemu.Base.Exec.{Post, Post->>=}
use tiny_os_qemu.Disk.Cache.{blk_num}
use tiny_os_qemu.Disk.Store.{Implements, Blocks}
use tiny_os_qemu.Proc.State.{inc}
use tiny_os_qemu.Fs.State.{Fs, Inode, Dinode, set_inode, set_dinode, set_ref, inode_num}
use tiny_os_qemu.Fs.Blocks.{i2blkno, diread}
use tiny_os_qemu.Fs.Blocks.Inode.{SameDinode, dinode_at, diread-refines}
use tiny_os_qemu.Fs.Inodes.{find_inode, positive, is_active, is_free, activate, iget}

module _ (test : Inode → Bool) where
  find_inode-some :
      (n i m : ℕ) (f : ℕ → Inode)
      → find_inode test n i f ≡ some m
      → (test (f m) ≡ true) × (m < i + n)
  unfolding find_inode
  find_inode-some zero i m f h = cc
  find_inode-some (suc n) i m f h = elim (Bool-cases (test (f i))) [
    | inl e ↦ ground arith
    | inr e ↦ ground (arith, find_inode-some n (suc i) m f)
  ]

  find_inode-none :
      (n i j : ℕ) (f : ℕ → Inode) → find_inode test n i f ≡ none → j < n → test (f (i + j)) ≡ false
  unfolding find_inode
  find_inode-none zero i j f h hj = absurd (omega arith)
  find_inode-none (suc n) i zero f h hj =
      subst (λ x. test (f x) ≡ false) {x = i} {y = i + 0} (omega arith) (ground arith)
  find_inode-none (suc n) i (suc j) f h hj =
      subst (λ x. test (f x) ≡ false) {x = suc i + j} {y = i + suc j} (omega arith)
        (find_inode-none n (suc i) j f (ground arith) (omega arith))

  table-none :
      (j : ℕ) (f : ℕ → Inode)
      → find_inode test inode_num 0 f ≡ none
      → j < inode_num
      → test (f j) ≡ false
  table-none j f h hj =
      subst (λ x. test (f x) ≡ false) {x = 0 + j} {y = j} (omega arith)
        (find_inode-none inode_num 0 j f h hj)

-- No inode is active in two entries.
pub record IsUnique (s : Fs) : Type 0 where
  pub once :
      (i j nr : ℕ)
      → i < inode_num
      → j < inode_num
      → is_active nr (s.inodes i) ≡ true
      → is_active nr (s.inodes j) ≡ true
      → i ≡ j

-- What `iget` did to the entry that it delivers.
pub data Got (b : Blocks) (s : Fs) (nr : ℕ) (x y : Inode) : Type 0 where
  shared :
      is_active nr x ≡ true
      → y.ref ≡ inc x.ref
      → y.dinode ≡ x.dinode
      → y.del ≡ x.del
      → Got b s nr x y
  opened :
      x.ref ≡ 0 → y.ref ≡ 1 → SameDinode y.dinode (dinode_at b s nr) → y.del ≡ 0 → Got b s nr x y

-- `t` differs from `s` in entry `i` only, which now holds inode `nr`.
pub record IsGot (b : Blocks) (s : Fs) (nr i : ℕ) (t : Fs) : Type 0 where
  pub entry_lt : i < inode_num
  pub holds : (t.inodes i).no ≡ nr
  pub others : (j : ℕ) → j ≢ i → t.inodes j ≡ s.inodes j
  pub unique : IsUnique t
  pub got : Got b s nr (s.inodes i) (t.inodes i)
  pub implements : Implements b t.disk

inactive : (n m : ℕ) (x : Inode) → is_active n x ≡ true → is_active m x ≡ true → n ≡ m
inactive n m x h k = ground arith

-- Entry `i` gets inode `nr`, which is active in no other entry.
IsUnique-entry :
    (s t : Fs) (nr i : ℕ)
    → ((j : ℕ) → j ≢ i → t.inodes j ≡ s.inodes j)
    → (t.inodes i).no ≡ nr
    → ((j : ℕ) → j < inode_num → is_active nr (s.inodes j) ≡ true → j ≡ i)
    → IsUnique s
    → IsUnique t
IsUnique-entry s t nr i off at only u = record {
  once = λ a b m ha hb ea eb. elim (ℕ_discrete a i) [
    | yes p ↦ elim (ℕ_discrete b i) [
      | yes q ↦ p ∙ sym q
      | no q ↦ absurd (q (only b hb (ground (arith, off b q, p, at, ap (λ x. t.inodes x) p))))
    ]
    | no p ↦ elim (ℕ_discrete b i) [
      | yes q ↦ absurd (p (only a ha (ground (arith, off a p, q, at, ap (λ x. t.inodes x) q))))
      | no q ↦
          u.once a b m ha hb (subst (λ x. is_active m x ≡ true) (off a p) ea)
            (subst (λ x. is_active m x ≡ true) (off b q) eb)
    ]
  ];
}

inc_ref-IsUnique :
    (s : Fs) (i : ℕ) (r : ℕ)
    → positive (s.inodes i).ref ≡ true
    → IsUnique s
    → IsUnique (set_ref i r s)
inc_ref-IsUnique s i r h u = record {
  once = λ a b m ha hb ea eb.
      u.once a b m ha hb (active_before s i r a m h ea) (active_before s i r b m h eb);
}
  where
    active_before :
        (s : Fs) (i r a m : ℕ)
        → positive (s.inodes i).ref ≡ true
        → is_active m ((set_ref i r s).inodes a) ≡ true
        → is_active m (s.inodes a) ≡ true
    active_before s i r a m h e = ground arith

active_positive :
    (nr : ℕ) (x : Inode) → is_active nr x ≡ true → (positive x.ref ≡ true) × (x.no ≡ nr)
active_positive nr x h = ground arith

shared-IsGot :
    (b : Blocks) (s : Fs) (nr i : ℕ)
    → i < inode_num
    → is_active nr (s.inodes i) ≡ true
    → IsUnique s
    → Implements b s.disk
    → IsGot b s nr i (set_ref i (inc (s.inodes i).ref) s)
shared-IsGot b s nr i hi act u imp =
    let (pos, nos) = active_positive nr (s.inodes i) act in
    record {
      entry_lt = hi;
      holds = ground (arith, nos, ==_refl i);
      others = λ j e. ground arith;
      unique = inc_ref-IsUnique s i (inc (s.inodes i).ref) pos u;
      got =
          subst (Got b s nr (s.inodes i)) (entry s i (inc (s.inodes i).ref))
            (Got.shared act refl refl refl);
      implements = imp;
    }
  where
    entry : (s : Fs) (i r : ℕ) → record (s.inodes i) { ref = r } ≡ (set_ref i r s).inodes i
    entry s i r = ground (arith, ==_refl i)

abbrev claimed : ℕ → ℕ → Fs → Fs
claimed i nr s = set_inode i (record (s.inodes i) { ref = 1; no = nr; del = 0 }) s

abbrev opened_entry : ℕ → Dinode → Inode
opened_entry nr d = record { no = nr; ref = 1; del = 0; dinode = d }

claimed_slot :
    (i nr : ℕ) (d : Dinode) (s t : Fs)
    → t.inodes ≡ (claimed i nr s).inodes
    → (set_dinode i d t).inodes i ≡ opened_entry nr d
claimed_slot i nr d s t e = ground (arith, ==_refl i, ap (λ f. f i) e)

claimed_others :
    (i nr : ℕ) (d : Dinode) (s t : Fs)
    → t.inodes ≡ (claimed i nr s).inodes
    → (j : ℕ) → j ≢ i
    → (set_dinode i d t).inodes j ≡ s.inodes j
claimed_others i nr d s t e j h = ground (arith, ap (λ f. f j) e)

module _ (b : Blocks) (s : Fs) (nr i : ℕ) (hi : i < inode_num) (free : (s.inodes i).ref ≡ 0)
    (idle : (j : ℕ) → j < inode_num → is_active nr (s.inodes j) ≡ false) (u : IsUnique s) where
  opened-IsGot :
      (d : Dinode) (t : Fs)
      → t.inodes ≡ (claimed i nr s).inodes
      → SameDinode d (dinode_at b s nr)
      → Implements b t.disk
      → IsGot b s nr i (set_dinode i d t)
  opened-IsGot d t e same imp =
      let slot = claimed_slot i nr d s t e in
      let off = claimed_others i nr d s t e in
      let at = ap (λ (x : Inode). x.no) slot in
      record {
        entry_lt = hi;
        holds = at;
        others = off;
        unique =
            IsUnique-entry s (set_dinode i d t) nr i off at
              (λ j hj a. absurd (ground (arith, idle j hj))) u;
        got = subst (Got b s nr (s.inodes i)) (sym slot) (Got.opened free refl same refl);
        implements = imp;
      }

  activate-IsGot :
      i2blkno s nr < blk_num → Implements b s.disk → Post (IsGot b s nr) (activate i nr s)
  unfolding activate
  activate-IsGot h imp =
      Post->>=
        (λ d t.
          SameDinode d (dinode_at b s nr)
          × Implements b t.disk
          × (t.sb ≡ s.sb)
          × (t.inodes ≡ (claimed i nr s).inodes))
        (IsGot b s nr) (diread nr) _ (claimed i nr s) (diread-refines b (claimed i nr s) nr imp h)
        (λ d t (same, im, _, e). opened-IsGot d t e same im)

module _ (nr : ℕ) (s : Fs) where
  iget-found :
      (i : ℕ)
      → find_inode (is_active nr) inode_num 0 s.inodes ≡ some i
      → iget nr s ≡ some (i, set_ref i (inc (s.inodes i).ref) s)
  unfolding iget
  iget-found i e = rw (e, iget) refl

  iget-new :
      (i : ℕ)
      → find_inode (is_active nr) inode_num 0 s.inodes ≡ none
      → find_inode is_free inode_num 0 s.inodes ≡ some i
      → iget nr s ≡ activate i nr s
  unfolding iget
  iget-new i e f = rw (e, iget) (rw (f, iget) refl)

free_test : (x : Inode) → is_free x ≡ true → x.ref ≡ 0
free_test x h = ground arith

free_test_not : (x : Inode) → x.ref ≡ 0 → is_free x ≢ false
free_test_not x e h = absurd (ground arith)

-- If no inode is active twice, some entry of the table is free, the drive implements the blocks `b`
-- and inode `nr` lies on it, then `iget` succeeds with an entry that holds inode `nr`: one in which
-- it was active, with another reference, or a free one, filled from the drive with one reference.
-- The other entries stay as they are, and no inode is active twice.
pub iget-IsGot :
    (b : Blocks) (s : Fs) (nr j : ℕ)
    → IsUnique s
    → Implements b s.disk
    → i2blkno s nr < blk_num
    → j < inode_num
    → (s.inodes j).ref ≡ 0
    → Post (IsGot b s nr) (iget nr s)
iget-IsGot b s nr j u imp h hj free =
    elim (Option-cases (find_inode (is_active nr) inode_num 0 s.inodes)) [
      | inr (i, e) ↦
          let (act, lt) = find_inode-some (is_active nr) inode_num 0 i s.inodes e in
          rw (iget-found nr s i e) (shared-IsGot b s nr i (omega arith) act u imp)
      | inl e ↦ elim (Option-cases (find_inode is_free inode_num 0 s.inodes)) [
        | inl f ↦ absurd (free_test_not (s.inodes j) free (table-none is_free j s.inodes f hj))
        | inr (i, f) ↦
            let (fr, lt) = find_inode-some is_free inode_num 0 i s.inodes f in
            rw (iget-new nr s i e f) (
              activate-IsGot b s nr i (omega arith) (free_test (s.inodes i) fr)
                (λ x hx. table-none (is_active nr) x s.inodes e hx) u h imp)
      ]
    ]
