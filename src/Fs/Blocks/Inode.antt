-- ===== src/Fs/Blocks/Inode.antt =====
-- kernel/src/fs.c, `diread` and `diwrite`: the inode blocks are an array of inodes.
use tiny_os_qemu.Base.{
  ℕ, ◌+◌, ◌*◌, ◌/◌, ◌%◌, ◌^◌, ◌<◌, ◌≡◌, ◌≢◌, refl, Option, none, some, Bytes, arith, ap, sym, ◌∙◌,
  ==_refl,
}
use tiny_os_qemu.Base.Exec.{Post}
use tiny_os_qemu.Disk.{Disk, bread, bwrite}
use tiny_os_qemu.Disk.Cache.{blk_num}
use tiny_os_qemu.Disk.Store.{Implements, Blocks, write_block, bread-refines, bwrite-refines}
use tiny_os_qemu.Fs.State.{
  Fs, Dinode, word, word_byte, decode_dinode, encode_dinode, dinode_word, fetch, flush, dinode_size,
  iperblk,
}
use tiny_os_qemu.Fs.Blocks.{i2blkno, i2blkoff, diread, diwrite}

-- Equal in every word that the disk holds.
pub record SameDinode (d e : Dinode) : Type 0 where
  pub type_eq : d.type_of ≡ e.type_of
  pub device_eq : d.device ≡ e.device
  pub size_eq : d.size ≡ e.size
  pub addrs_eq : (k : ℕ) → k < 13 → d.addrs k ≡ e.addrs k

-- Every field is a uint32_t.
pub record IsDinode (d : Dinode) : Type 0 where
  pub words : (k : ℕ) → k < 16 → dinode_word d k < 2 ^ 32

bytes_word :
    (w : ℕ)
    → w < 2 ^ 32
    → word_byte w 0 + 256 * word_byte w 1 + 65536 * word_byte w 2 + 16777216 * word_byte w 3 ≡ w
bytes_word w h = omega arith

encode_at :
    (d : Dinode) (k r : ℕ) → r < 4 → encode_dinode d (4 * k + r) ≡ word_byte (dinode_word d k) r
unfolding encode_dinode
encode_at d k r h =
    ap (λ x. word_byte (dinode_word d x) ((4 * k + r) % 4)) {x = (4 * k + r) / 4} {y = k}
      (omega arith)
    ∙ ap (word_byte (dinode_word d k)) {x = (4 * k + r) % 4} {y = r} (omega arith)

encode_word :
    (d : Dinode) (k : ℕ)
    → dinode_word d k < 2 ^ 32
    → word (encode_dinode d) (4 * k) ≡ dinode_word d k
encode_word d k h = ground (
  arith,
  encode_at d k 0 (omega arith),
  encode_at d k 1 (omega arith),
  encode_at d k 2 (omega arith),
  encode_at d k 3 (omega arith),
  bytes_word (dinode_word d k) h,
)

word_ext : (b c : Bytes) (o : ℕ) → ((i : ℕ) → i < o + 4 → b i ≡ c i) → word b o ≡ word c o
word_ext b c o h = ground (
  arith,
  h o (omega arith),
  h (o + 1) (omega arith),
  h (o + 2) (omega arith),
  h (o + 3) (omega arith),
)

addr_word : (d : Dinode) (k : ℕ) → dinode_word d (k + 3) ≡ d.addrs k
addr_word d k = ground arith

decode-encode : (d : Dinode) → IsDinode d → SameDinode (decode_dinode (encode_dinode d)) d
unfolding decode_dinode
decode-encode d h = record {
  type_eq = encode_word d 0 (h.words 0 (omega arith));
  device_eq = encode_word d 1 (h.words 1 (omega arith));
  size_eq = encode_word d 2 (h.words 2 (omega arith));
  addrs_eq = λ k hk.
      ap (word (encode_dinode d)) {x = 12 + 4 * k} {y = 4 * (k + 3)} (omega arith)
      ∙ encode_word d (k + 3) (h.words (k + 3) (omega arith))
      ∙ addr_word d k;
}

decode_ext :
    (b c : Bytes)
    → ((i : ℕ) → i < dinode_size → b i ≡ c i)
    → SameDinode (decode_dinode b) (decode_dinode c)
unfolding decode_dinode
decode_ext b c h = record {
  type_eq = word_ext b c 0 (λ i hi. h i (omega arith));
  device_eq = word_ext b c 4 (λ i hi. h i (omega arith));
  size_eq = word_ext b c 8 (λ i hi. h i (omega arith));
  addrs_eq = λ k hk. word_ext b c (12 + 4 * k) (λ i hi. h i (omega arith));
}

SameDinode-sym : {d e : Dinode} → SameDinode d e → SameDinode e d
SameDinode-sym a = record {
  type_eq = sym a.type_eq;
  device_eq = sym a.device_eq;
  size_eq = sym a.size_eq;
  addrs_eq = λ k hk. sym (a.addrs_eq k hk);
}

SameDinode-trans : {d e f : Dinode} → SameDinode d e → SameDinode e f → SameDinode d f
SameDinode-trans a b = record {
  type_eq = a.type_eq ∙ b.type_eq;
  device_eq = a.device_eq ∙ b.device_eq;
  size_eq = a.size_eq ∙ b.size_eq;
  addrs_eq = λ k hk. a.addrs_eq k hk ∙ b.addrs_eq k hk;
}

-- The four bytes at `o` of block `n`, the lowest first.
abbrev pub word_in : Blocks → ℕ → ℕ → ℕ
word_in b n o = b n o + 256 * b n (o + 1) + 65536 * b n (o + 2) + 16777216 * b n (o + 3)

-- Inode `nr` in the blocks `b`: an array of 64 inodes a block, of 16 words each, from the block
-- where the super block says that the inodes start.
abbrev pub dinode_at : Blocks → Fs → ℕ → Dinode
dinode_at b s nr =
    let n = (s.sb.istart + nr / 64) % 4294967296 in
    let o = 64 * (nr % 64) in
    record {
      type_of = word_in b n o;
      device = word_in b n (o + 4);
      size = word_in b n (o + 8);
      addrs = λ k. word_in b n (o + 12 + 4 * k);
    }

word-word_in :
    (b : Blocks) (s : Fs) (nr o p : ℕ)
    → i2blkoff nr + o ≡ p
    → word (λ j. b (i2blkno s nr) (i2blkoff nr + j)) o
      ≡ word_in b ((s.sb.istart + nr / 64) % 4294967296) p
word-word_in b s nr o p e = ground (arith, ap (b (i2blkno s nr)) e, place 1, place 2, place 3)
  where
    place : (r : ℕ) → b (i2blkno s nr) (i2blkoff nr + (o + r)) ≡ b (i2blkno s nr) (p + r)
    place r = ap (b (i2blkno s nr)) (omega (arith, e))

-- It is what the bytes at the block and the offset that the code computes stand for.
decode-dinode_at :
    (b : Blocks) (s : Fs) (nr : ℕ)
    → SameDinode (decode_dinode (λ j. b (i2blkno s nr) (i2blkoff nr + j))) (dinode_at b s nr)
unfolding decode_dinode
decode-dinode_at b s nr = record {
  type_eq = word-word_in b s nr 0 (64 * (nr % 64)) (omega arith);
  device_eq = word-word_in b s nr 4 (64 * (nr % 64) + 4) (omega arith);
  size_eq = word-word_in b s nr 8 (64 * (nr % 64) + 8) (omega arith);
  addrs_eq = λ k h. word-word_in b s nr (12 + 4 * k) (64 * (nr % 64) + 12 + 4 * k) (omega arith);
}

written :
    (b : Blocks) (s : Fs) (nr : ℕ) (src : Bytes) (i : ℕ)
    → i < dinode_size
    → write_block b src dinode_size (i2blkno s nr) (i2blkoff nr) (i2blkno s nr) (i2blkoff nr + i)
      ≡ src i
written b s nr src i hi = ground (arith, ==_refl (i2blkno s nr))

unwritten :
    (b : Blocks) (s : Fs) (nr m : ℕ) (src : Bytes) (i : ℕ)
    → m ≢ nr
    → s.sb.istart + m / iperblk < 2 ^ 32
    → s.sb.istart + nr / iperblk < 2 ^ 32
    → i < dinode_size
    → write_block b src dinode_size (i2blkno s nr) (i2blkoff nr) (i2blkno s m) (i2blkoff m + i)
      ≡ b (i2blkno s m) (i2blkoff m + i)
unwritten b s nr m src i ne hm hn hi = ground arith

fetch-eq :
    (size blk off : ℕ) (s : Fs) (b : Bytes) (d : Disk)
    → bread s.disk (λ _. 0) size blk off ≡ some (b, d)
    → fetch size blk off s ≡ some (b, record s { disk = d })
unfolding fetch
fetch-eq size blk off s b d e = rw (e, fetch) refl

flush-eq :
    (src : Bytes) (size blk off : ℕ) (s : Fs) (d : Disk)
    → bwrite s.disk src size blk off ≡ some d
    → flush src size blk off s ≡ some (tt, record s { disk = d })
unfolding flush
flush-eq src size blk off s d e = rw (e, flush) refl

diread-eq :
    (s : Fs) (nr : ℕ) (b : Bytes) (d : Disk)
    → bread s.disk (λ _. 0) dinode_size (i2blkno s nr) (i2blkoff nr) ≡ some (b, d)
    → diread nr s ≡ some (decode_dinode b, record s { disk = d })
unfolding diread
diread-eq s nr b d e =
    ap
      (λ (o : Option (Bytes × Fs)). elim o [
        | none ↦ none
        | some (x, t) ↦ some (decode_dinode x, t)
      ])
      (fetch-eq dinode_size (i2blkno s nr) (i2blkoff nr) s b d e)

diwrite-eq :
    (s : Fs) (nr : ℕ) (x : Dinode) (d : Disk)
    → bwrite s.disk (encode_dinode x) dinode_size (i2blkno s nr) (i2blkoff nr) ≡ some d
    → diwrite x nr s ≡ some (tt, record s { disk = d })
unfolding diwrite
diwrite-eq s nr x d e =
    rw (flush-eq (encode_dinode x) dinode_size (i2blkno s nr) (i2blkoff nr) s d e, diwrite) refl

-- If the drive implements the blocks `b` and inode `nr` lies on the drive, `diread` succeeds and
-- delivers inode `nr` of `b`; the drive still implements `b`, and nothing else changes.
pub diread-refines :
    (b : Blocks) (s : Fs) (nr : ℕ)
    → Implements b s.disk
    → i2blkno s nr < blk_num
    → Post
        (λ d t.
          SameDinode d (dinode_at b s nr)
          × Implements b t.disk
          × (t.sb ≡ s.sb)
          × (t.inodes ≡ s.inodes))
        (diread nr s)
diread-refines b s nr imp h =
    let (buf, d', e, imp', view) =
      bread-refines imp (λ _. 0) dinode_size (i2blkno s nr) (i2blkoff nr) h (omega arith) in
    rw (diread-eq s nr buf d' e) (
      SameDinode-trans
          (decode_ext buf (λ j. b (i2blkno s nr) (i2blkoff nr + j))
            (λ i hi. ground (arith, view i)))
          (decode-dinode_at b s nr),
      imp',
      refl,
      refl,
    )

-- If the drive implements the blocks `b`, inode `nr` lies on the drive, the sum for its block does
-- not wrap around and every field of `d` is a 32-bit word, then `diwrite` succeeds, and the drive
-- implements blocks in which inode `nr` is `d` and every other inode, for whose block the sum does
-- not wrap around, is as before.
pub diwrite-refines :
    (b : Blocks) (s : Fs) (nr : ℕ) (d : Dinode)
    → Implements b s.disk
    → i2blkno s nr < blk_num
    → s.sb.istart + nr / iperblk < 2 ^ 32
    → IsDinode d
    → Post
        (λ _ t.
          (b' : Blocks) × Implements b' t.disk
          × (t.sb ≡ s.sb)
          × SameDinode (dinode_at b' s nr) d
          × ((m : ℕ)
              → m ≢ nr
              → s.sb.istart + m / iperblk < 2 ^ 32
              → SameDinode (dinode_at b' s m) (dinode_at b s m)))
        (diwrite d nr s)
diwrite-refines b s nr d imp h hn hd =
    let (d', e, imp') =
      bwrite-refines imp (encode_dinode d) dinode_size (i2blkno s nr) (i2blkoff nr) h
        (omega arith) in
    let b' : Blocks = write_block b (encode_dinode d) dinode_size (i2blkno s nr) (i2blkoff nr) in
    rw (diwrite-eq s nr d d' e) (
      b',
      imp',
      refl,
      SameDinode-trans (SameDinode-sym (decode-dinode_at b' s nr)) (
          SameDinode-trans
            (decode_ext _ (encode_dinode d) (λ i hi. written b s nr (encode_dinode d) i hi))
            (decode-encode d hd)),
      λ m ne hm. SameDinode-trans (SameDinode-sym (decode-dinode_at b' s m)) (
          SameDinode-trans
            (decode_ext _ _ (λ i hi. unwritten b s nr m (encode_dinode d) i ne hm hn hi))
            (decode-dinode_at b s m)),
    )
