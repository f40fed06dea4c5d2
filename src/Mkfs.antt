-- ===== src/Mkfs.antt =====
-- utils/mkfs.c: the image of the user's part of the disk. `inodes` are the inodes in the blocks
-- INODE_START to DATA_START, where only `iget` looks; `blocks` are the data blocks, by their number.
-- What `mmap` gives is zero. A call of `panic`, a failed assert and a write outside an object are
-- `none`.
pub mod Place
pub mod Grow
pub mod Walk
pub mod Write
pub mod Append
pub mod Files
pub mod Layout
mod Tests
use tiny_os_qemu.Base.{
  ℕ, zero, suc, ◌+◌, ◌-◌, ◌*◌, ◌/◌, ◌%◌, ◌^◌, min, Bool, true, false, none, some, List, [], ◌∷◌,
  length, Bytes, update, ltb, leb, ◌==◌, if◌then◌else◌, paste,
}
use tiny_os_qemu.Base.Exec.{Exec, pure, ◌>>=◌, ◌>>◌, get, modify, assert, when}
use tiny_os_qemu.Fs.State.{
  SuperBlock, Dinode, word, of_word, ndirect, nindirect, iperblk, super_block, type_dir,
}
use tiny_os_qemu.Fs.Paths.{put_dirent, dirent_size}

abbrev pub blk_num : ℕ
blk_num = 32768

abbrev pub blk_off : ℕ
blk_off = 32

abbrev pub bitmap_blk : ℕ
bitmap_blk = blk_off + 1

abbrev pub inode_start : ℕ
inode_start = blk_off + 2

abbrev pub data_start : ℕ
data_start = blk_off + 32

abbrev pub inode_num : ℕ
inode_num = (data_start - inode_start) * iperblk

-- `sb`, `bitmap`, `root` and the static variables of `balloc` and `ialloc`.
pub record Image : Type 0 where
  pub sb : SuperBlock
  pub bitmap : Bytes
  pub inodes : ℕ → Dinode
  pub blocks : ℕ → Bytes
  pub root : ℕ
  pub next_blk : ℕ
  pub next_inode : ℕ

abbrev pub bget : ℕ → Exec Image ℕ
bget nr = do assert (leb blk_off nr); assert (ltb nr blk_num); pure nr

-- `b |= 1 << k`
abbrev pub set_bit : ℕ → ℕ → ℕ
set_bit k b = if b / 2 ^ k % 2 == 0 then b + 2 ^ k else b

-- The image behind a call of `balloc`.
abbrev pub taken : Image → Image
taken s = record s {
  bitmap = update s.bitmap (s.next_blk / 8) (set_bit (s.next_blk % 8) (s.bitmap (s.next_blk / 8)));
  next_blk = s.next_blk + 1;
}

unfoldable pub balloc : Exec Image ℕ
balloc s = if leb blk_num s.next_blk then none else some (s.next_blk, taken s)

abbrev pub set_inode : ℕ → Dinode → Image → Image
set_inode f d s = record s { inodes = update s.inodes f d }

unfoldable pub ialloc : ℕ → Exec Image ℕ
ialloc type s =
    if leb inode_num s.next_inode
    then none
    else some (
      s.next_inode,
      record (set_inode s.next_inode (record (s.inodes s.next_inode) { type_of = type }) s) {
        next_inode = s.next_inode + 1;
      },
    )

-- `file->addrs[k] = b`
abbrev pub set_addr : ℕ → ℕ → ℕ → Image → Image
set_addr f k b s = set_inode f (record (s.inodes f) { addrs = update (s.inodes f).addrs k b }) s

-- A word of the block `t`.
abbrev pub set_entry : ℕ → ℕ → ℕ → Image → Image
set_entry t j b s = record s {
  blocks = update s.blocks t (paste (s.blocks t) (4 * j) 4 (of_word b));
}

-- `file->addrs[k]`, after `balloc` where it is 0.
unfoldable pub own_addr : ℕ → ℕ → Exec Image ℕ
own_addr f k = do
  s ← get
  when ((s.inodes f).addrs k == 0) (do b ← balloc; modify (set_addr f k b))
  t ← get
  pure ((t.inodes f).addrs k)

-- `indirect[j]` in block `t`, after `balloc` where it is 0.
unfoldable pub entry_addr : ℕ → ℕ → Exec Image ℕ
entry_addr t j = do
  s ← get
  when (word (s.blocks t) (4 * j) == 0) (do b ← balloc; modify (set_entry t j b))
  u ← get
  pure (word (u.blocks t) (4 * j))

unfoldable pub iwalk : ℕ → ℕ → Exec Image ℕ
iwalk f blk_no = if ltb blk_no ndirect then (do b ← own_addr f blk_no; bget b) else (do
  assert (ltb (blk_no - ndirect) nindirect)
  i ← own_addr f ndirect
  t ← bget i
  b ← entry_addr t (blk_no - ndirect)
  bget b)

-- `memcpy(blk->u8buf + offset, buf, n)` and `file->size += n`, with `buf` moved on by `p` bytes.
abbrev pub put_part : ℕ → ℕ → ℕ → ℕ → ℕ → Bytes → Image → Image
put_part f b offset n p buf s =
    record (set_inode f (record (s.inodes f) { size = ((s.inodes f).size + n) % 2 ^ 32 }) s) {
      blocks = update s.blocks b (paste (s.blocks b) offset n (λ i. buf (p + i)));
    }

-- The loop of `iappend`, on fuel for the bytes that are left.
unfoldable pub append_from : ℕ → ℕ → Bytes → ℕ → ℕ → ℕ → ℕ → Exec Image (Unit {0})
append_from n f buf p zero offset blk_no = pure tt
append_from zero f buf p (suc size) offset blk_no = λ s. none
append_from (suc n) f buf p (suc size) offset blk_no = do
  b ← iwalk f blk_no
  let write_size = min (suc size) (4096 - offset)
  modify (put_part f b offset write_size p buf)
  append_from n f buf (p + write_size) (suc size - write_size) 0 (blk_no + 1)

unfoldable pub iappend : ℕ → Bytes → ℕ → Exec Image (Unit {0})
iappend f buf size = do
  s ← get
  append_from size f buf 0 size ((s.inodes f).size % 4096) ((s.inodes f).size / 4096)

-- `b` is what stands in the `dirent_t` on the stack before its fields are set.
unfoldable pub append_dirent : Bytes → ℕ → List ℕ → Exec Image (Unit {0})
append_dirent b nr name = do
  assert (ltb (length name) 28)
  s ← get
  iappend s.root (put_dirent nr name b) dirent_size

abbrev pub blank_image : Image
blank_image = record {
  sb = record { bitmap = 0; istart = 0; inum = 0; root = 0 };
  bitmap = λ _. 0;
  inodes = λ _. record { type_of = 0; device = 0; size = 0; addrs = λ _. 0 };
  blocks = λ _ _. 0;
  root = 0;
  next_blk = 64;
  next_inode = 1;
}

-- Up to `sb->root`.
abbrev pub set_layout : Image → Image
set_layout s = record s {
  sb = record s.sb { bitmap = bitmap_blk; istart = inode_start; inum = inode_num };
  bitmap = λ i. if ltb i 8 then 255 else s.bitmap i;
}

unfoldable pub init_disk : Bytes → Exec Image (Unit {0})
init_disk junk = do
  modify set_layout
  r ← ialloc type_dir
  modify (λ s. record s { sb = record s.sb { root = r }; root = r })
  append_dirent junk r (46 ∷ [])
  append_dirent (put_dirent r (46 ∷ []) junk) r (46 ∷ 46 ∷ [])

-- The loop of `add_file`: `fread` gives the next 4096 bytes of the file, or what is left of it.
unfoldable pub copy_file : ℕ → ℕ → Bytes → ℕ → ℕ → Exec Image (Unit {0})
copy_file n f content p zero = pure tt
copy_file zero f content p (suc left) = λ s. none
copy_file (suc n) f content p (suc left) = do
  let size = min (suc left) 4096
  iappend f (λ i. content (p + i)) size
  copy_file n f content (p + size) (suc left - size)

-- `name` is `basename(path)`; the file there has `size` bytes.
unfoldable pub add_file : Bytes → List ℕ → Bytes → ℕ → Exec Image (Unit {0})
add_file junk name content size = do
  f ← ialloc 1
  append_dirent junk f name
  copy_file size f content 0 size
