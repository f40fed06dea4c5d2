-- ===== src/Fs/State.antt =====
-- kernel/src/fs.c: inodes on the disk and in the table of active inodes, and the words in blocks.
use tiny_os_qemu.Base.{
  ℕ, ◌+◌, ◌-◌, ◌*◌, ◌/◌, ◌%◌, ◌^◌, none, some, Bytes, update, ◌==◌, if◌then◌else◌,
}
use tiny_os_qemu.Base.Exec.{Exec}
use tiny_os_qemu.Disk.{Disk, bread, bwrite, bzero}

abbrev pub ndirect : ℕ
ndirect = 12

abbrev pub nindirect : ℕ
nindirect = 1024

abbrev pub iperblk : ℕ
iperblk = 64

-- `sizeof(dinode_t)`
abbrev pub dinode_size : ℕ
dinode_size = 64

abbrev pub inode_num : ℕ
inode_num = 128

-- `BLK_NUM / 32`
abbrev pub bitmap_words : ℕ
bitmap_words = 1024

abbrev pub super_block : ℕ
super_block = 32

abbrev pub type_none : ℕ
type_none = 0

abbrev pub type_dir : ℕ
type_dir = 2

abbrev pub type_dev : ℕ
type_dev = 3

pub record SuperBlock : Type 0 where
  pub bitmap : ℕ
  pub istart : ℕ
  pub inum : ℕ
  pub root : ℕ

pub record Dinode : Type 0 where
  pub type_of : ℕ
  pub device : ℕ
  pub size : ℕ
  pub addrs : ℕ → ℕ

pub record Inode : Type 0 where
  pub no : ℕ
  pub ref : ℕ
  pub del : ℕ
  pub dinode : Dinode

pub record Fs : Type 0 where
  pub disk : Disk
  pub sb : SuperBlock
  pub inodes : ℕ → Inode

-- A uint32_t in memory, the low byte first.
abbrev pub word : Bytes → ℕ → ℕ
word b o = b o + 256 * b (o + 1) + 65536 * b (o + 2) + 16777216 * b (o + 3)

abbrev pub word_byte : ℕ → ℕ → ℕ
word_byte w i = w / 256 ^ i % 256

abbrev pub of_word : ℕ → Bytes
of_word w i = word_byte w i

-- A `dinode_t` in memory: its words are type, device, size and the addresses.
unfoldable pub decode_dinode : Bytes → Dinode
decode_dinode b = record {
  type_of = word b 0;
  device = word b 4;
  size = word b 8;
  addrs = λ k. word b (12 + 4 * k);
}

abbrev pub dinode_word : Dinode → ℕ → ℕ
dinode_word d k =
    if k == 0
    then d.type_of
    else if k == 1
    then d.device
    else if k == 2
    then d.size
    else d.addrs (k - 3)

unfoldable pub encode_dinode : Dinode → Bytes
encode_dinode d i = word_byte (dinode_word d (i / 4)) (i % 4)

-- `bread` into a buffer of its own.
unfoldable pub fetch : ℕ → ℕ → ℕ → Exec Fs Bytes
fetch size nr off s = elim (bread s.disk (λ _. 0) size nr off) [
  | none ↦ none
  | some (b, d) ↦ some (b, record s { disk = d })
]

unfoldable pub flush : Bytes → ℕ → ℕ → ℕ → Exec Fs (Unit {0})
flush src size nr off s = elim (bwrite s.disk src size nr off) [
  | none ↦ none
  | some d ↦ some (tt, record s { disk = d })
]

abbrev pub clear_block : ℕ → Exec Fs (Unit {0})
clear_block nr s = some (tt, record s { disk = bzero s.disk nr })

abbrev pub set_inode : ℕ → Inode → Fs → Fs
set_inode i x s = record s { inodes = update s.inodes i x }

abbrev pub set_dinode : ℕ → Dinode → Fs → Fs
set_dinode i d s = set_inode i (record (s.inodes i) { dinode = d }) s

abbrev pub set_ref : ℕ → ℕ → Fs → Fs
set_ref i r s = set_inode i (record (s.inodes i) { ref = r }) s
