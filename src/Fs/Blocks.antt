-- ===== src/Fs/Blocks.antt =====
-- kernel/src/fs.c: inodes and blocks on the disk, taken and given back.
pub mod Inode
use tiny_os_qemu.Base.{
  ℕ, zero, suc, ◌+◌, ◌-◌, ◌*◌, ◌/◌, ◌%◌, ◌^◌, Bool, true, false, Option, none, some, Bytes, update,
  ltb, leb, ◌==◌, if◌then◌else◌, ◌&&◌,
}
use tiny_os_qemu.Base.Exec.{Exec, pure, ◌>>=◌, ◌>>◌, get, modify, abort, assert, when}
use tiny_os_qemu.Fs.State.{
  Fs, Dinode, SuperBlock, word, of_word, decode_dinode, encode_dinode, fetch, flush, clear_block,
  dinode_size, iperblk, bitmap_words, super_block, type_none,
}

unfoldable pub init_fs : Exec Fs (Unit {0})
init_fs = do
  b ← fetch 16 super_block 0
  modify (λ s. record s {
    sb = record { bitmap = word b 0; istart = word b 4; inum = word b 8; root = word b 12 };
  })

abbrev pub i2blkno : Fs → ℕ → ℕ
i2blkno s nr = (s.sb.istart + nr / iperblk) % 2 ^ 32

abbrev pub i2blkoff : ℕ → ℕ
i2blkoff nr = nr % iperblk * dinode_size

unfoldable pub diread : ℕ → Exec Fs Dinode
diread nr = do s ← get; b ← fetch dinode_size (i2blkno s nr) (i2blkoff nr); pure (decode_dinode b)

unfoldable pub diwrite : Dinode → ℕ → Exec Fs (Unit {0})
diwrite d nr = do s ← get; flush (encode_dinode d) dinode_size (i2blkno s nr) (i2blkoff nr)

-- `memset(&dinode, 0, sizeof dinode)`
abbrev pub empty_dinode : Dinode
empty_dinode = record { type_of = 0; device = 0; size = 0; addrs = λ _. 0 }

-- The loop of `dialloc` from `i` on, with `n` inodes left.
unfoldable pub dialloc_from : ℕ → ℕ → ℕ → Exec Fs ℕ
dialloc_from zero i kind = abort
dialloc_from (suc n) i kind = diread i >>= λ d. elim (d.type_of == type_none) [
  | true ↦ diwrite (record empty_dinode { type_of = kind }) i >> pure i
  | false ↦ dialloc_from n (suc i) kind
]

unfoldable pub dialloc : ℕ → Exec Fs ℕ
dialloc kind = do s ← get; dialloc_from (s.sb.inum - 1) 1 kind

unfoldable pub difree : ℕ → Exec Fs (Unit {0})
difree nr = diwrite empty_dinode nr

abbrev pub bit : ℕ → ℕ → ℕ
bit w j = w / 2 ^ j % 2

-- The lowest bit of `w` from `j` on that is 0, with `n` bits left.
unfoldable pub clear_bit : ℕ → ℕ → ℕ → Option ℕ
clear_bit zero j w = none
clear_bit (suc n) j w = let later = clear_bit n (suc j) w in if bit w j == 0 then some j else later

-- The loop of `balloc` from word `i` of the bitmap on, with `n` words left. Setting a bit that is 0
-- adds its weight.
unfoldable pub balloc_from : ℕ → ℕ → ℕ → Exec Fs ℕ
balloc_from zero i map = abort
balloc_from (suc n) i map = fetch 4 map (i * 4) >>= λ b.
    elim (if word b 0 == 2 ^ 32 - 1 then none else clear_bit 32 0 (word b 0)) [
      | none ↦ balloc_from n (suc i) map
      | some j ↦ do
        clear_block (32 * i + j)
        flush (of_word (word b 0 + 2 ^ j)) 4 map (i * 4)
        pure (32 * i + j)
    ]

unfoldable pub balloc : Exec Fs ℕ
balloc = do s ← get; balloc_from bitmap_words 0 s.sb.bitmap

-- Of `byte` only the byte that is read from the bitmap is written back.
unfoldable pub bfree : ℕ → Exec Fs (Unit {0})
bfree blkno = do
  assert (leb 64 blkno)
  s ← get
  b ← fetch 1 s.sb.bitmap (blkno / 8)
  flush (λ _. b 0 - bit (b 0) (blkno % 8) * 2 ^ (blkno % 8)) 1 s.sb.bitmap (blkno / 8)
