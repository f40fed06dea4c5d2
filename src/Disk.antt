-- ===== src/Disk.antt =====
-- kernel/src/disk.c: sectors of the drive, transfers of several sectors, and the block cache.
pub mod Sectors
pub mod Cache
pub mod Store
pub mod Tests
use tiny_os_qemu.Base.{
  ℕ, zero, suc, ◌+◌, ◌-◌, ◌*◌, ◌/◌, ◌%◌, ◌^◌, Bool, not, ◌||◌, Option, none, some, Bytes, paste,
  update, ltb, leb, ◌==◌, if◌then◌else◌, true, false,
}

abbrev pub sectsize : ℕ
sectsize = 512

-- `SECTSIZE * 8`
abbrev pub blk_size : ℕ
blk_size = 4096

abbrev pub bcache_num : ℕ
bcache_num = 16

-- An entry of `blk_cache`; `valid` is 0 or 1.
pub record Bcache : Type 0 where
  pub valid : ℕ
  pub no : ℕ
  pub buf : Bytes

-- The bytes of each sector of the drive, and `blk_cache`.
pub record Disk : Type 0 where
  pub sectors : ℕ → Bytes
  pub blk_cache : ℕ → Bcache

-- One sector through the data port, to `buf` at offset `cur`.
pub read_disk : Disk → Bytes → ℕ → ℕ → Bytes
read_disk d buf cur sect = paste buf cur sectsize (d.sectors sect)

-- One sector through the data port, from `buf` at offset `cur`.
pub write_disk : Disk → Bytes → ℕ → ℕ → Disk
write_disk d buf cur sect = record d {
  sectors = update d.sectors sect (paste (d.sectors sect) 0 sectsize (λ i. buf (cur + i)));
}

-- The loop of `copy_from_disk`: `cur` and `ed` count from the start of the buffer.
read_sectors : ℕ → Disk → Bytes → ℕ → ℕ → ℕ → Bytes
read_sectors zero d buf cur ed sect = buf
read_sectors (suc f) d buf cur ed sect = elim (ltb cur ed) [
  | true ↦ read_sectors f d (read_disk d buf cur sect) (cur + sectsize) ed (sect + 1)
  | false ↦ buf
]

write_sectors : ℕ → Disk → Bytes → ℕ → ℕ → ℕ → Disk
write_sectors zero d buf cur ed sect = d
write_sectors (suc f) d buf cur ed sect = elim (ltb cur ed) [
  | true ↦ write_sectors f (write_disk d buf cur sect) buf (cur + sectsize) ed (sect + 1)
  | false ↦ d
]

-- `(uint32_t)(x / SECTSIZE)` for the `int` whose bits are `x`: the division truncates towards 0.
sect_of : ℕ → ℕ
sect_of x = if ltb x (2 ^ 31) then x / sectsize else (2 ^ 32 - (2 ^ 32 - x) / sectsize) % 2 ^ 32

-- A transfer takes at most one round for each byte.
pub copy_from_disk : Disk → Bytes → ℕ → ℕ → Bytes
unfolding read_sectors read_disk sect_of
copy_from_disk d buf nbytes disk_offset = read_sectors nbytes d buf 0 nbytes (sect_of disk_offset)

pub copy_to_disk : Disk → Bytes → ℕ → ℕ → Disk
unfolding write_sectors write_disk sect_of
copy_to_disk d buf nbytes disk_offset = write_sectors nbytes d buf 0 nbytes (sect_of disk_offset)

-- `no * BLK_SIZE` in 32 bits
abbrev pub blk_offset : ℕ → ℕ
blk_offset n = n * blk_size % 2 ^ 32

-- The entry for block `no`, loaded if another block is there: `fill no bc buf` is that entry.
abbrev pub fill : Disk → ℕ → Bcache → Bcache
fill d n bc = record { valid = 1; no = n; buf = copy_from_disk d bc.buf blk_size (blk_offset n) }

-- Another block, or none, stands in the entry.
abbrev pub misses : Bcache → ℕ → Bool
misses bc n = bc.valid == 0 || not (bc.no == n)

-- `bgetcache`: the pointer that it returns is entry `no % BCACHE_NUM` of the new state.
pub bgetcache : Disk → ℕ → Disk
bgetcache d n =
    let bc = d.blk_cache (n % bcache_num) in
    if misses bc n
    then record d { blk_cache = update d.blk_cache (n % bcache_num) (fill d n bc) }
    else d

-- The buffer of the entry for block `no`.
abbrev pub cached : Disk → ℕ → Bytes
cached d n = (d.blk_cache (n % bcache_num)).buf

abbrev pub set_cached : Disk → ℕ → Bytes → Disk
set_cached d n b = record d {
  blk_cache =
      update d.blk_cache (n % bcache_num) (record (d.blk_cache (n % bcache_num)) { buf = b });
}

-- `none` is a failed `assert`.
pub bread : Disk → Bytes → ℕ → ℕ → ℕ → Option (Bytes × Disk)
bread d dst size n off =
    if leb ((size + off) % 2 ^ 32) blk_size
    then (let d' = bgetcache d n in some (paste dst 0 size (λ i. cached d' n (off + i)), d'))
    else none

pub bwrite : Disk → Bytes → ℕ → ℕ → ℕ → Option Disk
bwrite d src size n off =
    if leb ((size + off) % 2 ^ 32) blk_size
    then (let d' = bgetcache d n in
        let b = paste (cached d' n) off size src in
        some (copy_to_disk (set_cached d' n b) b blk_size (blk_offset n)))
    else none

pub bzero : Disk → ℕ → Disk
bzero d n =
    let d' = bgetcache d n in
    let b = paste (cached d' n) 0 blk_size (λ _. 0) in
    copy_to_disk (set_cached d' n b) b blk_size (blk_offset n)
