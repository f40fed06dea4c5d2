-- ===== src/Disk/Sectors.antt =====
-- kernel/src/disk.c, transfers of several sectors.
use tiny_os_qemu.Base.{
  ℕ, zero, suc, ◌+◌, ◌-◌, ◌*◌, ◌/◌, ◌%◌, ◌≤◌, ◌<◌, ◌≡◌, refl, Bytes, ltb, arith, ◌==◌,
  if◌then◌else◌, within, lt→ltb,
}
use tiny_os_qemu.Disk.{
  Disk, sectsize, blk_size, read_disk, write_disk, read_sectors, write_sectors, sect_of,
  copy_from_disk, copy_to_disk, blk_offset,
}

-- The blocks that the file system sees: eight sectors each.
abbrev pub block : Disk → ℕ → Bytes
block d n i = d.sectors (n * 8 + i / sectsize) (i % sectsize)

read_sectors_lem :
    (f : ℕ) (d : Disk) (buf : Bytes) (r q cur ed sect i : ℕ)
    → r ≤ f
    → cur ≡ q * sectsize
    → ed ≡ cur + r * sectsize
    → read_sectors f d buf cur ed sect i ≡ (
        if within cur (r * sectsize) i
        then d.sectors (sect + (i / sectsize - q)) (i % sectsize)
        else buf i)
unfolding read_sectors read_disk
read_sectors_lem zero d buf r q cur ed sect i h e k = ground arith
read_sectors_lem (suc f) d buf zero q cur ed sect i h e k = ground arith
read_sectors_lem (suc f) d buf (suc r) q cur ed sect i h e k =
    rw (lt→ltb cur ed (omega arith), read_sectors)
      (ground (
        arith,
        read_sectors_lem f d (read_disk d buf cur sect) r (q + 1) (cur + sectsize) ed (sect + 1) i
            (omega arith) (omega arith) (omega arith),
      ))

sect_of-blk_offset : (n : ℕ) → n < 32768 → sect_of (blk_offset n) ≡ n * 8
unfolding sect_of
sect_of-blk_offset n h = ground arith

write_sectors_lem :
    (f : ℕ) (d : Disk) (buf : Bytes) (r cur ed sect s j : ℕ)
    → r ≤ f
    → ed ≡ cur + r * sectsize
    → (write_sectors f d buf cur ed sect).sectors s j ≡ (
        if within sect r s
        then (if ltb j sectsize then buf (cur + (s - sect) * sectsize + j) else d.sectors s j)
        else d.sectors s j)
unfolding write_sectors write_disk
write_sectors_lem zero d buf r cur ed sect s j h e = ground arith
write_sectors_lem (suc f) d buf zero cur ed sect s j h e = ground arith
write_sectors_lem (suc f) d buf (suc r) cur ed sect s j h e =
    rw (lt→ltb cur ed (omega arith), write_sectors)
      (ground (
        arith,
        write_sectors_lem f (write_disk d buf cur sect) buf r (cur + sectsize) ed (sect + 1) s j
            (omega arith) (omega arith),
      ))

write_sectors-blk_cache :
    (f : ℕ) (d : Disk) (buf : Bytes) (cur ed sect : ℕ)
    → (write_sectors f d buf cur ed sect).blk_cache ≡ d.blk_cache
unfolding write_sectors write_disk
write_sectors-blk_cache zero d buf cur ed sect = refl
write_sectors-blk_cache (suc f) d buf cur ed sect = ground (
  arith,
  write_sectors-blk_cache f (write_disk d buf cur sect) buf (cur + sectsize) ed (sect + 1),
)

-- A block-sized read of an aligned block fetches that block.
pub copy_from_disk-block :
    (d : Disk) (buf : Bytes) (n i : ℕ)
    → n < 32768
    → i < blk_size
    → copy_from_disk d buf blk_size (blk_offset n) i ≡ block d n i
unfolding copy_from_disk
copy_from_disk-block d buf n i hn hi =
    rw (sect_of-blk_offset n hn)
      (ground (arith, read_sectors_lem 4096 d buf 8 0 0 4096 (n * 8) i (omega arith) refl refl))

pub copy_to_disk-block :
    (d : Disk) (buf : Bytes) (n m i : ℕ)
    → n < 32768
    → i < blk_size
    → block (copy_to_disk d buf blk_size (blk_offset n)) m i
      ≡ (if n == m then buf i else block d m i)
unfolding copy_to_disk
copy_to_disk-block d buf n m i hn hi = rw (sect_of-blk_offset n hn) (
    ground (
      arith,
      write_sectors_lem 4096 d buf 8 0 4096 (n * 8) (m * 8 + i / sectsize) (i % sectsize)
          (omega arith) refl,
    ))

pub copy_to_disk-blk_cache :
    (d : Disk) (buf : Bytes) (nbytes off : ℕ)
    → (copy_to_disk d buf nbytes off).blk_cache ≡ d.blk_cache
unfolding copy_to_disk
copy_to_disk-blk_cache d buf nbytes off = write_sectors-blk_cache nbytes d buf 0 nbytes _
