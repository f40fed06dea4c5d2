-- ===== src/Fs/Inodes.antt =====
-- kernel/src/fs.c: the table of active inodes and the contents of a file.
pub mod Active
pub mod Fuel
use tiny_os_qemu.Base.{
  ℕ, zero, suc, ◌+◌, ◌-◌, ◌*◌, ◌/◌, ◌%◌, ◌^◌, Bool, true, false, not, Option, none, some, Bytes,
  paste, update, ltb, leb, ◌==◌, if◌then◌else◌, ◌&&◌,
}
use tiny_os_qemu.Base.Exec.{Exec, pure, ◌>>=◌, ◌>>◌, get, modify, abort, assert, when, for_range}
use tiny_os_qemu.Disk.{blk_size}
use tiny_os_qemu.Proc.State.{inc, dec, minus_one}
use tiny_os_qemu.Fs.State.{
  Fs, Inode, Dinode, word, of_word, fetch, flush, set_inode, set_dinode, set_ref, inode_num,
  ndirect, nindirect, type_dev,
}
use tiny_os_qemu.Fs.Blocks.{diread, diwrite, difree, balloc, bfree}

-- The first entry of the table from `i` on that passes the test, with `n` entries left.
unfoldable pub find_inode : (Inode → Bool) → ℕ → ℕ → (ℕ → Inode) → Option ℕ
find_inode test zero i f = none
find_inode test (suc n) i f =
    let later = find_inode test n (suc i) f in if test (f i) then some i else later

-- `ref > 0` for an int.
abbrev pub positive : ℕ → Bool
positive v = ltb 0 v && ltb v (2 ^ 31)

abbrev pub is_active : ℕ → Inode → Bool
is_active nr x = positive x.ref && x.no == nr

abbrev pub is_free : Inode → Bool
is_free x = x.ref == 0

unfoldable pub activate : ℕ → ℕ → Exec Fs ℕ
activate i nr = do
  modify (λ s. set_inode i (record (s.inodes i) { ref = 1; no = nr; del = 0 }) s)
  d ← diread nr
  modify (set_dinode i d)
  pure i

unfoldable pub iget : ℕ → Exec Fs ℕ
iget nr s = elim (find_inode (is_active nr) inode_num 0 s.inodes) [
  | some i ↦ some (i, set_ref i (inc (s.inodes i).ref) s)
  | none ↦ elim (find_inode is_free inode_num 0 s.inodes) [ some i ↦ activate i nr s | none ↦ none ]
]

unfoldable pub iupdate : ℕ → Exec Fs (Unit {0})
iupdate i = do s ← get; diwrite (s.inodes i).dinode (s.inodes i).no

abbrev pub addr : ℕ → ℕ → Fs → ℕ
addr i k s = (s.inodes i).dinode.addrs k

abbrev pub set_addr : ℕ → ℕ → ℕ → Fs → Fs
set_addr i k a s =
    set_dinode i (record ((s.inodes i).dinode) { addrs = update (s.inodes i).dinode.addrs k a }) s

-- The block at address `k` of the inode, taken from the bitmap if there is none.
unfoldable pub own_block : ℕ → ℕ → Exec Fs ℕ
own_block i k s =
    if addr i k s == 0
    then (do a ← balloc; modify (set_addr i k a); iupdate i; pure a) s
    else some (addr i k s, s)

unfoldable pub indirect_block : ℕ → ℕ → Exec Fs ℕ
indirect_block table nr = fetch 4 table (nr * 4) >>= λ b. elim (word b 0 == 0) [
  | true ↦ do a ← balloc; flush (of_word a) 4 table (nr * 4); pure a
  | false ↦ pure (word b 0)
]

unfoldable pub iwalk : ℕ → ℕ → Exec Fs ℕ
iwalk i nr =
    if ltb nr ndirect
    then own_block i nr
    else if ltb (nr - ndirect) nindirect
    then (do table ← own_block i ndirect; indirect_block table (nr - ndirect))
    else abort

abbrev pub min : ℕ → ℕ → ℕ
min a b = if ltb a b then a else b

-- The loop of `iread`: `nr` is the block of the file, `total` bytes are in `buf`, `len` are left.
-- Every round takes a byte at least, so that `len` rounds are enough.
unfoldable pub read_blocks : ℕ → ℕ → ℕ → ℕ → ℕ → ℕ → Bytes → Exec Fs (ℕ × Bytes)
read_blocks zero i nr blkoff len total buf = if len == 0 then pure (total, buf) else abort
read_blocks (suc n) i nr blkoff len total buf = elim (len == 0) [
  | true ↦ pure (total, buf)
  | false ↦ iwalk i nr >>= λ blkno. fetch (min (blk_size - blkoff) len) blkno blkoff >>= λ b.
      read_blocks n i (nr + 1) 0 (len - min (blk_size - blkoff) len)
        (total + min (blk_size - blkoff) len) (paste buf total (min (blk_size - blkoff) len) b)
]

abbrev pub size_of : ℕ → Fs → ℕ
size_of i s = (s.inodes i).dinode.size

-- The number of bytes that `iread` delivers.
abbrev pub read_len : ℕ → ℕ → ℕ → ℕ
read_len size off len = if ltb size ((off + len) % 2 ^ 32) then size - off else len

unfoldable pub iread : ℕ → ℕ → Bytes → ℕ → Exec Fs (ℕ × Bytes)
iread i off buf len s =
    if ltb (size_of i s) off
    then some ((minus_one, buf), s)
    else read_blocks (read_len (size_of i s) off len) i (off / blk_size) (off % blk_size)
        (read_len (size_of i s) off len) 0 buf s

unfoldable pub write_blocks : ℕ → ℕ → ℕ → ℕ → ℕ → ℕ → Bytes → Exec Fs ℕ
write_blocks zero i nr blkoff len total buf = if len == 0 then pure total else abort
write_blocks (suc n) i nr blkoff len total buf = elim (len == 0) [
  | true ↦ pure total
  | false ↦ iwalk i nr >>= λ blkno.
      flush (λ j. buf (total + j)) (min (blk_size - blkoff) len) blkno blkoff
      >> write_blocks n i (nr + 1) 0 (len - min (blk_size - blkoff) len)
          (total + min (blk_size - blkoff) len) buf
]

-- The new size of the file, written back.
unfoldable pub grow : ℕ → ℕ → Exec Fs (Unit {0})
grow i new s =
    if ltb (size_of i s) new
    then (modify (λ t. set_dinode i (record ((t.inodes i).dinode) { size = new }) t) >> iupdate i) s
    else some (tt, s)

unfoldable pub iwrite : ℕ → ℕ → Bytes → ℕ → Exec Fs ℕ
iwrite i off buf len s =
    if ltb (size_of i s) off
    then some (minus_one, s)
    else (grow i ((off + len) % 2 ^ 32)
          >> write_blocks len i (off / blk_size) (off % blk_size) len 0 buf)
        s

unfoldable pub free_direct : ℕ → ℕ → Exec Fs (Unit {0})
free_direct i k s =
    if addr i k s == 0 then some (tt, s) else (bfree (addr i k s) >> modify (set_addr i k 0)) s

unfoldable pub free_indirect : ℕ → ℕ → Exec Fs (Unit {0})
free_indirect table k =
    fetch 4 table (k * 4) >>= λ b. if word b 0 == 0 then pure tt else bfree (word b 0)

-- The address of the indirect block stays the same while its blocks are freed.
unfoldable pub free_table : ℕ → Exec Fs (Unit {0})
free_table i s =
    if addr i ndirect s == 0
    then some (tt, s)
    else (do
      for_range nindirect 0 (free_indirect (addr i ndirect s))
      bfree (addr i ndirect s)
      modify (set_addr i ndirect 0))
        s

unfoldable pub itrunc : ℕ → Exec Fs (Unit {0})
itrunc i = do
  for_range ndirect 0 (free_direct i)
  free_table i
  modify (λ s. set_dinode i (record ((s.inodes i).dinode) { size = 0 }) s)
  iupdate i

unfoldable pub idup : ℕ → Exec Fs ℕ
idup i s = some (i, set_ref i (inc (s.inodes i).ref) s)

-- The removal that `iremove` has left to the last user of the inode.
unfoldable pub remove_if_last : ℕ → Exec Fs (Unit {0})
remove_if_last i s =
    if (s.inodes i).ref == 1 && not ((s.inodes i).del == 0)
    then (itrunc i >> difree (s.inodes i).no) s
    else some (tt, s)

unfoldable pub iclose : ℕ → Exec Fs (Unit {0})
iclose i = do remove_if_last i; modify (λ s. set_ref i (dec (s.inodes i).ref) s)

abbrev pub itype : ℕ → Fs → ℕ
itype i s = (s.inodes i).dinode.type_of

abbrev pub ino : ℕ → Fs → ℕ
ino i s = (s.inodes i).no

abbrev pub idevid : ℕ → Fs → ℕ
idevid i s = if itype i s == type_dev then (s.inodes i).dinode.device else minus_one
