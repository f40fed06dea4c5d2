-- ===== src/Disk/Store.antt =====
-- kernel/src/disk.c: the cached drive implements a plain store of blocks.
use tiny_os_qemu.Base.{
  ℕ, ◌+◌, ◌%◌, ◌^◌, ◌≤◌, ◌<◌, ◌≡◌, Bytes, paste, update, arith, some, leb, le→leb, true, ◌∙◌, ◌-◌,
}
use tiny_os_qemu.Disk.{Disk, blk_size, bgetcache, cached, bread, bwrite, bzero}
use tiny_os_qemu.Disk.Sectors.{block}
use tiny_os_qemu.Disk.Cache.{
  blk_num, Coherent, bgetcache-sectors, bgetcache-cached, bgetcache-Coherent, bgetcache-no, flush,
  flush-block, flush-Coherent,
}

-- The abstract view: the bytes of each block.
abbrev pub Blocks : Type 0
Blocks = ℕ → Bytes

-- The cache is coherent, and block `n` of the drive holds `b n`.
pub record Implements (b : Blocks) (d : Disk) : Type 0 where
  pub coherent : Coherent d
  pub view : (n i : ℕ) → n < blk_num → i < blk_size → block d n i ≡ b n i

-- `b` after a write of `size` bytes at offset `off` of block `n`.
abbrev pub write_block : Blocks → Bytes → ℕ → ℕ → ℕ → Blocks
write_block b src size n off = update b n (paste (b n) off size src)

in_bounds : (size off : ℕ) → size + off ≤ blk_size → leb ((size + off) % 2 ^ 32) blk_size ≡ true
in_bounds size off h = le→leb _ _ (omega arith)

Implements-ext :
    {b c : Blocks} {d : Disk}
    → Implements b d
    → ((n i : ℕ) → n < blk_num → i < blk_size → b n i ≡ c n i)
    → Implements c d
Implements-ext s e = record {
  coherent = s.coherent;
  view = λ n i hn hi. s.view n i hn hi ∙ e n i hn hi;
}

module _ {b : Blocks} {d : Disk} (s : Implements b d) where
  bgetcache-view : (n m i : ℕ) → m < blk_num → i < blk_size → block (bgetcache d n) m i ≡ b m i
  bgetcache-view n m i hm hi = rw (bgetcache-sectors d n) (s.view m i hm hi)

  pub bgetcache-Implements : (n : ℕ) → n < blk_num → Implements b (bgetcache d n)
  bgetcache-Implements n hn = record {
    coherent = bgetcache-Coherent d n s.coherent hn;
    view = λ m i hm hi. bgetcache-view n m i hm hi;
  }

  pub cached-view : (n i : ℕ) → n < blk_num → i < blk_size → cached (bgetcache d n) n i ≡ b n i
  cached-view n i hn hi = ground (arith, bgetcache-cached d n i s.coherent hn hi, s.view n i hn hi)

  -- Writing `new` through the cache puts it on the drive as block `n`.
  flush-Implements :
      (n : ℕ) (new : Bytes)
      → n < blk_num
      → Implements (update b n new) (flush (bgetcache d n) n new)
  flush-Implements n new hn = record {
    coherent =
        flush-Coherent (bgetcache d n) n new (bgetcache-Coherent d n s.coherent hn) hn
          (bgetcache-no d n);
    view = λ m i hm hi.
        ground (arith, flush-block (bgetcache d n) n m i new hn hi, bgetcache-view n m i hm hi);
  }

  -- If the drive with its cache implements the blocks `b`, then a read that stays in the block
  -- succeeds, copies the bytes [off, off + size) of block `n` to the start of `dst` and leaves the
  -- rest of `dst` alone, and the drive still implements `b`.
  pub bread-refines :
      (dst : Bytes) (size n off : ℕ)
      → n < blk_num
      → size + off ≤ blk_size
      → (dst' : Bytes) × (d' : Disk) × (bread d dst size n off ≡ some (dst', d'))
        × Implements b d'
        × ((i : ℕ) → dst' i ≡ paste dst 0 size (λ j. b n (off + j)) i)
  unfolding bread
  bread-refines dst size n off hn h = (
    paste dst 0 size (λ i. cached (bgetcache d n) n (off + i)),
    bgetcache d n,
    rw (in_bounds size off h),
    bgetcache-Implements n hn,
    λ i. ground (arith, cached-view n (off + (i - 0)) hn),
  )

  -- If the drive with its cache implements the blocks `b`, then a write that stays in the block
  -- succeeds, and the drive then implements `b` with the bytes [off, off + size) of block `n`
  -- replaced by those of `src`.
  pub bwrite-refines :
      (src : Bytes) (size n off : ℕ)
      → n < blk_num
      → size + off ≤ blk_size
      → (d' : Disk) × (bwrite d src size n off ≡ some d')
        × Implements (write_block b src size n off) d'
  unfolding bwrite flush
  bwrite-refines src size n off hn h = (
    flush (bgetcache d n) n (paste (cached (bgetcache d n) n) off size src),
    rw (in_bounds size off h),
    Implements-ext (flush-Implements n (paste (cached (bgetcache d n) n) off size src) hn)
        (λ m i hm hi. ground (arith, cached-view n i hn hi)),
  )

  -- If the drive with its cache implements the blocks `b`, then after `bzero` of a block `n` on the
  -- drive it implements `b` with that block all zero and the others left.
  pub bzero-refines : (n : ℕ) → n < blk_num → Implements (update b n (λ _. 0)) (bzero d n)
  unfolding bzero flush
  bzero-refines n hn =
      Implements-ext (flush-Implements n (paste (cached (bgetcache d n) n) 0 blk_size (λ _. 0)) hn)
        (λ m i hm hi. ground arith)
