-- ===== src/Disk/Cache.antt =====
-- kernel/src/disk.c, the block cache, against an abstract store of blocks.
use tiny_os_qemu.Base.{
  ℕ, ◌%◌, ◌<◌, ◌≡◌, ◌≢◌, refl, Bytes, update, arith, ◌==◌, if◌then◌else◌, Bool-cases, inl, inr,
  false, ap, ◌∙◌, ==_iff,
}
use mathlib.Core.Path.{subst}
use tiny_os_qemu.Disk.{
  Disk, Bcache, bcache_num, blk_size, bgetcache, fill, cached, set_cached, copy_to_disk, blk_offset,
  misses,
}
use tiny_os_qemu.Disk.Sectors.{
  block, copy_from_disk-block, copy_to_disk-block, copy_to_disk-blk_cache,
}

-- `BLK_NUM` of fs.c: blocks on the drive
abbrev pub blk_num : ℕ
blk_num = 32768

-- What entry `k` holds, if it is valid: a block of its own residue, as it is on the drive.
abbrev EntryAgrees : Disk → ℕ → Bcache → Type 0
EntryAgrees d k bc =
    bc.valid ≢ 0
    → (bc.no % bcache_num ≡ k)
      × (bc.no < blk_num)
      × ((i : ℕ) → i < blk_size → bc.buf i ≡ block d bc.no i)

abbrev pub Coherent : Disk → Type 0
Coherent d = (k : ℕ) → k < bcache_num → EntryAgrees d k (d.blk_cache k)

fill-EntryAgrees :
    (d : Disk) (n : ℕ) (bc : Bcache) → n < blk_num → EntryAgrees d (n % bcache_num) (fill d n bc)
fill-EntryAgrees d n bc h _ = (refl, h, λ i. copy_from_disk-block d bc.buf n i h)

pub bgetcache-sectors : (d : Disk) (n : ℕ) → (bgetcache d n).sectors ≡ d.sectors
unfolding bgetcache
bgetcache-sectors d n = ground arith

hit_valid : (bc : Bcache) (n : ℕ) → misses bc n ≡ false → (bc.valid ≢ 0) × (bc.no ≡ n)
hit_valid bc n h = ground arith

agrees_at :
    (d : Disk) (k n i : ℕ) (bc : Bcache)
    → EntryAgrees d k bc
    → misses bc n ≡ false
    → i < blk_size
    → bc.buf i ≡ block d n i
agrees_at d k n i bc a h hi =
    let (valid, same) = hit_valid bc n h in (a valid).2 i hi ∙ ap (λ m. block d m i) same

pub bgetcache-cached :
    (d : Disk) (n i : ℕ)
    → Coherent d
    → n < blk_num
    → i < blk_size
    → cached (bgetcache d n) n i ≡ block d n i
unfolding bgetcache
bgetcache-cached d n i c hn hi =
    let bc = d.blk_cache (n % bcache_num) in
    elim (Bool-cases (misses bc n)) [
      | inl e ↦ rw e (ground (arith, copy_from_disk-block d bc.buf n i hn hi))
      | inr e ↦ rw e (agrees_at d (n % bcache_num) n i bc (c (n % bcache_num) (omega arith)) e hi)
    ]

-- A new entry in its place keeps the cache coherent.
update-Coherent :
    (d : Disk) (n : ℕ) (bc : Bcache)
    → Coherent d
    → EntryAgrees d (n % bcache_num) bc
    → Coherent (record d { blk_cache = update d.blk_cache (n % bcache_num) bc })
update-Coherent d n bc c a k hk = elim (Bool-cases (n % bcache_num == k)) [
  | inl e ↦ rw e (subst (λ x. EntryAgrees d x bc) ((==_iff _ k).0 e) a)
  | inr e ↦ rw e (c k hk)
]

pub bgetcache-Coherent : (d : Disk) (n : ℕ) → Coherent d → n < blk_num → Coherent (bgetcache d n)
unfolding bgetcache
bgetcache-Coherent d n c hn =
    let bc = d.blk_cache (n % bcache_num) in
    elim (Bool-cases (misses bc n)) [
      | inl e ↦ rw e (update-Coherent d n (fill d n bc) c (fill-EntryAgrees d n bc hn))
      | inr e ↦ rw e c
    ]

pub bgetcache-no : (d : Disk) (n : ℕ) → ((bgetcache d n).blk_cache (n % bcache_num)).no ≡ n
unfolding bgetcache
bgetcache-no d n = ground arith

-- The write-through step of `bwrite` and `bzero`.
unfoldable pub flush : Disk → ℕ → Bytes → Disk
flush d n b = copy_to_disk (set_cached d n b) b blk_size (blk_offset n)

pub flush-block :
    (d : Disk) (n m i : ℕ) (b : Bytes)
    → n < blk_num
    → i < blk_size
    → block (flush d n b) m i ≡ (if n == m then b i else block d m i)
unfolding flush
flush-block d n m i b hn hi = copy_to_disk-block (set_cached d n b) b n m i hn hi

flush-entry :
    (d : Disk) (n k : ℕ) (b : Bytes) → (flush d n b).blk_cache k ≡ (set_cached d n b).blk_cache k
unfolding flush
flush-entry d n k b = ap (λ (f : ℕ → Bcache). f k) (copy_to_disk-blk_cache (set_cached d n b) b _ _)

-- An entry of another residue holds another block, which the write leaves alone.
flush-EntryAgrees_ne :
    (d : Disk) (n k : ℕ) (b : Bytes) (bc : Bcache)
    → n < blk_num
    → n % bcache_num ≢ k
    → EntryAgrees d k bc
    → EntryAgrees (flush d n b) k bc
flush-EntryAgrees_ne d n k b bc hn ne a v =
    let (r, lt, same) = a v in
    (r, lt, λ i hi. ground (arith, flush-block d n bc.no i b hn hi, same i hi))

flush-EntryAgrees_self :
    (d : Disk) (n : ℕ) (b : Bytes) (bc : Bcache)
    → n < blk_num
    → bc.no ≡ n
    → EntryAgrees (flush d n b) (n % bcache_num) (record bc { buf = b })
flush-EntryAgrees_self d n b bc hn e v =
    (ground arith, ground arith, λ i hi. ground (arith, flush-block d n bc.no i b hn hi))

pub flush-Coherent :
    (d : Disk) (n : ℕ) (b : Bytes)
    → Coherent d
    → n < blk_num
    → (d.blk_cache (n % bcache_num)).no ≡ n
    → Coherent (flush d n b)
flush-Coherent d n b c hn e k hk =
    rw (flush-entry d n k b) (elim (Bool-cases (n % bcache_num == k)) [
      | inl at ↦ rw at (
          subst
            (λ x. EntryAgrees (flush d n b) x (record (d.blk_cache (n % bcache_num)) { buf = b }))
            ((==_iff _ k).0 at) (flush-EntryAgrees_self d n b (d.blk_cache (n % bcache_num)) hn e))
      | inr off ↦
          rw off (flush-EntryAgrees_ne d n k b (d.blk_cache k) hn (λ q. ground arith) (c k hk))
    ])
