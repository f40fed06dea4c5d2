-- ===== src/Disk/Tests.antt =====
-- kernel/src/disk.c: a small drive, runs on it, and the theorems there.
use tiny_os_qemu.Base.{ℕ, ◌+◌, ◌*◌, ◌%◌, ◌≡◌, refl, Bytes, paste, Option, some, none, arith}
use tiny_os_qemu.Disk.{Disk, bread, bwrite, bgetcache, copy_to_disk, copy_from_disk}
use tiny_os_qemu.Disk.Sectors.{block}
use tiny_os_qemu.Disk.Store.{Implements, write_block, bread-refines, bwrite-refines}

-- Sector `s` holds `s`, `s + 1`, ...; nothing is cached.
abbrev pub cold : Disk
cold = record {
  sectors = λ s j. (s + j) % 256;
  blk_cache = λ k. record { valid = 0; no = 0; buf = λ i. 0 };
}

pub cold-Implements : Implements (block cold) cold
cold-Implements = record { coherent = λ k hk v. absurd (v refl); view = λ n i hn hi. refl }

-- Block 56 shares an entry with block 40.
read_back : Disk → Option ℕ
unfolding bread bwrite bgetcache copy_to_disk copy_from_disk
read_back d = elim (bwrite d (λ i. 7 + i) 4 40 100) [
  | none ↦ none
  | some e ↦ elim (bread e (λ _. 0) 4 56 0) [
    | none ↦ none
    | some (_, f) ↦ elim (bread f (λ _. 0) 4 40 102) [
      | none ↦ none
      | some (b, _) ↦ some (b 0 * 256 + b 1)
    ]
  ]
]

read_back_runs : read_back cold ≡ some (9 * 256 + 10)
unfolding read_back
read_back_runs = refl

bread-refines_example :
    (dst' : Bytes) × (d' : Disk) × (bread cold (λ _. 0) 8 40 4000 ≡ some (dst', d'))
    × Implements (block cold) d'
    × ((i : ℕ) → dst' i ≡ paste (λ _. 0) 0 8 (λ j. block cold 40 (4000 + j)) i)
bread-refines_example = bread-refines cold-Implements (λ _. 0) 8 40 4000 (omega arith) (omega arith)

bwrite-refines_example :
    (d' : Disk) × (bwrite cold (λ i. i) 8 40 4000 ≡ some d')
    × Implements (write_block (block cold) (λ i. i) 8 40 4000) d'
bwrite-refines_example =
    bwrite-refines cold-Implements (λ i. i) 8 40 4000 (omega arith) (omega arith)
