-- ===== src/Fs/Tests.antt =====
-- kernel/src/fs.c: runs on a small drive, and the theorems there.
use tiny_os_qemu.Base.{
  ℕ, zero, suc, ◌+◌, ◌<◌, ◌≡◌, ◌≢◌, refl, none, some, List, [], ◌∷◌, ◌⊎◌, arith, ◌/◌,
}
use tiny_os_qemu.Base.Exec.{Post}
use tiny_os_qemu.Disk.Sectors.{block}
use tiny_os_qemu.Disk.Store.{Implements, Blocks}
use tiny_os_qemu.Disk.Tests.{cold, cold-Implements}
use tiny_os_qemu.Fs.State.{Fs, Dinode, iperblk}
use tiny_os_qemu.Fs.Blocks.{diread, diwrite, empty_dinode}
use tiny_os_qemu.Fs.Blocks.Inode.{SameDinode, IsDinode, dinode_at, diread-refines, diwrite-refines}
use tiny_os_qemu.Fs.Inodes.{iget}
use tiny_os_qemu.Fs.Inodes.Active.{IsUnique, IsGot, iget-IsGot}
use tiny_os_qemu.Fs.Paths.{skipelem, skip_slashes, span_name, take}
use tiny_os_qemu.Fs.Paths.Elements.{Slashes, IsElement, skipelem-IsElement}

-- Inode blocks from 34 on; inode 70 is active in entry 0.
abbrev small : Fs
small = record {
  disk = cold;
  sb = record { bitmap = 33; istart = 34; inum = 1024; root = 1 };
  inodes = λ i. record {
    no = 70;
    ref = elim i [ zero ↦ 1 | suc _ ↦ 0 ];
    del = 0;
    dinode = empty_dinode;
  };
}

-- A file of 5000 bytes in blocks 64 and 65.
abbrev a_file : Dinode
a_file = record {
  type_of = 1;
  device = 0;
  size = 5000;
  addrs = λ k. elim k [ zero ↦ 64 | suc _ ↦ 65 ];
}

a_file-IsDinode : IsDinode a_file
a_file-IsDinode = record { words = λ k h. ground arith }

small-IsUnique : IsUnique small
small-IsUnique = record { once = λ i j nr hi hj a b. ground arith }

-- "//ab/c" is split into "ab" and "c".
skips : skipelem (47 ∷ 47 ∷ 97 ∷ 98 ∷ 47 ∷ 99 ∷ []) ≡ some (97 ∷ 98 ∷ [], 99 ∷ [])
unfolding skipelem skip_slashes span_name take
skips = refl

skipelem-IsElement_example :
    ((skipelem (47 ∷ 97 ∷ []) ≡ none) × Slashes (47 ∷ 97 ∷ []))
    ⊎ ((name rest : List ℕ) × (skipelem (47 ∷ 97 ∷ []) ≡ some (name, rest))
        × IsElement (47 ∷ 97 ∷ []) name rest)
skipelem-IsElement_example = skipelem-IsElement (47 ∷ 97 ∷ [])

diread-refines_example :
    Post
      (λ d t.
        SameDinode d (dinode_at (block cold) small 70)
        × Implements (block cold) t.disk
        × (t.sb ≡ small.sb)
        × (t.inodes ≡ small.inodes))
      (diread 70 small)
diread-refines_example = diread-refines (block cold) small 70 cold-Implements (omega arith)

diwrite-refines_example :
    Post
      (λ _ t.
        (b' : Blocks) × Implements b' t.disk
        × (t.sb ≡ small.sb)
        × SameDinode (dinode_at b' small 70) a_file
        × ((m : ℕ)
            → m ≢ 70
            → 34 + m / iperblk < 4294967296
            → SameDinode (dinode_at b' small m) (dinode_at (block cold) small m)))
      (diwrite a_file 70 small)
diwrite-refines_example =
    diwrite-refines (block cold) small 70 a_file cold-Implements (omega arith) (omega arith)
      a_file-IsDinode

iget-IsGot_example : Post (IsGot (block cold) small 3) (iget 3 small)
iget-IsGot_example =
    iget-IsGot (block cold) small 3 5 small-IsUnique cold-Implements (omega arith) (omega arith)
      refl
