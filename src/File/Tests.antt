-- ===== src/File/Tests.antt =====
-- kernel/src/file.c: runs on a table with one open file, and the theorems there.
use tiny_os_qemu.Base.{ℕ, zero, suc, ◌≡◌, refl, true, false, Option, none, some, arith}
use tiny_os_qemu.Base.Exec.{Post, ◌>>=◌}
use tiny_os_qemu.Disk.Tests.{cold}
use tiny_os_qemu.Fs.Blocks.{empty_dinode}
use tiny_os_qemu.File.{Files, fclose, fdup, fseek}
use tiny_os_qemu.File.Table.{fclose-fdup}

-- Entry 0 is open at offset 10.
abbrev pub one_open : Files
one_open = record {
  fs = record {
    disk = cold;
    sb = record { bitmap = 33; istart = 34; inum = 1024; root = 1 };
    inodes = λ i. record { no = 70; ref = 1; del = 0; dinode = empty_dinode };
  };
  files = λ f. record {
    type_of = 1;
    ref = elim f [ zero ↦ 1 | suc _ ↦ 0 ];
    readable = true;
    writable = false;
    inode = 0;
    offset = 10;
    dev_op = none;
  };
}

offset_after : Option (ℕ × Files) → ℕ
offset_after none = 0
offset_after (some (o, s)) = (s.files 0).offset

-- SEEK_CUR adds, and the sum may be larger than the file.
seeks : offset_after (fseek 0 90 1 one_open) ≡ 100
unfolding fseek offset_after
seeks = refl

fclose-fdup_example :
    Post
      (λ _ t. ((j : ℕ) → t.files j ≡ one_open.files j) × (t.fs ≡ one_open.fs))
      ((fdup 0 >>= fclose) one_open)
fclose-fdup_example = fclose-fdup 0 one_open (λ e. absurd (omega arith)) (omega arith)
