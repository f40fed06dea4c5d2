-- ===== src/Syscall/Files.antt =====
-- kernel/src/syscall.c: the system calls on files, directories and the heap of a process. What is read
-- from user memory is an argument, what is written to it is part of the result.
use tiny_os_qemu.Base.{ℕ, ◌-◌, Option, none, some, List, Bytes, update, ltb, ◌==◌, if◌then◌else◌}
use tiny_os_qemu.Base.Exec.{Exec, pure, ◌>>=◌, ◌>>◌, get, modify}
use tiny_os_qemu.Proc.State.{Kernel, call, set_proc, minus_one}
use tiny_os_qemu.Proc.Table.{proc_getfile, proc_allocfile}
use tiny_os_qemu.Fs.State.{type_none, type_dir, type_dev}
use tiny_os_qemu.Fs.Inodes.{itype, size_of, ino, iclose}
use tiny_os_qemu.Fs.Paths.{iopen, iremove}
use tiny_os_qemu.File.{Files, Devices, fread, fwrite, fseek, fopen, in_fs, type_file}
use tiny_os_qemu.Vme.{page_up}
use tiny_os_qemu.Vme.Tables.{vm_curr, vm_map, vm_unmap}
use tiny_os_qemu.Syscall.{Reply, current, fails}
use tiny_os_qemu.Syscall.Machine.{Machine, on_files, on_memory}

abbrev pub in_files : {A : Type 0} → Exec Files A → Exec (Kernel Machine) A
in_files m = call (on_files m)

abbrev pub set_fd : ℕ → Option ℕ → Kernel Machine → Kernel Machine
set_fd fd f k = set_proc k.curr (record (current k) { files = update (current k).files fd f }) k

abbrev pub set_brk : ℕ → Kernel Machine → Kernel Machine
set_brk b k = set_proc k.curr (record (current k) { brk = b }) k

unfoldable pub sys_write : Devices → ℕ → Bytes → ℕ → Exec (Kernel Machine) Reply
sys_write v fd buf count k = elim (proc_getfile (current k) fd) [
  | none ↦ fails k
  | some f ↦ (do n ← in_files (fwrite v f buf count); pure (Reply.returned n)) k
]

-- With the bytes at `buf` behind the call.
unfoldable pub sys_read : Devices → ℕ → Bytes → ℕ → Exec (Kernel Machine) (Reply × Bytes)
sys_read v fd buf count k = elim (proc_getfile (current k) fd) [
  | none ↦ some ((Reply.returned minus_one, buf), k)
  | some f ↦ (do got ← in_files (fread v f buf count); pure (Reply.returned got.0, got.1)) k
]

-- The heap grows by the pages up to `new_brk`.
unfoldable pub grow_heap : ℕ → ℕ → Exec (Kernel Machine) (Unit {0})
grow_heap brk new_brk = do
  pgdir ← call (on_memory vm_curr)
  call (on_memory (vm_map pgdir brk (new_brk - brk) 7))
  modify (set_brk new_brk)

unfoldable pub shrink_heap : ℕ → ℕ → Exec (Kernel Machine) (Unit {0})
shrink_heap brk new_brk = do
  pgdir ← call (on_memory vm_curr)
  call (on_memory (vm_unmap pgdir new_brk (brk - new_brk)))
  modify (set_brk new_brk)

unfoldable pub move_brk : ℕ → ℕ → Exec (Kernel Machine) (Unit {0})
move_brk brk new_brk =
    if brk == 0
    then modify (set_brk new_brk)
    else if ltb brk new_brk
    then grow_heap brk new_brk
    else if ltb new_brk brk
    then shrink_heap brk new_brk
    else pure tt

unfoldable pub sys_brk : ℕ → Exec (Kernel Machine) Reply
sys_brk addr k = (move_brk (current k).brk (page_up addr) >> pure (Reply.returned 0)) k

-- `junk` is what `fopen` finds on the stack.
unfoldable pub sys_open : Bytes → List ℕ → ℕ → Exec (Kernel Machine) Reply
sys_open junk path mode k = elim (proc_allocfile (current k)) [
  | none ↦ fails k
  | some fd ↦
      (do
        file ← in_files (fopen junk (current k).cwd path mode)
        elim file [
          | none ↦ fails
          | some f ↦ modify (set_fd fd (some f)) >> pure (Reply.returned fd)
        ])
        k
]

unfoldable pub sys_lseek : ℕ → ℕ → ℕ → Exec (Kernel Machine) Reply
sys_lseek fd off whence k = elim (proc_getfile (current k) fd) [
  | none ↦ fails k
  | some f ↦ (do o ← in_files (fseek f off whence); pure (Reply.returned o)) k
]

pub record Stat : Type 0 where
  pub type_of : ℕ
  pub size : ℕ
  pub node : ℕ

-- What `sys_fstat` writes to `*st`; for a file of another type nothing.
abbrev pub stat_of : ℕ → Files → Option Stat
stat_of f s =
    let x = s.files f in
    if x.type_of == type_file
    then some (record {
      type_of = itype x.inode s.fs;
      size = size_of x.inode s.fs;
      node = ino x.inode s.fs;
    })
    else if x.type_of == type_dev
    then some (record { type_of = type_dev; size = 0; node = 0 })
    else none

unfoldable pub sys_fstat : ℕ → Exec (Kernel Machine) (Reply × Option Stat)
sys_fstat fd k = elim (proc_getfile (current k) fd) [
  | none ↦ some ((Reply.returned minus_one, none), k)
  | some f ↦ some ((Reply.returned 0, stat_of f k.rest.opened), k)
]

-- `iclose` of a directory that is NULL faults.
unfoldable pub enter_dir : ℕ → Exec (Kernel Machine) Reply
enter_dir i k = elim (current k).cwd [
  | none ↦ none
  | some old ↦
      (do
        in_files (in_fs (iclose old))
        modify (λ t. set_proc t.curr (record (current t) { cwd = some i }) t)
        pure (Reply.returned 0))
        k
]

unfoldable pub sys_chdir : Bytes → List ℕ → Exec (Kernel Machine) Reply
sys_chdir junk path k =
    (do
      got ← in_files (in_fs (iopen junk (current k).cwd path type_none))
      elim got [
        | none ↦ fails
        | some i ↦ do
          t ← get
          if itype i t.rest.opened.fs == type_dir
              then enter_dir i
              else (in_files (in_fs (iclose i)) >> fails)
      ])
      k

unfoldable pub sys_unlink : Bytes → List ℕ → Exec (Kernel Machine) Reply
sys_unlink junk path k =
    (do n ← in_files (in_fs (iremove junk (current k).cwd path)); pure (Reply.returned n)) k
