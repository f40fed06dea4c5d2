-- ===== src/Syscall/Trials.antt =====
-- kernel/src/syscall.c: the theorems on files and on the heap, for a process with one open file.
use tiny_os_qemu.Base.{
  ℕ, ◌-◌, ◌/◌, ◌<◌, ◌≡◌, ◌≢◌, refl, none, some, List, [], ◌∷◌, ◌==◌, if◌then◌else◌, arith, ◌⊎◌,
}
use tiny_os_qemu.Proc.State.{Kernel, Proc, Status, Context, minus_one, max_ufile}
use tiny_os_qemu.Proc.Sem.{sem_init}
use tiny_os_qemu.Proc.Table.{proc_getfile}
use tiny_os_qemu.File.{fopen}
use tiny_os_qemu.File.Tests.{one_open}
use tiny_os_qemu.Vme.{Vm, page_up, page_down}
use tiny_os_qemu.Vme.Tests.{two_free, pages, dir, dir-IsSpace, two_free-Free}
use tiny_os_qemu.Vme.Tables.Map.Range.{IsRanged}
use tiny_os_qemu.Syscall.{Reply, current, sys_dup, sys_close}
use tiny_os_qemu.Syscall.Machine.{Machine, services}
use tiny_os_qemu.Syscall.Files.{sys_brk, sys_open, set_brk}
use tiny_os_qemu.Syscall.Descriptors.{IsLowest, Opens, sys_open-Opens, sys_close-sys_dup}
use tiny_os_qemu.Syscall.Heap.{with_memory, sys_brk-IsRanged}

-- Descriptor 0 is the open file; the break is where user programs are linked.
abbrev only : Proc
only = record {
  pid = 1;
  status = Status.running;
  pgdir = dir;
  brk = 134512640;
  kstack = 0;
  ctx = Context.user 0;
  parent = none;
  child_num = 0;
  exit_code = 0;
  zombie_sem = sem_init 0;
  usems = λ _. none;
  files = λ i. if i == 0 then some 0 else none;
  cwd = some 0;
}

abbrev kernel : Kernel Machine
kernel = record {
  pcb = λ _. only;
  curr = 0;
  next_pid = 2;
  user_sem = λ _. record { sem = sem_init 0; ref = 0 };
  free_nodes = 256;
  rest = record { opened = one_open; memory = two_free };
}

sys_open-Opens_example :
    (((j : ℕ) → j < max_ufile → (current kernel).files j ≢ none)
      × (sys_open (λ _. 0) (97 ∷ []) 0 kernel ≡ some (Reply.returned minus_one, kernel)))
    ⊎ ((n : ℕ) × IsLowest (current kernel).files n
        × Opens kernel n
            (fopen (λ _. 0) (some 0) (97 ∷ []) 0 one_open)
            (sys_open (λ _. 0) (97 ∷ []) 0 kernel))
sys_open-Opens_example = sys_open-Opens (λ _. 0) (97 ∷ []) 0 kernel

sys_close-sys_dup_example :
    (n : ℕ) × (t : Kernel Machine) × (u : Kernel Machine) × IsLowest (current kernel).files n
    × (sys_dup (services 1052672) 0 kernel ≡ some (Reply.returned n, t))
    × ((current t).files n ≡ some 0)
    × (sys_close (services 1052672) n t ≡ some (Reply.returned 0, u))
    × ((i : ℕ) → (current u).files i ≡ (current kernel).files i)
    × ((g : ℕ) → u.rest.opened.files g ≡ one_open.files g)
    × (u.rest.opened.fs ≡ one_open.fs)
unfolding proc_getfile
sys_close-sys_dup_example =
    sys_close-sys_dup 1052672 0 0 1 kernel refl (λ e. absurd (omega arith)) (omega arith)
      (omega arith) refl

-- 100 bytes above the break: one page.
sys_brk-IsRanged_example :
    (t : Vm) × (gs : List ℕ) × (sys_brk 134512740 kernel
      ≡ some (Reply.returned 0, set_brk (page_up 134512740) (with_memory t kernel)))
    × IsRanged two_free t
        (page_down dir)
        134512640
        ((page_up 134512740 - 134512640) / 4096)
        7
        pages
        gs
sys_brk-IsRanged_example =
    sys_brk-IsRanged 134512740 kernel pages refl (omega arith) (omega arith) dir-IsSpace
      two_free-Free (omega arith)
