-- ===== src/Proc/State.antt =====
-- kernel/include/proc.h and kernel/include/sem.h: the state that proc.c and sem.c keep.
use tiny_os_qemu.Base.{
  ℕ, ◌+◌, ◌-◌, ◌%◌, ◌^◌, Bool, true, false, Option, none, some, List, leb, update,
}
use tiny_os_qemu.Base.Exec.{Exec}

abbrev pub proc_num : ℕ
proc_num = 64

abbrev pub max_usem : ℕ
max_usem = 32

abbrev pub max_ufile : ℕ
max_ufile = 32

abbrev pub user_sem_num : ℕ
user_sem_num = 128

-- `LIST_NUM` of list.c, whose nodes all wait lists share
abbrev pub list_num : ℕ
list_num = 256

-- An `int` is its 32-bit pattern.
abbrev pub inc : ℕ → ℕ
inc v = (v + 1) % 2 ^ 32

abbrev pub dec : ℕ → ℕ
dec v = (v + 2 ^ 32 - 1) % 2 ^ 32

abbrev pub is_negative : ℕ → Bool
is_negative v = leb (2 ^ 31) v

-- The int -1.
abbrev pub minus_one : ℕ
minus_one = 2 ^ 32 - 1

pub data Status : Type 0 where
  unused uninit running ready zombie blocked : Status

abbrev pub same_status : Status → Status → Bool
same_status Status.unused Status.unused = true
same_status Status.uninit Status.uninit = true
same_status Status.running Status.running = true
same_status Status.ready Status.ready = true
same_status Status.zombie Status.zombie = true
same_status Status.blocked Status.blocked = true
same_status _ _ = false

-- A wait list holds indices of the process table, the longest waiting first: the order in which
-- `list_dequeue` takes them.
pub record Sem : Type 0 where
  pub value : ℕ
  pub wait_list : List ℕ

pub record Usem : Type 0 where
  pub sem : Sem
  pub ref : ℕ

-- Where a saved context goes on: in user code with a value in EAX, or in the kernel, behind the
-- `sem_p` of a system call.
pub data Context : Type 0 where
  user : (eax : ℕ) → Context
  in_wait : Context
  in_sem_p : (usem : ℕ) → Context

-- Pointers are indices: of `pcb`, of `user_sem`, of the open files, of the active inodes.
pub record Proc : Type 0 where
  pub pid : ℕ
  pub status : Status
  pub pgdir : ℕ
  pub brk : ℕ
  pub kstack : ℕ
  pub ctx : Context
  pub parent : Option ℕ
  pub child_num : ℕ
  pub exit_code : ℕ
  pub zombie_sem : Sem
  pub usems : ℕ → Option ℕ
  pub files : ℕ → Option ℕ
  pub cwd : Option ℕ

-- The state of proc.c, sem.c and of the nodes of list.c, over that of the services.
pub record Kernel (S : Type 0) : Type 0 where
  pub pcb : ℕ → Proc
  pub curr : ℕ
  pub next_pid : ℕ
  pub user_sem : ℕ → Usem
  pub free_nodes : ℕ
  pub rest : S

-- What proc.c calls in vme.c, file.c and fs.c.
pub record Services (S : Type 0) : Type 0 where
  pub vm_alloc : Exec S ℕ
  pub kalloc : Exec S ℕ
  pub kfree : ℕ → Exec S (Unit {0})
  pub vm_teardown : ℕ → Exec S (Unit {0})
  pub vm_copycurr : ℕ → Exec S (Unit {0})
  pub fdup : ℕ → Exec S ℕ
  pub fclose : ℕ → Exec S (Unit {0})
  pub idup : ℕ → Exec S ℕ
  pub iclose : ℕ → Exec S (Unit {0})

module _ {S : Type 0} where
  abbrev pub set_proc : ℕ → Proc → Kernel S → Kernel S
  set_proc i p k = record k { pcb = update k.pcb i p }

  abbrev pub set_status : ℕ → Status → Kernel S → Kernel S
  set_status i s k = set_proc i (record (k.pcb i) { status = s }) k

  -- A call of a service leaves the kernel's own state alone.
  abbrev pub call : {A : Type 0} → Exec S A → Exec (Kernel S) A
  call m k = elim (m k.rest) [ none ↦ none | some (a, s) ↦ some (a, record k { rest = s }) ]
