-- ===== src/Proc/Table.antt =====
-- kernel/src/proc.c: the process table and the scheduler. `set_cr3`, `set_tss` and `irq_iret` of
-- `proc_run` are hardware; what then runs is the context of the new current process.
use tiny_os_qemu.Base.{
  ℕ, zero, suc, ◌+◌, ◌-◌, Bool, false, ◌&&◌, Option, none, some, ltb, ◌==◌, if◌then◌else◌, update,
}
use tiny_os_qemu.Base.Exec.{Exec, pure, ◌>>=◌, ◌>>◌, get, modify, for_range}
use tiny_os_qemu.Proc.State.{
  Kernel, Status, Proc, Context, Services, same_status, set_status, set_proc, inc, call, proc_num,
  max_usem, max_ufile,
}
use tiny_os_qemu.Proc.Sem.{SemRef, sem_init, sem_v, usem_dup, usem_close}

-- `p == q` for a pointer that may be NULL and the index of a process.
abbrev pub points_to : Option ℕ → ℕ → Bool
points_to none i = false
points_to (some p) i = p == i

-- The step of `proc` in `schedule`.
abbrev pub slot_after : ℕ → ℕ
slot_after i = if i == proc_num - 1 then 0 else i + 1

-- What `proc_alloc` sets after the pages are there.
abbrev blank : ℕ → ℕ → Proc → Proc
blank pgdir kstack p = record p {
  pgdir = pgdir;
  brk = 0;
  kstack = kstack;
  ctx = Context.user 0;
  parent = none;
  child_num = 0;
  zombie_sem = sem_init 0;
  cwd = none;
  usems = λ j. if ltb j max_usem then none else p.usems j;
  files = λ j. if ltb j max_ufile then none else p.files j;
}

abbrev pub is_zombie_of : ℕ → Proc → Bool
is_zombie_of i p = points_to p.parent i && same_status p.status Status.zombie

module _ {S : Type 0} where
  -- A scan of `pcb` from `i` on, with `n` slots left.
  unfoldable pub find_slot : (Proc → Bool) → ℕ → ℕ → Kernel S → Option ℕ
  find_slot test zero i k = none
  find_slot test (suc n) i k =
      let later = find_slot test n (suc i) k in if test (k.pcb i) then some i else later

  unfoldable pub proc_free : Services S → ℕ → Exec (Kernel S) (Unit {0})
  proc_free v i k =
      let p = k.pcb i in
      if same_status p.status Status.running
      then some (tt, k)
      else (do
        call (v.vm_teardown p.pgdir)
        call (v.kfree p.kstack)
        modify (set_status i Status.unused))
          k

  -- `exit_code` keeps the value of the slot's last process.
  unfoldable pub claim : Services S → ℕ → Exec (Kernel S) (Option ℕ)
  claim v i = do
    modify (λ k. record k {
      pcb = update k.pcb i (record (k.pcb i) { pid = k.next_pid; status = Status.uninit });
      next_pid = inc k.next_pid;
    })
    pgdir ← call v.vm_alloc
    kstack ← call v.kalloc
    modify (λ k. set_proc i (blank pgdir kstack (k.pcb i)) k)
    pure (some i)

  unfoldable pub proc_alloc : Services S → Exec (Kernel S) (Option ℕ)
  proc_alloc v k = elim (find_slot (λ p. same_status p.status Status.unused) (proc_num - 1) 1 k) [
    | none ↦ some (none, k)
    | some i ↦ claim v i k
  ]

  unfoldable pub proc_run : ℕ → Kernel S → Kernel S
  proc_run i k = record (set_status i Status.running k) { curr = i }

  -- The loop of `schedule`, from the slot before; `none` after a whole round without a READY
  -- process: the loop never ends, since nothing changes while it runs.
  unfoldable pub next_ready : ℕ → ℕ → Kernel S → Option ℕ
  next_ready zero i k = none
  next_ready (suc n) i k =
      let later = next_ready n (slot_after i) k in
      if same_status (k.pcb (slot_after i)).status Status.ready then some (slot_after i) else later

  unfoldable pub schedule : Context → Exec (Kernel S) (Unit {0})
  schedule ctx k =
      let k' = set_proc k.curr (record (k.pcb k.curr) { ctx = ctx }) k in
      elim (next_ready proc_num k.curr k') [ none ↦ none | some j ↦ some (tt, proc_run j k') ]

  unfoldable pub proc_addready : ℕ → Kernel S → Kernel S
  proc_addready i = set_status i Status.ready

  -- `int $0x81` enters `schedule` with the context behind it.
  unfoldable pub proc_yield : Context → Exec (Kernel S) (Unit {0})
  proc_yield ctx k = schedule ctx (set_status k.curr Status.ready k)

  unfoldable pub proc_block : Context → Exec (Kernel S) (Unit {0})
  proc_block ctx k = schedule ctx (set_status k.curr Status.blocked k)

  unfoldable pub dup_usem : ℕ → ℕ → Exec (Kernel S) (Unit {0})
  dup_usem i j k = elim ((k.pcb k.curr).usems j) [
    | none ↦ some (tt, k)
    | some u ↦
        let k' = usem_dup u k in
        let p = k'.pcb i in
        some (tt, set_proc i (record p { usems = update p.usems j (some u) }) k')
  ]

  unfoldable pub dup_file : Services S → ℕ → ℕ → Exec (Kernel S) (Unit {0})
  dup_file v i j k = elim ((k.pcb k.curr).files j) [
    | none ↦ some (tt, k)
    | some f ↦
        (do
          g ← call (v.fdup f)
          modify
              (λ t. set_proc i (record (t.pcb i) { files = update (t.pcb i).files j (some g) }) t))
          k
  ]

  -- `idup` asserts that its argument is not NULL.
  unfoldable pub dup_cwd : Services S → ℕ → Exec (Kernel S) (Unit {0})
  dup_cwd v i k = elim (k.pcb k.curr).cwd [
    | none ↦ none
    | some c ↦
        (do d ← call (v.idup c); modify (λ t. set_proc i (record (t.pcb i) { cwd = some d }) t)) k
  ]

  -- The child's saved context is the parent's with 0 in EAX.
  unfoldable pub adopt : ℕ → Kernel S → Kernel S
  adopt i k =
      let k' = set_proc i (record (k.pcb i) { ctx = Context.user 0; parent = some k.curr }) k in
      let c = k'.pcb k'.curr in set_proc k'.curr (record c { child_num = inc c.child_num }) k'

  unfoldable pub proc_copycurr : Services S → ℕ → Exec (Kernel S) (Unit {0})
  proc_copycurr v i = do
    k ← get
    call (v.vm_copycurr (k.pcb i).pgdir)
    modify (adopt i)
    for_range max_usem 0 (dup_usem i)
    for_range max_ufile 0 (dup_file v i)
    dup_cwd v i

  -- Children of `i` lose their parent.
  unfoldable pub orphan : ℕ → Kernel S → Kernel S
  orphan i k = record k {
    pcb = λ j.
        if ltb j proc_num && points_to (k.pcb j).parent i
        then record (k.pcb j) { parent = none }
        else k.pcb j;
  }

  unfoldable pub wake_parent : ℕ → Exec (Kernel S) (Unit {0})
  wake_parent i k = elim (k.pcb i).parent [
    | none ↦ some (tt, k)
    | some p ↦ elim (sem_v (SemRef.zombie_of p) k) [ none ↦ none | some t ↦ some (tt, t) ]
  ]

  unfoldable pub close_usem : ℕ → ℕ → Exec (Kernel S) (Unit {0})
  close_usem i j k = elim ((k.pcb i).usems j) [
    | none ↦ some (tt, k)
    | some u ↦ some (tt, usem_close u k)
  ]

  unfoldable pub close_file : Services S → ℕ → ℕ → Exec (Kernel S) (Unit {0})
  close_file v i j k = elim ((k.pcb i).files j) [
    | none ↦ some (tt, k)
    | some f ↦ call (v.fclose f) k
  ]

  unfoldable pub close_cwd : Services S → ℕ → Exec (Kernel S) (Unit {0})
  close_cwd v i k = elim (k.pcb i).cwd [ none ↦ some (tt, k) | some c ↦ call (v.iclose c) k ]

  unfoldable pub proc_makezombie : Services S → ℕ → ℕ → Exec (Kernel S) (Unit {0})
  proc_makezombie v i exitcode = do
    modify (λ k. set_proc i (record (k.pcb i) { status = Status.zombie; exit_code = exitcode }) k)
    wake_parent i
    modify (orphan i)
    for_range max_usem 0 (close_usem i)
    for_range max_ufile 0 (close_file v i)
    close_cwd v i

  unfoldable pub proc_findzombie : ℕ → Kernel S → Option ℕ
  proc_findzombie i k = find_slot (is_zombie_of i) proc_num 0 k

-- The first NULL of a table of pointers from `i` on, with `n` places left.
unfoldable pub find_null : ℕ → ℕ → (ℕ → Option ℕ) → Option ℕ
find_null zero i f = none
find_null (suc n) i f =
    let later = find_null n (suc i) f in elim (f i) [ none ↦ some i | some _ ↦ later ]

-- `none` is the result -1.
unfoldable pub proc_allocusem : Proc → Option ℕ
proc_allocusem p = find_null max_usem 0 p.usems

unfoldable pub proc_allocfile : Proc → Option ℕ
proc_allocfile p = find_null max_ufile 0 p.files

-- `sem_id` is the pattern of an int: a negative one is out of bounds too.
unfoldable pub proc_getusem : Proc → ℕ → Option ℕ
proc_getusem p sem_id = if ltb sem_id max_usem then p.usems sem_id else none

unfoldable pub proc_getfile : Proc → ℕ → Option ℕ
proc_getfile p fd = if ltb fd max_ufile then p.files fd else none
