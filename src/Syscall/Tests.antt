-- ===== src/Syscall/Tests.antt =====
-- kernel/src/syscall.c: runs on a small process table, and the theorems there.
use tiny_os_qemu.Base.{
  ℕ, suc, ◌≡◌, refl, true, Option, some, none, ◌==◌, if◌then◌else◌, arith, sym, ◌⊎◌, inl, inr, ◌≤◌,
  ◌<◌, ◌≢◌, ◌+◌, ◌*◌, ◌%◌, ap, ◌∙◌, [], ◌∷◌,
}
use mathlib.Core.Path.{subst}
use tiny_os_qemu.Base.Tally.{tally}
use tiny_os_qemu.Base.Exec.{Exec, Post, Post-mono, for_range}
use tiny_os_qemu.Proc.State.{Kernel, Proc, Status, Context, Services, proc_num}
use tiny_os_qemu.Proc.Sem.{sem_init}
use tiny_os_qemu.Proc.Table.{proc_findzombie, is_zombie_of, schedule, proc_run, proc_yield}
use tiny_os_qemu.Proc.Fair.{Leave, turns, turns-Ran}
use tiny_os_qemu.Proc.Schedule.{IsNext, saved, schedule_runs-IsNext}
use tiny_os_qemu.Proc.Wait.{Waiting, IsRunning, IsLive, SemAgrees, zombies, running, waiting_of}
use tiny_os_qemu.Proc.Wait.Calls.{CanFree}
use tiny_os_qemu.Proc.Wait.Reap.{zombie_parts}
use tiny_os_qemu.Proc.Wait.Run.{proc_yield-IsRunning}
use tiny_os_qemu.Fs.Inodes.{iclose, remove_if_last}
use tiny_os_qemu.File.{fclose}
use tiny_os_qemu.File.Tests.{one_open}
use tiny_os_qemu.Vme.{Vm, phy_mem}
use tiny_os_qemu.Vme.Pages.{kfree}
use tiny_os_qemu.Vme.Pages.Chain.{kfree-Free}
use tiny_os_qemu.Vme.Tables.{vm_teardown}
use tiny_os_qemu.Vme.Tables.Teardown.{vm_teardown-Free}
use tiny_os_qemu.Vme.Tests.{two_free, pages, first, second, third, two_free-Free}
use tiny_os_qemu.Syscall.Machine.{Machine, services, on_memory}
use tiny_os_qemu.Syscall.Release.{release, release_file, release_cwd}
use tiny_os_qemu.Syscall.Exit.{Frees, Exited, sys_exit-Exited}
use tiny_os_qemu.Proc.Wait.Held.{hold}
use tiny_os_qemu.Syscall.{Reply, finish_wait, sys_wait, sys_exit}
use tiny_os_qemu.Syscall.Finish.{finish_wait-IsRunning}
use tiny_os_qemu.Syscall.Turn.{Rests, turn, turn-sys_wait}

-- The kernel's own services, with its page tables at 1052672.
abbrev served : Services Machine
served = services 1052672

abbrev machine : Machine
machine = record { opened = one_open; memory = two_free }

on_memory-eq :
    {A : Type 0} (m : Exec Vm A) (s : Machine) (a : A) (t : Vm)
    → m s.memory ≡ some (a, t)
    → on_memory m s ≡ some (a, record s { memory = t })
on_memory-eq m s a t e = rw (e, on_memory) refl

-- A page directory without tables and a kernel stack, two pages of the heap, can be freed.
pages-CanFree :
    (m : Machine) (d stack : ℕ)
    → m.memory ≡ two_free
    → d % 4096 ≡ 0
    → stack % 4096 ≡ 0
    → third ≤ d
    → third ≤ stack
    → d < phy_mem
    → stack < phy_mem
    → d ≢ stack
    → CanFree served d stack m
pages-CanFree m d stack same al bl lo ls hi hs ne =
    let (t, e, _, f) =
      vm_teardown-Free two_free d first (second ∷ []) al (omega arith) hi
        (λ i l h. ground (arith, al)) ((λ q. omega arith), ((λ q. omega arith), tt))
        two_free-Free in
    let (u, g, _, _, _) =
      kfree-Free t stack d pages (omega arith) hs
        ((λ q. omega (arith, ne)), ((λ q. omega arith), ((λ q. omega arith), tt))) f in
    record {
      torn = record m { memory = t };
      teardown_eq = on_memory-eq (vm_teardown d) m tt t (ap (vm_teardown d) same ∙ e);
      freed = record m { memory = u };
      kfree_eq = on_memory-eq (kfree stack) (record m { memory = t }) tt u g;
    }

abbrev a_proc : ℕ → Status → Option ℕ → ℕ → Proc
a_proc pid status parent zombie_count = record {
  pid = pid;
  status = status;
  pgdir = third + 8192 * pid;
  brk = 0;
  kstack = third + 8192 * pid + 4096;
  ctx = Context.user 0;
  parent = parent;
  child_num = 1;
  exit_code = 42;
  zombie_sem = sem_init zombie_count;
  usems = λ _. none;
  files = λ i. if i == 0 then some 0 else none;
  cwd = some 1;
}

-- Process 0 runs and has a child 1, in state `s`; 2 is READY. The semaphore of 0 has count `n`.
abbrev slot : Status → ℕ → ℕ → Proc
slot s n i =
    if i == 0
    then a_proc 1 Status.running none n
    else if i == 1
    then a_proc 2 s (some 0) 0
    else if i == 2
    then a_proc 3 Status.ready none 0
    else a_proc 0 Status.unused none 0

abbrev small : Status → ℕ → Kernel Machine
small s n = record {
  pcb = slot s n;
  curr = 0;
  next_pid = 4;
  user_sem = λ _. record { sem = sem_init 0; ref = 0 };
  free_nodes = 256;
  rest = machine;
}

abbrev zombie_child : ℕ → Kernel Machine
zombie_child n = small Status.zombie n

slot_parent : (n i p : ℕ) → ((zombie_child n).pcb i).parent ≡ some p → (i ≡ 1) × (p ≡ 0)
slot_parent n i p h = ground arith

slot_live : (n p : ℕ) → IsLive ((zombie_child n).pcb p).status → (p ≡ 0) ⊎ (p ≡ 2)
slot_live n p h = ground arith

zombie_child_waits :
    (n : ℕ) (w : Waiting)
    → SemAgrees w 1 0 (sem_init n)
    → (p : ℕ) → IsLive ((zombie_child n).pcb p).status
    → SemAgrees
        (running w (zombie_child n) p)
        (zombies p (zombie_child n))
        p
        ((zombie_child n).pcb p).zombie_sem
unfolding tally
zombie_child_waits n w a p l = elim (slot_live n p l) [
  | inl e ↦
      subst
        (λ x.
          SemAgrees (running w (zombie_child n) x) (zombies x (zombie_child n)) x
            ((zombie_child n).pcb x).zombie_sem)
        (sym e) a
  | inr e ↦
      subst
        (λ x.
          SemAgrees (running w (zombie_child n) x) (zombies x (zombie_child n)) x
            ((zombie_child n).pcb x).zombie_sem)
        (sym e) (refl, refl)
]

zombie_child-IsRunning :
    (n : ℕ) (w : Waiting) → SemAgrees w 1 0 (sem_init n) → IsRunning w (zombie_child n)
zombie_child-IsRunning n w a = record {
  curr_lt = omega arith;
  curr_runs = refl;
  alone = λ i hi e. ground arith;
  consistent = record {
    parents = λ i p hi u e. ground (arith, slot_parent n i p e);
    waits = λ p hp l. zombie_child_waits n w a p l;
    blocked_on = λ u. tt;
    distinct = λ u. tt;
  };
}

-- No `sys_wait` has claimed the zombie yet.
unclaimed-IsRunning : IsRunning Waiting.idle (zombie_child 1)
unclaimed-IsRunning = zombie_child-IsRunning 1 Waiting.idle (refl, refl)

-- The process has been woken for it.
woken-IsRunning : IsRunning Waiting.woken (zombie_child 0)
woken-IsRunning = zombie_child-IsRunning 0 Waiting.woken (refl, refl)

schedule_runs-IsNext_example :
    (m : ℕ) × IsNext proc_num 0 (zombie_child 1) m
    × (schedule (Context.user 5) (zombie_child 1)
        ≡ some (tt, proc_run m (saved (Context.user 5) (zombie_child 1))))
schedule_runs-IsNext_example =
    schedule_runs-IsNext (Context.user 5) (zombie_child 1) 2 (omega arith) (omega arith) refl

proc_yield-IsRunning_example :
    Post
      (λ _ t. IsRunning (waiting_of Status.ready (t.pcb t.curr).ctx) t)
      (proc_yield (Context.user 5) (zombie_child 1))
proc_yield-IsRunning_example = proc_yield-IsRunning 5 (zombie_child 1) unclaimed-IsRunning

only_zombie : (n z : ℕ) → ((zombie_child n).pcb z).status ≡ Status.zombie → z ≡ 1
only_zombie n z e = ground arith

child_only-CanFree :
    (n z : ℕ)
    → ((zombie_child n).pcb z).status ≡ Status.zombie
    → CanFree served ((zombie_child n).pcb z).pgdir ((zombie_child n).pcb z).kstack machine
child_only-CanFree n z e =
    subst
      (λ i. CanFree served ((zombie_child n).pcb i).pgdir ((zombie_child n).pcb i).kstack machine)
      (sym (only_zombie n z e))
      (pages-CanFree machine (third + 16384) (third + 20480) refl (omega arith) (omega arith)
        (omega arith) (omega arith) (omega arith) (omega arith) (λ q. omega arith))

-- Process 0 gives back file 0 and its directory; memory stays as it is.
released :
    Post (λ _ m. m.memory ≡ two_free) (release served (hold ((zombie_child 1).pcb 0)) machine)
unfolding release_file release_cwd for_range fclose iclose remove_if_last
released = refl

released-Frees :
    Post
      (λ _. Frees served (zombie_child 1))
      (release served (hold ((zombie_child 1).pcb 0)) machine)
released-Frees =
    Post-mono _ _ (release served (hold ((zombie_child 1).pcb 0)) machine)
      (λ _ m e z hz c. elim c [
        | inl q ↦
            subst
              (λ i. CanFree served ((zombie_child 1).pcb i).pgdir ((zombie_child 1).pcb i).kstack m)
              (sym q)
              (pages-CanFree m (third + 8192) (third + 12288) e (omega arith) (omega arith)
                (omega arith) (omega arith) (omega arith) (omega arith) (λ q. omega arith))
        | inr q ↦
            subst
              (λ i. CanFree served ((zombie_child 1).pcb i).pgdir ((zombie_child 1).pcb i).kstack m)
              (sym (only_zombie 1 z q))
              (pages-CanFree m (third + 16384) (third + 20480) e (omega arith) (omega arith)
                (omega arith) (omega arith) (omega arith) (omega arith) (λ q. omega arith))
      ])
      released

sys_exit-Exited_example :
    Post (Exited served 3 (zombie_child 1)) (sys_exit served 3 (zombie_child 1))
    × Post Rests (turn served (sys_exit served 3) (zombie_child 1))
sys_exit-Exited_example =
    sys_exit-Exited served 3 (zombie_child 1) 2 released-Frees (omega arith) refl
      unclaimed-IsRunning

finish_wait-IsRunning_example :
    (z : ℕ) × (proc_findzombie 0 (zombie_child 0) ≡ some z)
    × (is_zombie_of 0 ((zombie_child 0).pcb z) ≡ true)
    × Post
        (λ r t.
          (r ≡ Reply.waited ((zombie_child 0).pcb z).pid ((zombie_child 0).pcb z).exit_code)
          × ((t.pcb z).status ≡ Status.unused)
          × IsRunning Waiting.idle t)
        (finish_wait served (zombie_child 0))
finish_wait-IsRunning_example =
    finish_wait-IsRunning served (zombie_child 0)
      (λ z hz was. child_only-CanFree 0 z (zombie_parts 0 ((zombie_child 0).pcb z) was).0)
      woken-IsRunning

turn-sys_wait_example : Post Rests (turn served (sys_wait served) (zombie_child 1))
turn-sys_wait_example =
    turn-sys_wait served (zombie_child 1) 2 (λ z hz e. child_only-CanFree 1 z e)
      (λ e. absurd (omega arith)) (omega arith) refl unclaimed-IsRunning

-- Everyone blocks; what runs before only takes a pid.
abbrev takes_pid : ℕ → Kernel Machine → Kernel Machine
takes_pid i k = record k { next_pid = suc k.next_pid }

abbrev all_block : ℕ → Leave × Context
all_block i = (Leave.blocks, Context.user i)

turns-Ran_example :
    (n : ℕ) × (t : Kernel Machine) × (n ≤ proc_num)
    × (turns takes_pid all_block 0 n (zombie_child 0) ≡ some t)
    × (t.curr ≡ 2)
    × ((t.pcb 2).status ≡ Status.running)
turns-Ran_example =
    turns-Ran 2 takes_pid all_block (zombie_child 0) (omega arith) (λ i k. (refl, refl, refl))
      (record { curr_lt = omega arith; runs = refl; is_ready = refl })
