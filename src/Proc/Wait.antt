-- ===== src/Proc/Wait.antt =====
-- kernel/src/proc.c and the `sys_wait` of kernel/src/syscall.c: what the table says of processes
-- that wait for a child. `zombie_sem` counts the zombies that no `sys_wait` has claimed yet.
pub mod Move
pub mod Run
pub mod Calls
pub mod Reap
pub mod Alike
pub mod Die
pub mod Wake
pub mod Exit
pub mod Held
use tiny_os_qemu.Base.{
  All, ℕ, suc, ◌+◌, ◌-◌, ◌^◌, ◌<◌, ◌≡◌, ◌≢◌, Bool, true, false, Option, some, List, [], ◌∷◌, ◌==◌,
  if◌then◌else◌,
}
use tiny_os_qemu.Base.Tally.{tally}
use tiny_os_qemu.Proc.State.{Kernel, Proc, Sem, Status, Context, proc_num}
use tiny_os_qemu.Proc.Table.{is_zombie_of}

-- Not inside a `sys_wait`; blocked in its `sem_p`; or out of the wait list, with the child that
-- it was woken for not yet taken; or any of these, with a child that has just become a zombie and
-- has not yet raised the semaphore.
pub data Waiting : Type 0 where
  idle asleep woken : Waiting
  owed : Waiting → Waiting

-- A process that does not run waits if its context says so.
abbrev pub waiting_of : Status → Context → Waiting
waiting_of Status.ready Context.in_wait = Waiting.woken
waiting_of Status.blocked Context.in_wait = Waiting.asleep
waiting_of _ _ = Waiting.idle

-- The semaphore of process `p`, which has `z` zombies.
abbrev pub SemAgrees : Waiting → ℕ → ℕ → Sem → Type 0
SemAgrees Waiting.idle z p s = (s.value ≡ z) × (s.wait_list ≡ [])
SemAgrees Waiting.woken z p s = (s.value + 1 ≡ z) × (s.wait_list ≡ [])
SemAgrees (Waiting.owed w) z p s = (z ≢ 0) × SemAgrees w (z - 1) p s
SemAgrees Waiting.asleep z p s = (z ≡ 0) × (s.value ≡ 2 ^ 32 - 1) × (s.wait_list ≡ p ∷ [])

abbrev pub IsLive : Status → Type 0
IsLive s = (s ≢ Status.unused) × (s ≢ Status.zombie)

-- Every element occurs once.
abbrev pub Distinct : List ℕ → Type 0
Distinct [] = Unit {0}
Distinct (x ∷ xs) = All (λ y. y ≢ x) xs × Distinct xs

module _ {S : Type 0} where
  abbrev pub zombies : ℕ → Kernel S → ℕ
  zombies p k = tally proc_num (λ i. is_zombie_of p (k.pcb i))

  -- A process in the wait list of user semaphore `u` is blocked in a `sys_sem_p` on it.
  abbrev pub BlockedOn : Kernel S → ℕ → ℕ → Type 0
  BlockedOn k u i =
      (i < proc_num) × ((k.pcb i).status ≡ Status.blocked) × ((k.pcb i).ctx ≡ Context.in_sem_p u)

  -- `w p` says how process `p` stands to its children.
  pub record IsConsistent (w : ℕ → Waiting) (k : Kernel S) : Type 0 where
    pub parents :
        (i p : ℕ)
        → i < proc_num
        → (k.pcb i).status ≢ Status.unused
        → (k.pcb i).parent ≡ some p
        → (p < proc_num) × (p ≢ i) × IsLive (k.pcb p).status
    pub waits :
        (p : ℕ)
        → p < proc_num
        → IsLive (k.pcb p).status
        → SemAgrees (w p) (zombies p k) p (k.pcb p).zombie_sem
    pub blocked_on : (u : ℕ) → All (BlockedOn k u) (k.user_sem u).sem.wait_list
    pub distinct : (u : ℕ) → Distinct (k.user_sem u).sem.wait_list

  abbrev pub parked : Kernel S → ℕ → Waiting
  parked k p = waiting_of (k.pcb p).status (k.pcb p).ctx

  abbrev pub running : Waiting → Kernel S → ℕ → Waiting
  running w k p = if p == k.curr then w else parked k p

  -- No process runs: between the end of one and `proc_run`.
  pub record IsParked (k : Kernel S) : Type 0 where
    pub none_runs : (i : ℕ) → i < proc_num → (k.pcb i).status ≢ Status.running
    pub consistent : IsConsistent (parked k) k

  -- The current process runs, and stands to its children as `w` says.
  pub record IsRunning (w : Waiting) (k : Kernel S) : Type 0 where
    pub curr_lt : k.curr < proc_num
    pub curr_runs : (k.pcb k.curr).status ≡ Status.running
    pub alone : (i : ℕ) → i < proc_num → (k.pcb i).status ≡ Status.running → i ≡ k.curr
    pub consistent : IsConsistent (running w k) k

-- The fields of a process on which `IsConsistent` depends.
pub record Core : Type 0 where
  pub status : Status
  pub ctx : Context
  pub parent : Option ℕ
  pub zombie_sem : Sem

abbrev pub core : Proc → Core
core p = record { status = p.status; ctx = p.ctx; parent = p.parent; zombie_sem = p.zombie_sem }

-- `t` differs from `k` at most in slot `i`, and in what `Core` leaves out.
pub record SameBut {S : Type 0} (i : ℕ) (k t : Kernel S) : Type 0 where
  pub others : (j : ℕ) → j ≢ i → core (t.pcb j) ≡ core (k.pcb j)
  pub lists : (u : ℕ) → (t.user_sem u).sem.wait_list ≡ (k.user_sem u).sem.wait_list
