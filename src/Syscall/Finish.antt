-- ===== src/Syscall/Finish.antt =====
-- kernel/src/syscall.c, `sys_wait` behind its `sem_p`: the zombie that it asserts is there.
use tiny_os_qemu.Base.{ℕ, ◌<◌, ◌≡◌, ◌≢◌, refl, true, some, arith, ap, sym, ◌∙◌, ==_refl}
use mathlib.Core.Path.{subst}
use native.Mathlib.Decide.{ℕ_discrete}
use tiny_os_qemu.Base.Exec.{Post, bind-eq}
use tiny_os_qemu.Proc.State.{Kernel, Status, Services, set_status, set_proc, dec, proc_num}
use tiny_os_qemu.Proc.Table.{is_zombie_of, proc_findzombie, proc_free}
use tiny_os_qemu.Proc.Wait.{Waiting, SemAgrees, zombies, IsRunning, SameBut, parked, running}
use tiny_os_qemu.Proc.Wait.Calls.{CanFree, proc_free-eq}
use tiny_os_qemu.Proc.Wait.Reap.{proc_findzombie-total, zombie_parts, IsConsistent-reap}
use tiny_os_qemu.Proc.Wait.Run.{
  running_at, running_off, runs-IsLive, status_elsewhere, parked_elsewhere,
}
use tiny_os_qemu.Syscall.{Reply, finish_wait, collect}

module _ {S : Type 0} where
  abbrev count_less : Kernel S → Kernel S
  count_less t =
      set_proc t.curr (record (t.pcb t.curr) { child_num = dec (t.pcb t.curr).child_num }) t

  -- The zombie `z` of the current process is freed, and a child less is counted.
  reaped : ℕ → S → Kernel S → Kernel S
  reaped z s k = count_less (set_status z Status.unused (record k { rest = s }))

  reaped-SameBut : (z : ℕ) (s : S) (k : Kernel S) → SameBut z k (reaped z s k)
  unfolding reaped
  reaped-SameBut z s k = record { others = λ j e. ground arith; lists = λ u. refl }

  reaped_slot : (z : ℕ) (s : S) (k : Kernel S) → ((reaped z s k).pcb z).status ≡ Status.unused
  unfolding reaped
  reaped_slot z s k = ground (arith, ==_refl z)

  reaped-curr : (z : ℕ) (s : S) (k : Kernel S) → (reaped z s k).curr ≡ k.curr
  unfolding reaped
  reaped-curr z s k = refl

  module _ (z : ℕ) (s : S) (k : Kernel S) (hz : z < proc_num)
      (was : is_zombie_of k.curr (k.pcb z) ≡ true) (r : IsRunning Waiting.woken k) where
    dead : (k.pcb z).status ≡ Status.zombie
    dead = (zombie_parts k.curr (k.pcb z) was).0

    curr-ne : k.curr ≢ z
    curr-ne e = absurd (ground (arith, dead, r.curr_runs, ap (λ j. (k.pcb j).status) e))

    parked-reaped : (p : ℕ) → parked (reaped z s k) p ≡ parked k p
    parked-reaped p = elim (ℕ_discrete p z) [
      | yes e ↦
          subst (λ x. parked (reaped z s k) x ≡ parked k x) (sym e)
            (ground (arith, dead, reaped_slot z s k))
      | no e ↦ parked_elsewhere z p k (reaped z s k) (reaped-SameBut z s k) e
    ]

    reaped-IsRunning : IsRunning Waiting.idle (reaped z s k)
    reaped-IsRunning = record {
      curr_lt = rw (reaped-curr z s k) r.curr_lt;
      curr_runs =
          rw (reaped-curr z s k) (
            status_elsewhere z k.curr k (reaped z s k) (reaped-SameBut z s k) curr-ne
            ∙ r.curr_runs);
      alone = λ i hi e. elim (ℕ_discrete i z) [
        | yes q ↦
            absurd (ground (arith, reaped_slot z s k, ap (λ j. ((reaped z s k).pcb j).status) q))
        | no q ↦
            r.alone i hi (sym (status_elsewhere z i k (reaped z s k) (reaped-SameBut z s k) q) ∙ e)
            ∙ sym (reaped-curr z s k)
      ];
      consistent =
          IsConsistent-reap k.curr (reaped-SameBut z s k) hz was (reaped_slot z s k)
            (running_at Waiting.woken k)
            (subst (λ x. running Waiting.idle (reaped z s k) x ≡ Waiting.idle) (reaped-curr z s k)
              (running_at Waiting.idle (reaped z s k)))
            (λ p e.
              running_off Waiting.idle (reaped z s k) p (λ q. e (q ∙ reaped-curr z s k))
              ∙ parked-reaped p
              ∙ sym (running_off Waiting.woken k p e))
            r.consistent;
    }

  finish_wait-eq :
      (v : Services S) (z : ℕ) (k : Kernel S)
      → proc_findzombie k.curr k ≡ some z
      → finish_wait v k ≡ collect v z k
  unfolding finish_wait
  finish_wait-eq v z k e = rw (e, finish_wait) refl

  Post-collect :
      (v : Services S) (z : ℕ) (k : Kernel S)
      → CanFree v (k.pcb z).pgdir (k.pcb z).kstack k.rest
      → z < proc_num
      → is_zombie_of k.curr (k.pcb z) ≡ true
      → IsRunning Waiting.woken k
      → Post
          (λ r t.
            (r ≡ Reply.waited (k.pcb z).pid (k.pcb z).exit_code)
            × ((t.pcb z).status ≡ Status.unused)
            × IsRunning Waiting.idle t)
          (collect v z k)
  unfolding collect reaped
  Post-collect v z k c hz was r =
      rw
        (bind-eq (proc_free v z) _ k (set_status z Status.unused (record k { rest = c.freed })) tt
          (proc_free-eq v z k c (ground (arith, zombie_parts k.curr (k.pcb z) was))))
        (refl, reaped_slot z c.freed k, reaped-IsRunning z c.freed k hz was r)

  -- If the table is consistent with the current process woken for a child, and the services take
  -- back the page directory and the kernel stack of each zombie child of it from this state on, then `proc_findzombie` finds a zombie child of it, and the rest of `sys_wait` completes: it
  -- replies with that child's pid and exit code, the child's slot is UNUSED, and the table is
  -- consistent with the process no longer inside a wait.
  pub finish_wait-IsRunning :
      (v : Services S) (k : Kernel S)
      → ((z : ℕ)
          → z < proc_num
          → is_zombie_of k.curr (k.pcb z) ≡ true
          → CanFree v (k.pcb z).pgdir (k.pcb z).kstack k.rest)
      → IsRunning Waiting.woken k
      → (z : ℕ) × (proc_findzombie k.curr k ≡ some z)
        × (is_zombie_of k.curr (k.pcb z) ≡ true)
        × Post
            (λ r t.
              (r ≡ Reply.waited (k.pcb z).pid (k.pcb z).exit_code)
              × ((t.pcb z).status ≡ Status.unused)
              × IsRunning Waiting.idle t)
            (finish_wait v k)
  finish_wait-IsRunning v k can r =
      let owed =
        subst (λ w. SemAgrees w (zombies k.curr k) k.curr (k.pcb k.curr).zombie_sem)
          (running_at Waiting.woken k)
          (r.consistent.waits k.curr r.curr_lt (runs-IsLive r.curr_runs)) in
      let (z, e, hz, was) = proc_findzombie-total k.curr k (omega arith) in
      (z, e, was, rw (finish_wait-eq v z k e) (Post-collect v z k (can z hz was) hz was r))
