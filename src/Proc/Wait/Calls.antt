-- ===== src/Proc/Wait/Calls.antt =====
-- kernel/src/proc.c: what its calls of the services change.
use tiny_os_qemu.Base.{ℕ, ◌<◌, ◌≡◌, ◌≢◌, refl, false, some, arith, sym, ◌∙◌}
use mathlib.Core.Path.{subst}
use tiny_os_qemu.Base.Exec.{Exec, Post, bind-eq}
use tiny_os_qemu.Proc.State.{
  Kernel, Status, Context, Services, call, same_status, set_status, proc_num,
}
use tiny_os_qemu.Proc.Table.{proc_free, proc_run, schedule}
use tiny_os_qemu.Proc.Schedule.{saved, schedule_runs-IsNext}

not_running_test : (s : Status) → s ≢ Status.running → same_status s Status.running ≡ false
not_running_test s h = ground arith

-- From `s` on, the services take the memory of a process back: its page directory, then its kernel
-- stack.
pub record CanFree {S : Type 0} (v : Services S) (pgdir kstack : ℕ) (s : S) : Type 0 where
  pub torn : S
  pub teardown_eq : v.vm_teardown pgdir s ≡ some (tt, torn)
  pub freed : S
  pub kfree_eq : v.kfree kstack torn ≡ some (tt, freed)

-- That holds of each zombie of the table.
abbrev pub CanReap : {S : Type 0} → Services S → Kernel S → Type 0
CanReap v k =
    (z : ℕ)
    → z < proc_num
    → (k.pcb z).status ≡ Status.zombie
    → CanFree v (k.pcb z).pgdir (k.pcb z).kstack k.rest

-- `t` has the memory of `k` for its processes, and no zombie that `k` has not.
pub record SamePages {S : Type 0} (k t : Kernel S) : Type 0 where
  pub rest : t.rest ≡ k.rest
  pub pgdirs : (z : ℕ) → (t.pcb z).pgdir ≡ (k.pcb z).pgdir
  pub kstacks : (z : ℕ) → (t.pcb z).kstack ≡ (k.pcb z).kstack
  pub zombie : (z : ℕ) → (t.pcb z).status ≡ Status.zombie → (k.pcb z).status ≡ Status.zombie

module _ {S : Type 0} where
  pub CanReap-SamePages :
      (v : Services S) (k t : Kernel S) → SamePages k t → CanReap v k → CanReap v t
  CanReap-SamePages v k t s c z hz e =
      subst (CanFree v (t.pcb z).pgdir (t.pcb z).kstack) (sym s.rest) (
        subst (λ p. CanFree v p (t.pcb z).kstack k.rest) (sym (s.pgdirs z))
          (subst (λ p. CanFree v (k.pcb z).pgdir p k.rest) (sym (s.kstacks z))
            (c z hz (s.zombie z e))))

  pub SamePages-trans : (k t u : Kernel S) → SamePages k t → SamePages t u → SamePages k u
  SamePages-trans k t u a b = record {
    rest = b.rest ∙ a.rest;
    pgdirs = λ z. b.pgdirs z ∙ a.pgdirs z;
    kstacks = λ z. b.kstacks z ∙ a.kstacks z;
    zombie = λ z e. a.zombie z (b.zombie z e);
  }

  -- The process that runs next, and the one that is left, are no new zombies.
  run-SamePages : (ctx : Context) (m : ℕ) (k : Kernel S) → SamePages k (proc_run m (saved ctx k))
  unfolding proc_run
  run-SamePages ctx m k = record {
    rest = refl;
    pgdirs = λ z. ground arith;
    kstacks = λ z. ground arith;
    zombie = λ z e. ground arith;
  }

  pub schedule-SamePages :
      (ctx : Context) (k : Kernel S) (j : ℕ)
      → k.curr < proc_num
      → j < proc_num
      → (k.pcb j).status ≡ Status.ready
      → Post (λ _ t. SamePages k t) (schedule ctx k)
  schedule-SamePages ctx k j hc hj e =
      let (m, nx, runs) = schedule_runs-IsNext ctx k j hc hj e in rw runs (run-SamePages ctx m k)

  call-eq :
      {A : Type 0} (m : Exec S A) (k : Kernel S) (a : A) (s : S)
      → m k.rest ≡ some (a, s)
      → call m k ≡ some (a, record k { rest = s })
  call-eq m k a s e = rw (e, call) refl

  -- Freeing the slot of a process that does not run only marks it UNUSED.
  pub proc_free-eq :
      (v : Services S) (i : ℕ) (k : Kernel S)
      (c : CanFree v (k.pcb i).pgdir (k.pcb i).kstack k.rest)
      → (k.pcb i).status ≢ Status.running
      → proc_free v i k ≡ some (tt, set_status i Status.unused (record k { rest = c.freed }))
  unfolding proc_free
  proc_free-eq v i k c nr = rw (not_running_test _ nr) (
      bind-eq (call (v.vm_teardown (k.pcb i).pgdir)) _ k (record k { rest = c.torn }) tt
        (call-eq (v.vm_teardown (k.pcb i).pgdir) k tt c.torn c.teardown_eq)
      ∙ bind-eq (call (v.kfree (k.pcb i).kstack)) _ (record k { rest = c.torn })
          (record k { rest = c.freed }) tt
          (call-eq (v.kfree (k.pcb i).kstack) (record k { rest = c.torn }) tt c.freed c.kfree_eq))
