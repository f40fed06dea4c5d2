-- ===== src/Proc/Schedule.antt =====
-- kernel/src/proc.c, `schedule`: which process runs next.
use tiny_os_qemu.Base.{
  ℕ, zero, suc, ◌+◌, ◌-◌, ◌%◌, ◌<◌, ◌≡◌, ◌≢◌, true, false, none, some, arith, Bool-cases,
  Option-cases, inl, inr, ap, ◌∙◌, sym,
}
use mathlib.Core.Path.{subst}
use tiny_os_qemu.Proc.State.{Kernel, Status, Context, same_status, set_proc, proc_num}
use tiny_os_qemu.Proc.Table.{next_ready, schedule, proc_run, slot_after}

-- The slot `d + 1` places after `i`, round the table.
abbrev pub slot_at : ℕ → ℕ → ℕ
slot_at i d = (i + 1 + d) % proc_num

ready_test : (s : Status) → same_status s Status.ready ≡ true → s ≡ Status.ready
ready_test s h = ground arith

ready_test_false : (s : Status) → same_status s Status.ready ≡ false → s ≢ Status.ready
ready_test_false s h = ground arith

slot_after-slot_at : (i : ℕ) → i < proc_num → slot_after i ≡ slot_at i 0
slot_after-slot_at i h = ground arith

slot_at-suc : (i d : ℕ) → i < proc_num → slot_at (slot_after i) d ≡ slot_at i (suc d)
slot_at-suc i d h = ground arith

pub slot_after-lt : (i : ℕ) → i < proc_num → slot_after i < proc_num
slot_after-lt i h = ground arith

-- Every slot is met within a round.
slot_at-onto :
    (i j : ℕ) → i < proc_num → j < proc_num → slot_at i ((j + proc_num - i - 1) % proc_num) ≡ j
slot_at-onto i j hi hj = omega arith

module _ {S : Type 0} where
  -- `m` is the first READY slot after `i`, at most `n` places on.
  pub record IsNext (n i : ℕ) (k : Kernel S) (m : ℕ) : Type 0 where
    pub dist : ℕ
    pub near : dist < n
    pub place : m ≡ slot_at i dist
    pub is_ready : (k.pcb m).status ≡ Status.ready
    pub first : (e : ℕ) → e < dist → (k.pcb (slot_at i e)).status ≢ Status.ready

  here :
      (n i : ℕ) (k : Kernel S)
      → i < proc_num
      → (k.pcb (slot_after i)).status ≡ Status.ready
      → IsNext (suc n) i k (slot_after i)
  here n i k hi e = record {
    dist = 0;
    near = omega arith;
    place = slot_after-slot_at i hi;
    is_ready = e;
    first = λ e h. absurd (omega arith);
  }

  there_first :
      (n i m : ℕ) (k : Kernel S) (hi : i < proc_num)
      → (k.pcb (slot_after i)).status ≢ Status.ready
      → (r : IsNext n (slot_after i) k m) → (e : ℕ) → e < suc r.dist
      → (k.pcb (slot_at i e)).status ≢ Status.ready
  there_first n i m k hi ne r zero h =
      subst (λ j. (k.pcb j).status ≢ Status.ready) (slot_after-slot_at i hi) ne
  there_first n i m k hi ne r (suc e) h =
      subst (λ j. (k.pcb j).status ≢ Status.ready) (slot_at-suc i e hi) (r.first e (omega arith))

  there :
      (n i m : ℕ) (k : Kernel S)
      → i < proc_num
      → (k.pcb (slot_after i)).status ≢ Status.ready
      → IsNext n (slot_after i) k m
      → IsNext (suc n) i k m
  there n i m k hi ne r = record {
    dist = suc r.dist;
    near = omega arith;
    place = r.place ∙ slot_at-suc i r.dist hi;
    is_ready = r.is_ready;
    first = there_first n i m k hi ne r;
  }

  pub next_ready-IsNext :
      (n i m : ℕ) (k : Kernel S) → i < proc_num → next_ready n i k ≡ some m → IsNext n i k m
  unfolding next_ready
  next_ready-IsNext zero i m k hi h = cc
  next_ready-IsNext (suc n) i m k hi h =
      elim (Bool-cases (same_status (k.pcb (slot_after i)).status Status.ready)) [
        | inl e ↦ subst (IsNext (suc n) i k) (ground arith) (here n i k hi (ready_test _ e))
        | inr e ↦
            there n i m k hi (ready_test_false _ e)
              (next_ready-IsNext n (slot_after i) m k (slot_after-lt i hi) (ground arith))
      ]

  next_ready-none :
      (n i d : ℕ) (k : Kernel S)
      → i < proc_num
      → next_ready n i k ≡ none
      → d < n
      → (k.pcb (slot_at i d)).status ≢ Status.ready
  unfolding next_ready
  next_ready-none zero i d k hi h hd = absurd (omega arith)
  next_ready-none (suc n) i zero k hi h hd =
      subst (λ j. (k.pcb j).status ≢ Status.ready) (slot_after-slot_at i hi)
        (ready_test_false _ (ground arith))
  next_ready-none (suc n) i (suc d) k hi h hd =
      subst (λ j. (k.pcb j).status ≢ Status.ready) (slot_at-suc i d hi)
        (next_ready-none n (slot_after i) d k (slot_after-lt i hi) (ground arith) (omega arith))

  pub saved-ready :
      (k : Kernel S) (ctx : Context) (j : ℕ)
      → ((set_proc k.curr (record (k.pcb k.curr) { ctx = ctx }) k).pcb j).status ≡ (k.pcb j).status
  saved-ready k ctx j = ground arith

  -- The state in which `schedule` looks for the next process.
  abbrev pub saved : Context → Kernel S → Kernel S
  saved ctx k = set_proc k.curr (record (k.pcb k.curr) { ctx = ctx }) k

  IsNext-saved :
      (n i m : ℕ) (ctx : Context) (k : Kernel S) → IsNext n i (saved ctx k) m → IsNext n i k m
  IsNext-saved n i m ctx k r = record {
    dist = r.dist;
    near = r.near;
    place = r.place;
    is_ready = sym (saved-ready k ctx m) ∙ r.is_ready;
    first = λ e h q. r.first e h (saved-ready k ctx _ ∙ q);
  }

  pub schedule-eq :
      (ctx : Context) (k : Kernel S) (m : ℕ)
      → next_ready proc_num k.curr (saved ctx k) ≡ some m
      → schedule ctx k ≡ some (tt, proc_run m (saved ctx k))
  unfolding schedule
  schedule-eq ctx k m h = ground arith

  -- If the current process is in the table and some slot of it is READY, `schedule` returns: it
  -- saves the context of the current process and runs the first READY slot after the current one,
  -- round the table.
  pub schedule_runs-IsNext :
      (ctx : Context) (k : Kernel S) (j : ℕ)
      → k.curr < proc_num
      → j < proc_num
      → (k.pcb j).status ≡ Status.ready
      → (m : ℕ) × IsNext proc_num k.curr k m
        × (schedule ctx k ≡ some (tt, proc_run m (saved ctx k)))
  schedule_runs-IsNext ctx k j hc hj e =
      elim (Option-cases (next_ready proc_num k.curr (saved ctx k))) [
        | inl stuck ↦ absurd (
            next_ready-none proc_num k.curr _ (saved ctx k) hc stuck (omega arith) (
              ap (λ i. ((saved ctx k).pcb i).status) (slot_at-onto k.curr j hc hj)
              ∙ (saved-ready k ctx j ∙ e)))
        | inr (m, found) ↦ (
          m,
          IsNext-saved proc_num k.curr m ctx k
              (next_ready-IsNext proc_num k.curr m (saved ctx k) hc found),
          schedule-eq ctx k m found,
        )
      ]
