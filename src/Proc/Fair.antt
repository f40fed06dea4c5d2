-- ===== src/Proc/Fair.antt =====
-- kernel/src/proc.c, `schedule`: how long a READY process waits for the CPU.
use tiny_os_qemu.Base.{
  ℕ, zero, suc, ◌+◌, ◌-◌, ◌%◌, ◌<◌, ◌≤◌, ◌≡◌, ◌≢◌, refl, Option, none, some, arith, Bool-cases, inl,
  inr, ap, ◌∙◌, sym, ==_refl, ltb, ltb→lt, ltb→ge, ◌⊎◌,
}
use mathlib.Core.Path.{subst}
use native.Mathlib.Decide.{ℕ_discrete}
use tiny_os_qemu.Base.Exec.{Exec}
use tiny_os_qemu.Proc.State.{Kernel, Status, Context, set_status, proc_num}
use tiny_os_qemu.Proc.Table.{schedule, proc_run, proc_yield, proc_block}
use tiny_os_qemu.Proc.Schedule.{IsNext, saved, saved-ready, slot_at, schedule_runs-IsNext}

-- How the running process gives up the CPU.
pub data Leave : Type 0 where
  yields blocks : Leave

-- How many slots lie between `i` and `j`, round the table.
abbrev pub gap : ℕ → ℕ → ℕ
gap i j = (j + proc_num - i - 1) % proc_num

slot_at-gap : (i j : ℕ) → i < proc_num → j < proc_num → slot_at i (gap i j) ≡ j
slot_at-gap i j hi hj = omega arith

-- Past the slot `d` places on, that much of the gap is gone.
gap-slot_at :
    (i j d : ℕ) → i < proc_num → j < proc_num → d < gap i j → gap (slot_at i d) j < gap i j
gap-slot_at i j d hi hj h = omega arith

slot_at_lt : (i d : ℕ) → slot_at i d < proc_num
slot_at_lt i d = omega arith

-- The status in which `leave` leaves the current process.
abbrev left : Leave → Status
left Leave.yields = Status.ready
left Leave.blocks = Status.blocked

module _ {S : Type 0} where
  abbrev pub leave : Leave → Context → Exec (Kernel S) (Unit {0})
  leave Leave.yields c = proc_yield c
  leave Leave.blocks c = proc_block c

  -- `n` times from time `i` on, the running process works and then leaves the CPU.
  unfoldable pub turns :
      (ℕ → Kernel S → Kernel S) → (ℕ → Leave × Context) → ℕ → ℕ → Kernel S → Option (Kernel S)
  turns work how i zero k = some k
  turns work how i (suc n) k = elim (leave (how i).0 (how i).1 (work i k)) [
    | none ↦ none
    | some (_, t) ↦ turns work how (suc i) n t
  ]

  -- What a process does before it leaves changes neither which process runs, nor its status, nor that
  -- of `j`.
  abbrev pub Spares : ℕ → (ℕ → Kernel S → Kernel S) → Type 0
  Spares j work =
      (i : ℕ) (k : Kernel S)
      → ((work i k).curr ≡ k.curr)
        × (((work i k).pcb k.curr).status ≡ (k.pcb k.curr).status)
        × (((work i k).pcb j).status ≡ (k.pcb j).status)

  -- `j` waits behind the running process.
  pub record IsQueued (j : ℕ) (k : Kernel S) : Type 0 where
    pub curr_lt : k.curr < proc_num
    pub runs : (k.pcb k.curr).status ≡ Status.running
    pub is_ready : (k.pcb j).status ≡ Status.ready

  abbrev Ran : ℕ → Kernel S → Type 0
  Ran j t = (t.curr ≡ j) × ((t.pcb j).status ≡ Status.running)

  run_curr : (m : ℕ) (k : Kernel S) → Ran m (proc_run m k)
  unfolding proc_run
  run_curr m k = (refl, ground (arith, ==_refl m))

  run_other : (m j : ℕ) (k : Kernel S) → j ≢ m → ((proc_run m k).pcb j).status ≡ (k.pcb j).status
  unfolding proc_run
  run_other m j k h = ground arith

  leave-schedule :
      (l : Leave) (c : Context) (k : Kernel S)
      → leave l c k ≡ schedule c (set_status k.curr (left l) k)
  unfolding proc_yield proc_block
  leave-schedule Leave.yields c k = refl
  leave-schedule Leave.blocks c k = refl

  kept_ready :
      (j : ℕ) (st : Status) (k : Kernel S)
      → IsQueued j k
      → ((set_status k.curr st k).pcb j).status ≡ Status.ready
  kept_ready j st k q = ground (arith, q.is_ready, q.runs)

  -- The slot that `schedule` finds lies before `j`, or is it.
  found_before :
      (k : Kernel S) (j m : ℕ)
      → k.curr < proc_num
      → j < proc_num
      → (k.pcb j).status ≡ Status.ready
      → j ≢ m
      → (r : IsNext proc_num k.curr k m) → r.dist < gap k.curr j
  found_before k j m hc hj e ne r = elim (Bool-cases (ltb r.dist (gap k.curr j))) [
    | inl q ↦ ltb→lt r.dist (gap k.curr j) q
    | inr q ↦ elim (ℕ_discrete r.dist (gap k.curr j)) [
      | yes z ↦ absurd (ne (sym (r.place ∙ ap (slot_at k.curr) z ∙ slot_at-gap k.curr j hc hj)))
      | no z ↦ absurd (
          r.first (gap k.curr j) (later (ltb→ge r.dist (gap k.curr j) q) z)
            (ap (λ x. (k.pcb x).status) (slot_at-gap k.curr j hc hj) ∙ e))
    ]
  ]
    where
      later : {a b : ℕ} → b ≤ a → a ≢ b → b < a
      later h n = ground arith

  abbrev Advances : ℕ → Kernel S → Kernel S → Type 0
  Advances j k t = Ran j t ⊎ (IsQueued j t × (gap t.curr j < gap k.curr j))

  one_turn :
      (l : Leave) (c : Context) (k : Kernel S) (j : ℕ)
      → j < proc_num
      → IsQueued j k
      → (t : Kernel S) × (leave l c k ≡ some (tt, t)) × Advances j k t
  one_turn l c k j hj q =
      let k' = set_status k.curr (left l) k in
      let e = kept_ready j (left l) k q in
      let (m, r, run) = schedule_runs-IsNext c k' j q.curr_lt hj e in
      let t = proc_run m (saved c k') in
      (
        t,
        leave-schedule l c k ∙ run,
        elim (ℕ_discrete j m) [
          | yes z ↦ inl (subst (λ x. Ran x t) (sym z) (run_curr m (saved c k')))
          | no z ↦
              let (at, runs) = run_curr m (saved c k') in
              let d = found_before k' j m q.curr_lt hj e z r in
              inr (
                record {
                  curr_lt =
                      subst (λ x. x < proc_num) (sym (at ∙ r.place)) (slot_at_lt k.curr r.dist);
                  runs = ap (λ x. (t.pcb x).status) at ∙ runs;
                  is_ready = run_other m j (saved c k') z ∙ saved-ready k' c j ∙ e;
                },
                subst (λ x. gap x j < gap k.curr j) (sym (at ∙ r.place))
                    (gap-slot_at k.curr j r.dist q.curr_lt hj d),
              )
        ],
      )

  worked :
      (work : ℕ → Kernel S → Kernel S) (i j : ℕ) (k : Kernel S)
      → Spares j work
      → IsQueued j k
      → IsQueued j (work i k)
  worked work i j k sp q =
      let (c, r, o) = sp i k in
      record {
        curr_lt = subst (λ x. x < proc_num) (sym c) q.curr_lt;
        runs = ap (λ x. ((work i k).pcb x).status) c ∙ r ∙ q.runs;
        is_ready = o ∙ q.is_ready;
      }

  turns-suc :
      (work : ℕ → Kernel S → Kernel S) (how : ℕ → Leave × Context) (i n : ℕ) (k t : Kernel S)
      → leave (how i).0 (how i).1 (work i k) ≡ some (tt, t)
      → turns work how i (suc n) k ≡ turns work how (suc i) n t
  unfolding turns
  turns-suc work how i n k t e = rw (e, turns) refl

  wait :
      (bound i j : ℕ) (work : ℕ → Kernel S → Kernel S) (how : ℕ → Leave × Context) (k : Kernel S)
      → j < proc_num
      → Spares j work
      → IsQueued j k
      → gap k.curr j < bound
      → (n : ℕ) × (t : Kernel S) × (n ≤ bound) × (turns work how i n k ≡ some t) × Ran j t
  unfolding turns
  wait zero i j work how k hj sp q h = absurd (omega arith)
  wait (suc b) i j work how k hj sp q h =
      let w = work i k in
      let (t, e, a) = one_turn (how i).0 (how i).1 w j hj (worked work i j k sp q) in
      elim a [
        | inl r ↦ (1, t, omega arith, turns-suc work how i 0 k t e, r)
        | inr (q', d) ↦
            let same : gap w.curr j ≡ gap k.curr j = ap (λ x. gap x j) (sp i k).0 in
            let (n, u, le, run, r) = wait b (suc i) j work how t hj sp q' (omega arith) in
            (suc n, u, omega arith, turns-suc work how i n k t e ∙ run, r)
      ]

  -- A READY process gets the CPU after at most 64 switches, whether the processes that run before it
  -- yield or block, and whatever they do that leaves its status and their own alone.
  pub turns-Ran :
      (j : ℕ) (work : ℕ → Kernel S → Kernel S) (how : ℕ → Leave × Context) (k : Kernel S)
      → j < proc_num
      → Spares j work
      → IsQueued j k
      → (n : ℕ) × (t : Kernel S) × (n ≤ proc_num)
        × (turns work how 0 n k ≡ some t)
        × (t.curr ≡ j)
        × ((t.pcb j).status ≡ Status.running)
  turns-Ran j work how k hj sp q =
      let (n, t, le, e, r) = wait proc_num 0 j work how k hj sp q (omega arith) in
      (n, t, le, e, r.0, r.1)
