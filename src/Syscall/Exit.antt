-- ===== src/Syscall/Exit.antt =====
-- kernel/src/syscall.c, `sys_exit`, and the end of `proc_makezombie` in kernel/src/proc.c.
use tiny_os_qemu.Base.{
  ℕ, ◌<◌, ◌≡◌, ◌≢◌, ◌⊎◌, refl, none, some, Option, arith, ap, sym, ◌∙◌, Option-cases, inl, inr,
  ==_refl,
}
use mathlib.Core.Path.{subst}
use native.Mathlib.Decide.{ℕ_discrete}
use tiny_os_qemu.Base.Exec.{Post, Post->>=, Post-mono, Post-for_range, ◌>>◌, pure, for_range}
use tiny_os_qemu.Proc.State.{Kernel, Status, Context, Services, proc_num, max_usem, max_ufile}
use tiny_os_qemu.Proc.Sem.{usem_close}
use tiny_os_qemu.Proc.Table.{
  orphan, wake_parent, proc_makezombie, close_usem, close_file, close_cwd, schedule, proc_run,
}
use tiny_os_qemu.Proc.Schedule.{saved, schedule_runs-IsNext}
use tiny_os_qemu.Proc.Wait.{Waiting, IsRunning, Core}
use tiny_os_qemu.Proc.Wait.Alike.{SameCore, IsParked-SameCore, IsParked-saved_zombie}
use tiny_os_qemu.Proc.Wait.Calls.{
  CanFree, CanReap, CanReap-SamePages, SamePages, schedule-SamePages,
}
use tiny_os_qemu.Proc.Wait.Run.{schedule-IsRunning}
use tiny_os_qemu.Proc.Wait.Die.{killed}
use tiny_os_qemu.Proc.Wait.Exit.{Died, wake-Died}
use tiny_os_qemu.Proc.Wait.Held.{Held, hold, SameHeld, gone-SameHeld}
use tiny_os_qemu.Syscall.Release.{around, release, closings-eq, release-same, Post-around}
use tiny_os_qemu.Syscall.{Reply, sys_exit}
use tiny_os_qemu.Syscall.Flows.{Keeps, Settles}
use tiny_os_qemu.Syscall.Turn.{Rests, turn, turn-IsRunning}

module _ {S : Type 0} where
  Died-SameCore : (c j : ℕ) (t u : Kernel S) → SameCore t u → Died c j t → Died c j u
  Died-SameCore c j t u s d = record {
    is_parked = IsParked-SameCore s d.is_parked;
    curr = s.curr ∙ d.curr;
    is_zombie = ap (λ (x : Core). x.status) (s.cores c) ∙ d.is_zombie;
    is_ready = ap (λ (x : Core). x.status) (s.cores j) ∙ d.is_ready;
  }

  rest-SameCore : (s : S) (t : Kernel S) → SameCore t (record t { rest = s })
  rest-SameCore s t = record { curr = refl; cores = λ j. refl; lists = λ u. refl }

  usem_close-SameCore : (u : ℕ) (t : Kernel S) → SameCore t (usem_close u t)
  unfolding usem_close
  usem_close-SameCore u t = record { curr = refl; cores = λ j. refl; lists = λ x. ground arith }

  none-SameCore : (t : Kernel S) → SameCore t t
  none-SameCore t = record { curr = refl; cores = λ j. refl; lists = λ u. refl }

  close_usem-SameCore : (i n : ℕ) (t : Kernel S) → Post (λ _ u. SameCore t u) (close_usem i n t)
  unfolding close_usem
  close_usem-SameCore i n t = elim (Option-cases ((t.pcb i).usems n)) [
    | inl e ↦ rw (e, close_usem) (none-SameCore t)
    | inr (u, e) ↦ rw (e, close_usem) (usem_close-SameCore u t)
  ]

  -- What `proc_makezombie` of process `c` leaves, up to the memory that can then be freed.
  record Dead (v : Services S) (c j : ℕ) (k t : Kernel S) : Type 0 where
    pub died : Died c j t
    pub held : (z : ℕ) → hold (t.pcb z) ≡ hold (k.pcb z)
    pub can : CanReap v t

  close_usems-kept :
      (i c j : ℕ) (t : Kernel S)
      → Died c j t
      → Post
          (λ _ u. Died c j u × (u.pcb ≡ t.pcb) × (u.rest ≡ t.rest))
          (for_range max_usem 0 (close_usem i) t)
  unfolding close_usem usem_close
  close_usems-kept i c j t d =
      Post-for_range (λ u. Died c j u × (u.pcb ≡ t.pcb) × (u.rest ≡ t.rest)) max_usem 0
        (close_usem i)
        (λ n u (q, p, r). elim (Option-cases ((u.pcb i).usems n)) [
          | inl e ↦ rw (e, close_usem) (q, p, r)
          | inr (x, e) ↦
              rw (e, close_usem) (Died-SameCore c j u _ (usem_close-SameCore x u) q, p, r)
        ])
        t (d, refl, refl)

  Post-known :
      (P : Unit {0} → Kernel S → Type 0) (o : Option (Unit {0} × Kernel S)) (Q : Kernel S → Type 0)
      → ((t : Kernel S) → o ≡ some (tt, t) → Q t)
      → Post P o
      → Post (λ a t. P a t × Q t) o
  Post-known P none Q h p = absurd p
  Post-known P (some (tt, t)) Q h p = (p, h t refl)

  -- From the state in which the process has died on, the services take back the memory of every
  -- zombie, and its own.
  abbrev pub Frees : Services S → Kernel S → S → Type 0
  Frees v k s =
      (z : ℕ)
      → z < proc_num
      → (z ≡ k.curr) ⊎ ((k.pcb z).status ≡ Status.zombie)
      → CanFree v (k.pcb z).pgdir (k.pcb z).kstack s

  killed_zombie :
      (code : ℕ) (k : Kernel S) (z : ℕ)
      → ((killed code k).pcb z).status ≡ Status.zombie
      → (z ≡ k.curr) ⊎ ((k.pcb z).status ≡ Status.zombie)
  killed_zombie code k z e = elim (ℕ_discrete z k.curr) [
    | yes q ↦ inl q
    | no q ↦ inr (ground arith)
  ]

  killed_holds :
      (code : ℕ) (k : Kernel S) (z : ℕ)
      → (((killed code k).pcb z).files ≡ (k.pcb z).files)
        × (((killed code k).pcb z).cwd ≡ (k.pcb z).cwd)
        × (((killed code k).pcb z).pgdir ≡ (k.pcb z).pgdir)
        × (((killed code k).pcb z).kstack ≡ (k.pcb z).kstack)
  killed_holds code k z = (ground arith, ground arith, ground arith, ground arith)

  closed-Dead :
      (v : Services S) (code : ℕ) (k : Kernel S) (j : ℕ) (u : Kernel S)
      → Post (λ _. Frees v k) (release v (hold (k.pcb k.curr)) k.rest)
      → Died k.curr j u
      → ((z : ℕ) → hold (u.pcb z) ≡ hold ((killed code k).pcb z))
      → u.rest ≡ k.rest
      → ((z : ℕ)
          → (u.pcb z).status ≡ Status.zombie
          → ((killed code k).pcb z).status ≡ Status.zombie)
      → Post
          (λ _. Dead v k.curr j (killed code k))
          ((for_range max_ufile 0 (close_file v k.curr) >> close_cwd v k.curr) u)
  closed-Dead v code k j u give d held rest zombie =
      let kept = killed_holds code k in
      let back =
        release-same v (Frees v k) (hold (k.pcb k.curr)) (hold (u.pcb k.curr)) k.rest u.rest
          (ap (λ (h : Held). h.files) (held k.curr) ∙ (kept k.curr).0)
          (ap (λ (h : Held). h.cwd) (held k.curr) ∙ (kept k.curr).1) rest give in
      rw (closings-eq v k.curr u) (
        Post-mono _ _ (around u (release v (hold (u.pcb k.curr)) u.rest))
          (λ _ w (s, e, f). subst (Dead v k.curr j (killed code k)) (sym e) (record {
            died = Died-SameCore k.curr j u (record u { rest = s }) (rest-SameCore s u) d;
            held = held;
            can = λ z hz x.
                subst (λ a. CanFree v a (u.pcb z).kstack s)
                  (sym (ap (λ (h : Held). h.pgdir) (held z) ∙ (kept z).2))
                  (subst (λ a. CanFree v (k.pcb z).pgdir a s)
                    (sym (ap (λ (h : Held). h.kstack) (held z) ∙ (kept z).3))
                    (f z hz (killed_zombie code k z (zombie z x))));
          }))
          (Post-around (Frees v k) u (release v (hold (u.pcb k.curr)) u.rest) back))

  makezombie-Dead :
      (v : Services S) (code : ℕ) (k : Kernel S) (j : ℕ)
      → Post (λ _. Frees v k) (release v (hold (k.pcb k.curr)) k.rest)
      → IsRunning Waiting.idle k
      → (k.pcb j).status ≡ Status.ready
      → Post (λ _. Dead v k.curr j (killed code k)) (proc_makezombie v k.curr code k)
  unfolding proc_makezombie
  makezombie-Dead v code k j give r ready =
      Post->>= (λ _ t. Died k.curr j (orphan k.curr t) × SameHeld (killed code k) (orphan k.curr t))
        (λ _. Dead v k.curr j (killed code k)) (wake_parent k.curr) _ (killed code k)
        (Post-known _ (wake_parent k.curr (killed code k))
          (λ t. SameHeld (killed code k) (orphan k.curr t)) (gone-SameHeld k.curr (killed code k))
          (wake-Died code k r j ready))
        (λ _ t (d, s).
          Post->>=
            (λ _ u.
              Died k.curr j u × (u.pcb ≡ (orphan k.curr t).pcb) × (u.rest ≡ (orphan k.curr t).rest))
            (λ _. Dead v k.curr j (killed code k)) (for_range max_usem 0 (close_usem k.curr)) _
            (orphan k.curr t) (close_usems-kept k.curr k.curr j (orphan k.curr t) d)
            (λ _ u (q, p, e).
              closed-Dead v code k j u give q (λ z. ap (λ f. hold (f z)) p ∙ s.held z) (e ∙ s.rest)
                (λ z x. s.zombie z (ap (λ f. (f z).status) (sym p) ∙ x))))

  -- The caller is a zombie with this exit code, another process runs, the table is consistent with
  -- what that one is in, and the services can free every zombie.
  pub record Exited (v : Services S) (code : ℕ) (k : Kernel S) (r : Reply) (t : Kernel S)
      : Type 0 where
    pub switched : r ≡ Reply.switched
    pub other : t.curr ≢ k.curr
    pub is_zombie : (t.pcb k.curr).status ≡ Status.zombie
    pub exit_code : (t.pcb k.curr).exit_code ≡ code
    pub settles : Settles v r t

  -- The process that runs next is READY, so another one than the zombie.
  next_facts :
      (ctx : Context) (m c : ℕ) (t : Kernel S)
      → t.curr ≡ c
      → (t.pcb c).status ≡ Status.zombie
      → (t.pcb m).status ≡ Status.ready
      → ((proc_run m (saved ctx t)).curr ≢ c)
        × (((proc_run m (saved ctx t)).pcb c).status ≡ Status.zombie)
        × (((proc_run m (saved ctx t)).pcb c).exit_code ≡ (t.pcb c).exit_code)
  unfolding proc_run
  next_facts ctx m c t e z y =
      let ne : m ≢ c = λ q. absurd (ground (arith, z, y, ap (λ i. (t.pcb i).status) q)) in
      (ne, ground (arith, z, ne), ground (arith, ne))

  exited_code : (code : ℕ) (k : Kernel S) → ((killed code k).pcb k.curr).exit_code ≡ code
  exited_code code k = ground (arith, ==_refl k.curr)

  leaves :
      (v : Services S) (code : ℕ) (k t : Kernel S) (j : ℕ)
      → j < proc_num
      → k.curr < proc_num
      → Dead v k.curr j (killed code k) t
      → Post (λ _ u. Exited v code k Reply.switched u) (schedule (Context.user 0) t)
  leaves v code k t j hj hk d =
      let hc : t.curr < proc_num = subst (λ c. c < proc_num) (sym d.died.curr) hk in
      let (m, nx, runs) = schedule_runs-IsNext (Context.user 0) t j hc hj d.died.is_ready in
      let (a, b, c) =
        next_facts (Context.user 0) m k.curr t d.died.curr d.died.is_zombie nx.is_ready in
      let q = schedule-IsRunning (Context.user 0) t j hc hj d.died.is_ready (
        IsParked-saved_zombie (Context.user 0) t
          (ap (λ c. (t.pcb c).status) d.died.curr ∙ d.died.is_zombie) d.died.is_parked) in
      let w = schedule-SamePages (Context.user 0) t j hc hj d.died.is_ready in
      let u = proc_run m (saved (Context.user 0) t) in
      rw runs (record {
        switched = refl;
        other = a;
        is_zombie = b;
        exit_code = c ∙ ap (λ (h : Held). h.exit_code) (d.held k.curr) ∙ exited_code code k;
        settles = (
          subst (Post (λ _ x. Keeps Reply.switched x)) runs q,
          λ _. CanReap-SamePages v t u (subst (Post (λ _ x. SamePages t x)) runs w) d.can,
        );
      })

  -- If some process is READY, the table is consistent, and what the caller gives back of its open
  -- files and its directory is taken, and leaves a state from which the services free the memory of
  -- each zombie and of the caller, then `sys_exit` completes by switching to another process: the
  -- caller is a zombie with the exit code, and the table is consistent. That process reaches user
  -- code.
  pub sys_exit-Exited :
      (v : Services S) (code : ℕ) (k : Kernel S) (j : ℕ)
      → Post (λ _. Frees v k) (release v (hold (k.pcb k.curr)) k.rest)
      → j < proc_num
      → (k.pcb j).status ≡ Status.ready
      → IsRunning Waiting.idle k
      → Post (Exited v code k) (sys_exit v code k) × Post Rests (turn v (sys_exit v code) k)
  unfolding sys_exit
  sys_exit-Exited v code k j give hj ready r =
      let p : Post (Exited v code k) (sys_exit v code k) =
        Post->>= (λ _. Dead v k.curr j (killed code k)) (Exited v code k)
          (proc_makezombie v k.curr code) _ k (makezombie-Dead v code k j give r ready)
          (λ _ t d.
            Post->>= (λ _ u. Exited v code k Reply.switched u) (Exited v code k)
              (schedule (Context.user 0)) (λ _. pure Reply.switched) t
              (leaves v code k t j hj r.curr_lt d) (λ _ u q. q)) in
      (
        p,
        turn-IsRunning v (sys_exit v code) k
            (Post-mono _ _ (sys_exit v code k) (λ a t (x : Exited v code k a t). x.settles) p),
      )
