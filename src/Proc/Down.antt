-- ===== src/Proc/Down.antt =====
-- kernel/src/sem.c: the two ways through `sem_p` and through `sem_v`.
use tiny_os_qemu.Base.{
  ℕ, ◌+◌, ◌-◌, ◌≡◌, List, ◌||◌, Bool, true, false, some, none, [], ◌∷◌, ◌++◌, refl, arith, ◌⊎◌, ◌≢◌,
  inl, inr, Bool-cases, ◌==◌,
}
use tiny_os_qemu.Proc.State.{Kernel, Status, dec, inc, is_negative, set_status}
use tiny_os_qemu.Proc.Sem.{
  SemRef, Flow, sem_p_down, sem_v, dequeue_ready, enqueue, get_sem, put_sem,
}

module _ {S : Type 0} where
  -- With `p` at the end of the wait list.
  abbrev pub queue : SemRef → ℕ → Kernel S → Kernel S
  queue r p k =
      put_sem r (record (get_sem r k) { wait_list = (get_sem r k).wait_list ++ p ∷ [] })
        (record k { free_nodes = k.free_nodes - 1 })

  abbrev pub lower : SemRef → Kernel S → Kernel S
  lower r k = put_sem r (record (get_sem r k) { value = dec (get_sem r k).value }) k

  enqueue_cases :
      (r : SemRef) (p : ℕ) (k : Kernel S)
      → (enqueue r p k ≡ none) ⊎ (enqueue r p k ≡ some (queue r p k))
  unfolding enqueue
  enqueue_cases r p k = elim (Bool-cases (k.free_nodes == 0)) [
    | inl e ↦ inl (rw e refl)
    | inr e ↦ inr (rw e refl)
  ]

  blocks-eq :
      (r : SemRef) (k : Kernel S)
      → is_negative (dec (get_sem r k).value) ≡ true
      → sem_p_down r k
        ≡ elim (enqueue r k.curr (lower r k)) [ none ↦ none | some t ↦ some (Flow.switched, t) ]
  unfolding sem_p_down
  blocks-eq r k h = rw h refl

  enqueue-none : (r : SemRef) (p : ℕ) (k : Kernel S) → k.free_nodes ≢ 0 → enqueue r p k ≢ none
  unfolding enqueue
  enqueue-none r p k h = elim (Bool-cases (k.free_nodes == 0)) [
    | inl e ↦ absurd (ground arith)
    | inr e ↦ rw e (λ q. cc)
  ]

  lower-free_nodes : (r : SemRef) (k : Kernel S) → (lower r k).free_nodes ≡ k.free_nodes
  lower-free_nodes (SemRef.zombie_of p) k = refl
  lower-free_nodes (SemRef.user_at u) k = refl

  -- A negative count blocks the caller, unless the pool of list nodes is empty.
  pub down_blocks :
      (r : SemRef) (k : Kernel S)
      → is_negative (dec (get_sem r k).value) ≡ true
      → (sem_p_down r k ≡ none)
        ⊎ (sem_p_down r k ≡ some (Flow.switched, queue r k.curr (lower r k)))
  down_blocks r k h = elim (enqueue_cases r k.curr (lower r k)) [
    | inl e ↦ inl (rw (blocks-eq r k h) (rw e refl))
    | inr e ↦ inr (rw (blocks-eq r k h) (rw e refl))
  ]

  pub down-none :
      (r : SemRef) (k : Kernel S)
      → k.free_nodes ≢ 0
      → is_negative (dec (get_sem r k).value) ≡ true
      → sem_p_down r k ≢ none
  down-none r k free h e = elim (enqueue_cases r k.curr (lower r k)) [
    | inl q ↦ enqueue-none r k.curr (lower r k) (ground (arith, lower-free_nodes r k)) q
    | inr q ↦ absurd (ground (arith, blocks-eq r k h))
  ]

  pub down_returns :
      (r : SemRef) (k : Kernel S)
      → is_negative (dec (get_sem r k).value) ≡ false
      → sem_p_down r k ≡ some (Flow.returned, lower r k)
  unfolding sem_p_down
  down_returns r k h = rw h refl

-- The count after the increment is not positive.
abbrev pub wakes : ℕ → Bool
wakes v = is_negative v || v == 0

module _ {S : Type 0} where
  abbrev pub raise : SemRef → Kernel S → Kernel S
  raise r k = put_sem r (record (get_sem r k) { value = inc (get_sem r k).value }) k

  -- With `p` readied, the rest `l` of the wait list, and a list node back in the pool.
  abbrev pub wake : SemRef → ℕ → List ℕ → Kernel S → Kernel S
  wake r p l k = set_status p Status.ready (
      put_sem r (record (get_sem r k) { wait_list = l })
        (record k { free_nodes = k.free_nodes + 1 }))

  -- A positive count after the increment wakes no one.
  pub up_returns :
      (r : SemRef) (k : Kernel S)
      → wakes (inc (get_sem r k).value) ≡ false
      → sem_v r k ≡ some (raise r k)
  unfolding sem_v
  up_returns r k h = rw h refl

  dequeue-eq :
      (r : SemRef) (k : Kernel S) (p : ℕ) (l : List ℕ)
      → (get_sem r k).wait_list ≡ p ∷ l
      → dequeue_ready r k ≡ some (wake r p l k)
  unfolding dequeue_ready
  dequeue-eq r k p l h = rw (h, dequeue_ready) refl

  -- Any other count readies the process that has waited longest.
  pub up_wakes :
      (r : SemRef) (k : Kernel S) (p : ℕ) (l : List ℕ)
      → wakes (inc (get_sem r k).value) ≡ true
      → (get_sem r (raise r k)).wait_list ≡ p ∷ l
      → sem_v r k ≡ some (wake r p l (raise r k))
  unfolding sem_v
  up_wakes r k p l h q = rw h (dequeue-eq r (raise r k) p l q)
