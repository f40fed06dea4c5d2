-- ===== src/Proc/Sem.antt =====
-- kernel/src/sem.c: counting semaphores with a wait list, and the pool of user semaphores.
use tiny_os_qemu.Base.{
  ℕ, zero, suc, ◌+◌, ◌-◌, ◌||◌, Option, none, some, [], ◌∷◌, ◌++◌, ◌==◌, if◌then◌else◌, update,
}
use tiny_os_qemu.Proc.State.{
  Kernel, Sem, Status, set_status, set_proc, inc, dec, is_negative, user_sem_num,
}

-- Which semaphore: that of a process's children, or one of `user_sem`.
pub data SemRef : Type 0 where
  zombie_of : (proc : ℕ) → SemRef
  user_at : (usem : ℕ) → SemRef

-- Whether a call has returned, or has left the CPU to another process on its way.
pub data Flow : Type 0 where
  returned switched : Flow

abbrev pub sem_init : ℕ → Sem
sem_init v = record { value = v; wait_list = [] }

module _ {S : Type 0} where
  abbrev pub get_sem : SemRef → Kernel S → Sem
  get_sem (zombie_of p) k = (k.pcb p).zombie_sem
  get_sem (user_at u) k = (k.user_sem u).sem

  abbrev pub put_sem : SemRef → Sem → Kernel S → Kernel S
  put_sem (zombie_of p) s k = set_proc p (record (k.pcb p) { zombie_sem = s }) k
  put_sem (user_at u) s k = record k {
    user_sem = update k.user_sem u (record (k.user_sem u) { sem = s });
  }

  -- `list_enqueue` takes a node of the pool and asserts that there is one.
  unfoldable pub enqueue : SemRef → ℕ → Kernel S → Option (Kernel S)
  enqueue r p k =
      let s = get_sem r k in
      if k.free_nodes == 0
      then none
      else some (
          put_sem r (record s { wait_list = s.wait_list ++ p ∷ [] })
            (record k { free_nodes = k.free_nodes - 1 }))

  -- `list_dequeue` gives the node back; on an empty list it returns NULL, which `proc_addready`
  -- then writes through: a fault.
  unfoldable pub dequeue_ready : SemRef → Kernel S → Option (Kernel S)
  dequeue_ready r k =
      let s = get_sem r k in
      elim s.wait_list [
        | [] ↦ none
        | p ∷ l ↦ some (
            set_status p Status.ready
              (put_sem r (record s { wait_list = l }) (record k { free_nodes = k.free_nodes + 1 })))
      ]

  -- The part of `sem_p` before `proc_block`: `switched` says that the caller has to block.
  unfoldable pub sem_p_down : SemRef → Kernel S → Option (Flow × Kernel S)
  sem_p_down r k =
      let s = get_sem r k in
      let k' = put_sem r (record s { value = dec s.value }) k in
      if is_negative (dec s.value)
      then elim (enqueue r k.curr k') [ none ↦ none | some t ↦ some (Flow.switched, t) ]
      else some (Flow.returned, k')

  unfoldable pub sem_v : SemRef → Kernel S → Option (Kernel S)
  sem_v r k =
      let s = get_sem r k in
      let k' = put_sem r (record s { value = inc s.value }) k in
      if is_negative (inc s.value) || inc s.value == 0 then dequeue_ready r k' else some k'

  -- The first free slot of `user_sem` from `i` on, with `n` slots left.
  unfoldable pub find_usem : ℕ → ℕ → Kernel S → Option ℕ
  find_usem zero i k = none
  find_usem (suc n) i k =
      let later = find_usem n (suc i) k in if (k.user_sem i).ref == 0 then some i else later

  unfoldable pub usem_alloc : ℕ → Kernel S → Option ℕ × Kernel S
  usem_alloc v k = elim (find_usem user_sem_num 0 k) [
    | none ↦ (none, k)
    | some i ↦
        (some i, record k { user_sem = update k.user_sem i (record { sem = sem_init v; ref = 1 }) })
  ]

  abbrev set_ref : ℕ → ℕ → Kernel S → Kernel S
  set_ref u r k = record k { user_sem = update k.user_sem u (record (k.user_sem u) { ref = r }) }

  unfoldable pub usem_dup : ℕ → Kernel S → Kernel S
  usem_dup u k = set_ref u (inc (k.user_sem u).ref) k

  unfoldable pub usem_close : ℕ → Kernel S → Kernel S
  usem_close u k = set_ref u (dec (k.user_sem u).ref) k
