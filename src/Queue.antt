-- ===== src/Queue.antt =====
-- kernel/klib/list.c: doubly linked rings of list nodes, and the pool of free nodes.
pub mod Ring
pub mod Fifo
pub mod Refine
mod Tests
use tiny_os_qemu.Base.{
  ℕ, zero, suc, ◌+◌, ◌*◌, Bool, true, false, not, Option, none, some, update, ◌==◌, if◌then◌else◌,
}
use tiny_os_qemu.Base.Exec.{Exec, pure, ◌>>=◌, ◌>>◌, get, modify, assert, for_range, when}

-- The fields of all nodes, by their addresses, and `inited`.
pub record Nodes : Type 0 where
  pub prev : ℕ → ℕ
  pub next : ℕ → ℕ
  pub ptr : ℕ → ℕ
  pub inited : Bool

abbrev pub list_num : ℕ
list_num = 256

abbrev pub set_prev : ℕ → ℕ → Nodes → Nodes
set_prev l v s = record s { prev = update s.prev l v }

abbrev pub set_next : ℕ → ℕ → Nodes → Nodes
set_next l v s = record s { next = update s.next l v }

-- The first two assignments of `list_add_next`, to the new node, and the other two.
abbrev pub aim : ℕ → ℕ → Nodes → Nodes
aim list p s = set_next p ((set_prev p list s).next list) (set_prev p list s)

abbrev pub hook : ℕ → Nodes → Nodes
hook p s = set_prev ((set_next (s.prev p) p s).next p) p (set_next (s.prev p) p s)

abbrev pub list_add_next : ℕ → ℕ → Nodes → Nodes
list_add_next list p s = hook p (aim list p s)

abbrev pub list_empty : ℕ → Nodes → Bool
list_empty list s = list == s.next list

-- `entry` is taken out of its ring.
abbrev pub bypass : ℕ → Nodes → Nodes
bypass p s =
    set_prev ((set_next (s.prev p) (s.next p) s).next p) (s.prev p)
      (set_next (s.prev p) (s.next p) s)

unfoldable pub list_remove_prev : ℕ → Exec Nodes ℕ
list_remove_prev list s = elim (list_empty list s) [
  | true ↦ none
  | false ↦ some (s.prev list, bypass (s.prev list) s)
]

-- `free_list` and `list_buf` are the addresses that the linker gives them; `size` is that of a node.
module _ (free_list list_buf size : ℕ) where
  abbrev pub self : ℕ → Nodes → Nodes
  self list s = set_prev list list (set_next list list s)

  unfoldable pub init_list : Exec Nodes (Unit {0})
  init_list = do
    modify (self free_list)
    for_range list_num 0 (λ i. modify (list_add_next free_list (list_buf + i * size)))

  unfoldable pub list_init : ℕ → Exec Nodes (Unit {0})
  list_init list = do
    s ← get
    when (not s.inited) (do modify (λ t. record t { inited = true }); init_list)
    modify (self list)

-- `free_list` is where the pool is. The result is the node that holds `v`.
unfoldable pub list_enqueue : ℕ → ℕ → ℕ → Exec Nodes ℕ
list_enqueue free_list list v = do
  l ← list_remove_prev free_list
  modify (λ s. record s { ptr = update s.ptr l v })
  modify (list_add_next list l)
  pure l

-- NULL is 0.
unfoldable pub list_dequeue : ℕ → ℕ → Exec Nodes ℕ
list_dequeue free_list list s = elim (list_empty list s) [
  | true ↦ some (0, s)
  | false ↦
      (do l ← list_remove_prev list; t ← get; modify (list_add_next free_list l); pure (t.ptr l)) s
]

-- Here the next node is unlinked first.
unfoldable pub list_remove : ℕ → ℕ → Nodes → Nodes
list_remove free_list e s =
    let t = set_prev (s.next e) (s.prev e) s in
    list_add_next free_list e (set_next (t.prev e) (t.next e) t)
