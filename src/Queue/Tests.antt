-- ===== src/Queue/Tests.antt =====
-- kernel/klib/list.c: the theorems there at a small pool.
use tiny_os_qemu.Base.{ℕ, ◌≡◌, refl, true, some, [], ◌∷◌, ◌==◌, if◌then◌else◌, arith}
use tiny_os_qemu.Queue.{Nodes, list_enqueue, list_dequeue}
use tiny_os_qemu.Queue.Refine.{IsQueue, list_enqueue-IsQueue, list_dequeue-IsQueue}

-- The pool is at 1 and has node 3, the list is at 2 and has node 4 with a value.
abbrev next : ℕ → ℕ
next a = if a == 1 then 3 else if a == 3 then 1 else if a == 2 then 4 else 2

abbrev one_each : Nodes
one_each = record { prev = next; next = next; ptr = λ _. 77; inited = true }

one_each-IsQueue : IsQueue one_each 1 2 1 (77 ∷ [])
one_each-IsQueue = record {
  fs = 3 ∷ [];
  xs = 4 ∷ [];
  pool = record {
    free = record {
      linked = (refl, refl, (refl, refl));
      distinct = (((λ e. omega arith), tt), (tt, tt));
    };
    used = record {
      linked = (refl, refl, (refl, refl));
      distinct = (((λ e. omega arith), tt), (tt, tt));
    };
    apart = (
      ((λ e. omega arith), ((λ e. omega arith), tt)),
      (((λ e. omega arith), ((λ e. omega arith), tt)), tt),
    );
  };
  size = refl;
  values = refl;
}

list_enqueue-IsQueue_example :
    (f : ℕ) × (t : Nodes) × (list_enqueue 1 2 88 one_each ≡ some (f, t))
    × IsQueue t 1 2 0 (88 ∷ 77 ∷ [])
list_enqueue-IsQueue_example = list_enqueue-IsQueue one_each 1 2 88 0 (77 ∷ []) one_each-IsQueue

list_dequeue-IsQueue_example :
    (t : Nodes) × (list_dequeue 1 2 one_each ≡ some (77, t)) × IsQueue t 1 2 2 []
list_dequeue-IsQueue_example = list_dequeue-IsQueue one_each 1 2 77 1 [] one_each-IsQueue
