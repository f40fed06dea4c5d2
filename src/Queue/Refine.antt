-- ===== src/Queue/Refine.antt =====
-- kernel/klib/list.c: the contract of the lists, a first-in first-out queue and a number of free nodes.
use tiny_os_qemu.Base.{ℕ, suc, ◌≡◌, refl, some, List, [], ◌∷◌, arith, sym, ap, ◌∙◌, length}
use mathlib.Core.Path.{subst}
use tiny_os_qemu.Base.{◌++◌, map}
use tiny_os_qemu.Queue.{Nodes, list_enqueue, list_dequeue}
use tiny_os_qemu.Queue.Fifo.{IsPool, list_enqueue-IsPool, list_dequeue-IsPool}

-- The values of the list, the newest first, and the number of free nodes.
pub record IsQueue (s : Nodes) (free_list list n : ℕ) (vs : List ℕ) : Type 0 where
  pub fs : List ℕ
  pub xs : List ℕ
  pub pool : IsPool s free_list list fs xs
  pub size : length fs ≡ n
  pub values : map s.ptr xs ≡ vs

-- A list that is not empty has a last element.
split_last : (x : ℕ) (xs : List ℕ) → (ys : List ℕ) × (e : ℕ) × (x ∷ xs ≡ ys ++ (e ∷ []))
split_last x [] = ([], x, refl)
split_last x (y ∷ xs) = let (ys, e, q) = split_last y xs in (x ∷ ys, e, ap (λ z. x ∷ z) q)

some_last :
    (n : ℕ) (fs : List ℕ) → length fs ≡ suc n → (ys : List ℕ) × (e : ℕ) × (fs ≡ ys ++ (e ∷ []))
some_last n [] h = absurd (omega arith)
some_last n (f ∷ fs) h = split_last f fs

length-last : (ys : List ℕ) (e : ℕ) → length (ys ++ (e ∷ [])) ≡ suc (length ys)
length-last [] e = refl
length-last (y ∷ ys) e = ap suc (length-last ys e)

map-last : (g : ℕ → ℕ) (ys : List ℕ) (e : ℕ) → map g (ys ++ (e ∷ [])) ≡ map g ys ++ (g e ∷ [])
map-last g [] e = refl
map-last g (y ∷ ys) e = ap (λ z. g y ∷ z) (map-last g ys e)

last_inj : (us vs : List ℕ) (a b : ℕ) → us ++ (a ∷ []) ≡ vs ++ (b ∷ []) → (us ≡ vs) × (a ≡ b)
last_inj [] [] a b h = (refl, cc)
last_inj [] (v ∷ vs) a b h = absurd (omega (arith, ap length h, length-last vs b))
last_inj (u ∷ us) [] a b h = absurd (omega (arith, ap length h, length-last us a))
last_inj (u ∷ us) (v ∷ vs) a b h = let (q, e) = last_inj us vs a b cc in (cc, e)

-- While a node is free, `list_enqueue` adds a value to the queue and takes one of the free nodes.
pub list_enqueue-IsQueue :
    (s : Nodes) (free_list list v n : ℕ) (vs : List ℕ)
    → IsQueue s free_list list (suc n) vs
    → (f : ℕ) × (t : Nodes) × (list_enqueue free_list list v s ≡ some (f, t))
      × IsQueue t free_list list n (v ∷ vs)
list_enqueue-IsQueue s free_list list v n vs q =
    let (ys, f, e) = some_last n q.fs q.size in
    let (t, run, pool, vals) =
      list_enqueue-IsPool s free_list list v f ys q.xs
        (subst (λ z. IsPool s free_list list z q.xs) e q.pool) in
    (
      f,
      t,
      run,
      record {
        fs = ys;
        xs = f ∷ q.xs;
        pool = pool;
        size = omega (arith, q.size, ap length e, length-last ys f);
        values = vals ∙ ap (λ z. v ∷ z) q.values;
      },
    )

-- `list_dequeue` of a list that is not empty returns the oldest value, takes it out of the queue, and
-- gives its node back.
pub list_dequeue-IsQueue :
    (s : Nodes) (free_list list v n : ℕ) (vs : List ℕ)
    → IsQueue s free_list list n (vs ++ (v ∷ []))
    → (t : Nodes) × (list_dequeue free_list list s ≡ some (v, t))
      × IsQueue t free_list list (suc n) vs
list_dequeue-IsQueue s free_list list v n vs q = go q.xs refl
  where
    go :
        (zs : List ℕ)
        → q.xs ≡ zs
        → (t : Nodes) × (list_dequeue free_list list s ≡ some (v, t))
          × IsQueue t free_list list (suc n) vs
    go [] z = absurd (omega (arith, ap length (sym q.values ∙ ap (map s.ptr) z), length-last vs v))
    go (x ∷ zs) z =
        let (ys, e, k) = split_last x zs in
        let (us, w) = last_inj (map s.ptr ys) vs (s.ptr e) v (
          sym (map-last s.ptr ys e) ∙ ap (map s.ptr) (sym k) ∙ ap (map s.ptr) (sym z) ∙ q.values) in
        let (t, run, pool, same) =
          list_dequeue-IsPool s free_list list e q.fs ys
            (subst (λ y. IsPool s free_list list q.fs y) (z ∙ k) q.pool) in
        (
          t,
          run ∙ ap (λ y. some (y, t)) w,
          record {
            fs = e ∷ q.fs;
            xs = ys;
            pool = pool;
            size = ap suc q.size;
            values = ap (λ g. map g ys) same ∙ us;
          },
        )
