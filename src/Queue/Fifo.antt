-- ===== src/Queue/Fifo.antt =====
-- kernel/klib/list.c: a list and the pool of free nodes, as a queue.
use tiny_os_qemu.Base.{
  ℕ, ◌≡◌, ◌≢◌, refl, false, some, List, [], ◌∷◌, All, All-map, update, ◌==◌, ==_refl, arith, sym,
  ap, ◌∙◌,
}
use mathlib.Core.Path.{ap₂}
use tiny_os_qemu.Base.{◌++◌, map}
use tiny_os_qemu.Base.Exec.{bind-eq}
use tiny_os_qemu.Queue.{
  Nodes, list_add_next, list_remove_prev, bypass, list_empty, list_enqueue, list_dequeue,
}
use tiny_os_qemu.Queue.Ring.{
  Linked, Distinct, IsRing, Same, IsRing-Same, next-among, prev-among, Same-add, Same-bypass,
  add-IsRing, redirected,
}

abbrev pub Apart : List ℕ → List ℕ → Type 0
Apart X Y = All (λ x. All (λ y. y ≢ x) Y) X

Apart-sym : (X Y : List ℕ) → Apart X Y → Apart Y X
Apart-sym X [] a = tt
Apart-sym X (y ∷ Y) a =
    (All-map X (λ x h e. h.0 (sym e)) a, Apart-sym X Y (All-map X (λ x h. h.1) a))

All-append : (P : ℕ → Type 0) (xs : List ℕ) (e : ℕ) → All P (xs ++ (e ∷ [])) → All P xs × P e
All-append P [] e h = (tt, h.0)
All-append P (x ∷ xs) e h = ((h.0, (All-append P xs e h.1).0), (All-append P xs e h.1).1)

Distinct-append :
    (xs : List ℕ) (e : ℕ) → Distinct (xs ++ (e ∷ [])) → Distinct xs × All (λ x. e ≢ x) xs
Distinct-append [] e h = (tt, tt)
Distinct-append (x ∷ xs) e h =
    let (a, b) = Distinct-append xs e h.1 in
    let (c, d) = All-append (λ y. y ≢ x) xs e h.0 in ((c, a), (d, b))

Linked-append :
    (s : Nodes) (a b e : ℕ) (xs : List ℕ)
    → Linked s a (xs ++ (e ∷ [])) b
    → Linked s a xs e × (s.next e ≡ b) × (s.prev b ≡ e)
Linked-append s a b e [] (n, p, q) = ((n, p), q.0, q.1)
Linked-append s a b e (x ∷ xs) (n, p, l) =
    let (k, f, g) = Linked-append s x b e xs l in ((n, p, k), f, g)

abbrev moved : ℕ → ℕ → Nodes → Nodes
moved b e s = list_add_next b e (bypass e s)

-- The last node of ring `a` is put in front of ring `b`.
module _ (s : Nodes) (a b e : ℕ) (xs ys : List ℕ) (r : IsRing s a (xs ++ (e ∷ [])))
    (q : IsRing s b ys) (ap' : Apart (a ∷ xs ++ (e ∷ [])) (b ∷ ys)) where
  split : Linked s a xs e × (s.next e ≡ a) × (s.prev a ≡ e)
  split = Linked-append s a a e xs r.linked

  singles : Distinct (a ∷ xs) × All (λ x. e ≢ x) (a ∷ xs)
  singles = Distinct-append (a ∷ xs) e r.distinct

  heads : All (λ x. All (λ y. y ≢ x) (b ∷ ys)) (a ∷ xs)
  heads = (ap'.0, (All-append (λ x. All (λ y. y ≢ x) (b ∷ ys)) xs e ap'.1).0)

  last_apart : All (λ y. y ≢ e) (b ∷ ys)
  last_apart = (All-append (λ x. All (λ y. y ≢ x) (b ∷ ys)) xs e ap'.1).1

  left : IsRing (bypass e s) a xs
  left = record {
    linked = redirected s a e a xs split.0 singles.0 singles.0.0 split.1;
    distinct = singles.0;
  }

  right : IsRing (bypass e s) b ys
  right = IsRing-Same s (bypass e s) b ys (go (b ∷ ys) heads.0 from) q
    where
      from : All (λ y. y ≢ s.prev e) (b ∷ ys)
      from = prev-among (λ z. All (λ y. y ≢ z) (b ∷ ys)) s a e xs split.0 heads.0 heads.1

      go :
          (zs : List ℕ)
          → All (λ y. y ≢ a) zs
          → All (λ y. y ≢ s.prev e) zs
          → All (Same s (bypass e s)) zs
      go [] u v = tt
      go (z ∷ zs) u v = (Same-bypass s e z v.0 (λ k. u.0 (k ∙ split.1)), go zs u.1 v.1)

  moved-to : IsRing (moved b e s) b (e ∷ ys)
  moved-to = add-IsRing (bypass e s) b e ys last_apart right

  moved-from : IsRing (moved b e s) a xs
  moved-from = IsRing-Same (bypass e s) (moved b e s) a xs (go (a ∷ xs) heads singles.1) left
    where
      first : (z : ℕ) → All (λ y. y ≢ z) (b ∷ ys) → z ≢ (bypass e s).next b
      first z h k = next-among (λ y. y ≢ z) (bypass e s) b b ys right.linked h.0 h.1 (sym k)

      go :
          (zs : List ℕ)
          → All (λ x. All (λ y. y ≢ x) (b ∷ ys)) zs
          → All (λ x. e ≢ x) zs
          → All (Same (bypass e s) (moved b e s)) zs
      go [] u v = tt
      go (z ∷ zs) u v = (
        Same-add (bypass e s) b e z (λ k. last_apart.0 (sym k)) (λ k. u.0.0 (sym k))
            (λ k. v.0 (sym k)) (first z u.0),
        go zs u.1 v.1,
      )

  moved-Apart : Apart (a ∷ xs) (b ∷ e ∷ ys)
  moved-Apart = go (a ∷ xs) heads singles.1
    where
      go :
          (zs : List ℕ)
          → All (λ x. All (λ y. y ≢ x) (b ∷ ys)) zs
          → All (λ x. e ≢ x) zs
          → Apart zs (b ∷ e ∷ ys)
      go [] u v = tt
      go (z ∷ zs) u v = ((u.0.0, (v.0, u.0.1)), go zs u.1 v.1)

  not_empty : list_empty a s ≡ false
  not_empty = flip (next-among (λ z. z ≢ a) s a e xs split.0 singles.1.0 singles.0.0)
    where
      flip : {x y : ℕ} → x ≢ y → (y == x) ≡ false
      flip h = ground arith

  remove-eq : list_remove_prev a s ≡ some (e, bypass e s)
  unfolding list_remove_prev
  remove-eq = rw (not_empty, list_remove_prev) (ap (λ z. some (z, bypass z s)) split.2)

-- The pool of free nodes `fs` and the list of the nodes `xs` share no node.
pub record IsPool (s : Nodes) (free_list list : ℕ) (fs xs : List ℕ) : Type 0 where
  pub free : IsRing s free_list fs
  pub used : IsRing s list xs
  pub apart : Apart (free_list ∷ fs) (list ∷ xs)

map-ptr :
    (g : ℕ → ℕ) (f v : ℕ) (xs : List ℕ) → All (λ x. x ≢ f) xs → map (update g f v) xs ≡ map g xs
map-ptr g f v [] h = refl
map-ptr g f v (x ∷ xs) h = ap₂ (λ a b. a ∷ b) (ground (arith, h.0)) (map-ptr g f v xs h.1)

dequeue-eq :
    (s : Nodes) (free_list list e : ℕ)
    → list_empty list s ≡ false
    → list_remove_prev list s ≡ some (e, bypass e s)
    → list_dequeue free_list list s ≡ some (s.ptr e, moved free_list e s)
unfolding list_dequeue
dequeue-eq s free_list list e h r =
    rw (h, list_dequeue) (bind-eq (list_remove_prev list) _ s (bypass e s) e r)

-- With a free node, `list_enqueue` puts it in front of the list with the value; the other values
-- stay as they are.
pub list_enqueue-IsPool :
    (s : Nodes) (free_list list v f : ℕ) (fs xs : List ℕ)
    → IsPool s free_list list (fs ++ (f ∷ [])) xs
    → (t : Nodes) × (list_enqueue free_list list v s ≡ some (f, t))
      × IsPool t free_list list fs (f ∷ xs)
      × (map t.ptr (f ∷ xs) ≡ v ∷ map s.ptr xs)
unfolding list_enqueue
list_enqueue-IsPool s free_list list v f fs xs p =
    let b = bypass f s in
    let w : Nodes = record b { ptr = update s.ptr f v } in
    let from = moved-from s free_list list f fs xs p.free p.used p.apart in
    let to = moved-to s free_list list f fs xs p.free p.used p.apart in
    (
      list_add_next list f w,
      bind-eq (list_remove_prev free_list) _ s b f
          (remove-eq s free_list list f fs xs p.free p.used p.apart),
      record {
        free = record { linked = from.linked; distinct = from.distinct };
        used = record { linked = to.linked; distinct = to.distinct };
        apart = moved-Apart s free_list list f fs xs p.free p.used p.apart;
      },
      ap₂ (λ a b. a ∷ b) (ground (arith, ==_refl f)) (map-ptr s.ptr f v xs to.distinct.1.0),
    )

-- `list_dequeue` takes the last node out of the list, returns its value, and puts it in front of
-- the free nodes; the values stay as they are.
pub list_dequeue-IsPool :
    (s : Nodes) (free_list list e : ℕ) (fs xs : List ℕ)
    → IsPool s free_list list fs (xs ++ (e ∷ []))
    → (t : Nodes) × (list_dequeue free_list list s ≡ some (s.ptr e, t))
      × IsPool t free_list list (e ∷ fs) xs
      × (t.ptr ≡ s.ptr)
list_dequeue-IsPool s free_list list e fs xs p =
    let away = Apart-sym (free_list ∷ fs) (list ∷ xs ++ (e ∷ [])) p.apart in
    (
      moved free_list e s,
      dequeue-eq s free_list list e (not_empty s list free_list e xs fs p.used p.free away)
          (remove-eq s list free_list e xs fs p.used p.free away),
      record {
        free = moved-to s list free_list e xs fs p.used p.free away;
        used = moved-from s list free_list e xs fs p.used p.free away;
        apart =
            Apart-sym (list ∷ xs) (free_list ∷ e ∷ fs)
              (moved-Apart s list free_list e xs fs p.used p.free away);
      },
      refl,
    )
