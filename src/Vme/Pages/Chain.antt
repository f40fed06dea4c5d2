-- ===== src/Vme/Pages/Chain.antt =====
-- kernel/src/vme.c: the free pages as a list.
use tiny_os_qemu.Base.{
  ℕ, ◌%◌, ◌<◌, ◌≤◌, ◌≡◌, ◌≢◌, refl, true, false, ◌&&◌, some, List, [], ◌∷◌, All, All-map, update,
  ltb, leb, ◌==◌, ==_refl, arith, sym, ap,
}
use mathlib.Core.Path.{subst}
use tiny_os_qemu.Vme.{Vm, ker_mem, phy_mem, page_down, load, store, zero_page, is_kernel}
use tiny_os_qemu.Vme.Pages.{kalloc, kfree, clear_page, in_heap}

-- A page of the heap.
abbrev pub IsPage : ℕ → Type 0
IsPage q = (q % 4096 ≡ 0) × (ker_mem ≤ q) × (q < phy_mem)

-- From `p` on the free pages are these, each once, and NULL ends them.
abbrev pub Chain : (ℕ → ℕ) → ℕ → List ℕ → Type 0
Chain m p [] = p ≡ 0
Chain m p (q ∷ qs) = (p ≡ q) × IsPage q × All (λ r. r ≢ q) qs × Chain m (m q) qs

-- The free pages of a state.
abbrev pub Free : Vm → List ℕ → Type 0
Free s qs = Chain s.mem s.free_page_list qs

pub Chain-same :
    (m u : ℕ → ℕ) (p : ℕ) (qs : List ℕ) → All (λ q. u q ≡ m q) qs → Chain m p qs → Chain u p qs
Chain-same m u p [] a c = c
Chain-same m u p (q ∷ qs) a c =
    (c.0, c.1, c.2, Chain-same m u (u q) qs a.1 (subst (λ x. Chain m x qs) (sym a.0) c.3))

pub Chain-pages : (m : ℕ → ℕ) (p : ℕ) (qs : List ℕ) → Chain m p qs → All IsPage qs
Chain-pages m p [] c = tt
Chain-pages m p (q ∷ qs) c = (c.1, Chain-pages m (m q) qs c.3)

-- Another page is not touched.
pub zero_page-other :
    (m : ℕ → ℕ) (p q : ℕ) → p % 4096 ≡ 0 → q % 4096 ≡ 0 → q ≢ p → zero_page p m q ≡ m q
zero_page-other m p q h k ne = ground arith

All-zip :
    {P Q R : ℕ → Type 0} (xs : List ℕ)
    → ((x : ℕ) → P x → Q x → R x)
    → All P xs
    → All Q xs
    → All R xs
All-zip [] f a b = tt
All-zip (x ∷ xs) f a b = (f x a.0 b.0, All-zip xs f a.1 b.1)

pub Chain-zero_page :
    (m : ℕ → ℕ) (p start : ℕ) (qs : List ℕ)
    → p % 4096 ≡ 0
    → All (λ r. r ≢ p) qs
    → Chain m start qs
    → Chain (zero_page p m) start qs
Chain-zero_page m p start qs h a c =
    Chain-same m (zero_page p m) start qs
      (All-zip qs (λ q pg ne. zero_page-other m p q h pg.0 ne) (Chain-pages m start qs c) a) c

pub Chain-update :
    (m : ℕ → ℕ) (a v start : ℕ) (qs : List ℕ)
    → All (λ r. r ≢ a) qs
    → Chain m start qs
    → Chain (update m a v) start qs
Chain-update m a v start qs ne c =
    Chain-same m (update m a v) start qs (All-map qs (λ q h. ground arith) ne) c

abbrev pub taken : ℕ → Vm → Vm
taken q s = record s { mem = zero_page q s.mem; free_page_list = s.mem q }

pub is_kernel-page : (q : ℕ) → IsPage q → is_kernel q ≡ true
is_kernel-page q pg = ground arith

page_nonzero : (q : ℕ) → IsPage q → (q == 0) ≡ false
page_nonzero q pg = ground arith

kalloc-head :
    (s : Vm)
    → IsPage s.free_page_list
    → kalloc s ≡ some (s.free_page_list, taken s.free_page_list s)
unfolding kalloc load clear_page
kalloc-head s pg =
    rw (page_nonzero s.free_page_list pg)
      (rw (is_kernel-page s.free_page_list pg, load, clear_page) refl)

pub kalloc-eq : (s : Vm) (q : ℕ) → s.free_page_list ≡ q → IsPage q → kalloc s ≡ some (q, taken q s)
kalloc-eq s q e pg =
    subst (λ x. kalloc s ≡ some (x, taken x s)) e (kalloc-head s (subst IsPage (sym e) pg))

-- If the free pages are `q` and `qs`, then `kalloc` succeeds with `q`, which is filled with zeros;
-- no other word of the memory changes, and the free pages are then `qs`.
pub kalloc-Free :
    (s : Vm) (q : ℕ) (qs : List ℕ)
    → Free s (q ∷ qs)
    → (t : Vm) × (kalloc s ≡ some (q, t))
      × (t.mem ≡ zero_page q s.mem)
      × (t.cr3 ≡ s.cr3)
      × Free t qs
kalloc-Free s q qs c = (
  taken q s,
  kalloc-eq s q c.0 c.1,
  refl,
  refl,
  Chain-zero_page s.mem q (s.mem q) qs c.1.0 c.2 c.3,
)

-- The pages of the heap that `kfree` accepts.
abbrev given : ℕ → Vm → Vm
given q s = record s { mem = update (zero_page q s.mem) q s.free_page_list; free_page_list = q }

in_heap-page : (q : ℕ) → IsPage q → in_heap q ≡ true
in_heap-page q pg = ground arith

IsPage-page_down : (ptr : ℕ) → ker_mem ≤ ptr → ptr < phy_mem → IsPage (page_down ptr)
IsPage-page_down ptr h k = (ground arith, ground arith, ground arith)

ptr_ok : (ptr : ℕ) → ker_mem ≤ ptr → ptr < phy_mem → (leb ker_mem ptr && ltb ptr phy_mem) ≡ true
ptr_ok ptr h k = ground arith

ptr_in_heap : (ptr : ℕ) → ker_mem ≤ ptr → ptr < phy_mem → in_heap ptr ≡ true
ptr_in_heap ptr h k = ground arith

kfree-eq :
    (s : Vm) (ptr : ℕ)
    → ker_mem ≤ ptr
    → ptr < phy_mem
    → IsPage s.free_page_list
    → kfree ptr s ≡ some (tt, given (page_down ptr) s)
unfolding kfree store clear_page
kfree-eq s ptr h k pg = rw (ptr_ok ptr h k) (
    rw (in_heap-page s.free_page_list pg) (
      rw (ptr_in_heap ptr h k)
        (rw (is_kernel-page (page_down ptr) (IsPage-page_down ptr h k), store, clear_page) refl)))

-- If some page is free and `ptr` lies in a page of the heap that is not, then `kfree` succeeds: that
-- page is then the first free one, before the others, its other words are 0, and no word outside it
-- changes.
pub kfree-Free :
    (s : Vm) (ptr q : ℕ) (qs : List ℕ)
    → ker_mem ≤ ptr
    → ptr < phy_mem
    → All (λ r. r ≢ page_down ptr) (q ∷ qs)
    → Free s (q ∷ qs)
    → (t : Vm) × (kfree ptr s ≡ some (tt, t))
      × (t.mem ≡ update (zero_page (page_down ptr) s.mem) (page_down ptr) q)
      × (t.cr3 ≡ s.cr3)
      × Free t (page_down ptr ∷ q ∷ qs)
kfree-Free s ptr q qs h k ne c =
    let p = page_down ptr in
    let pg = IsPage-page_down ptr h k in
    (
      given p s,
      kfree-eq s ptr h k (subst IsPage (sym c.0) c.1),
      ap (λ x. update (zero_page p s.mem) p x) c.0,
      refl,
      (
        refl,
        pg,
        ne,
        subst (λ x. Chain (given p s).mem x (q ∷ qs)) (ground (arith, ==_refl p))
            (Chain-update (zero_page p s.mem) p s.free_page_list s.free_page_list (q ∷ qs) ne
              (Chain-zero_page s.mem p s.free_page_list (q ∷ qs) pg.0 ne c)),
      ),
    )
