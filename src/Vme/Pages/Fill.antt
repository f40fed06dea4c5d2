-- ===== src/Vme/Pages/Fill.antt =====
-- kernel/src/vme.c: the loops that fill a page directory or a page table.
use tiny_os_qemu.Base.{
  ℕ, zero, suc, ◌+◌, ◌*◌, ◌%◌, ◌<◌, ◌≤◌, ◌≡◌, ◌≢◌, refl, true, some, List, [], ◌∷◌, All, update,
  ◌==◌, ==_refl, ==_iff, arith, ◌∙◌, Bool-cases, inl, inr, ◌⊎◌,
}
use mathlib.Core.Path.{subst}
use tiny_os_qemu.Base.Exec.{bind-eq, for_range}
use tiny_os_qemu.Vme.{Vm, phy_mem, entry, is_kernel, store}
use tiny_os_qemu.Vme.Pages.Chain.{IsPage, Chain, Chain-same, Chain-pages}

-- From `s` to `t` the entries `i` to `i + n` of the table at `p` have become those of `f`.
pub record IsFilled (s t : Vm) (p i n : ℕ) (f : ℕ → ℕ) : Type 0 where
  pub inside : (j : ℕ) → i ≤ j → j < i + n → t.mem (entry p j) ≡ f j
  pub outside : (a : ℕ) → (a < entry p i) ⊎ (entry p (i + n) ≤ a) → t.mem a ≡ s.mem a
  pub same_list : t.free_page_list ≡ s.free_page_list
  pub same_cr3 : t.cr3 ≡ s.cr3

pub store_one :
    (s : Vm) (a v : ℕ)
    → is_kernel a ≡ true
    → store a v s ≡ some (tt, record s { mem = update s.mem a v })
unfolding store
store_one s a v h = rw (h, store) refl

pub fill_entries :
    (n i p : ℕ) (f : ℕ → ℕ) (s : Vm)
    → 4096 ≤ p
    → p + (i + n) * 4 ≤ phy_mem
    → (t : Vm) × (for_range n i (λ j. store (entry p j) (f j)) s ≡ some (tt, t))
      × IsFilled s t p i n f
unfolding for_range
fill_entries zero i p f s lo hi = (
  s,
  refl,
  record {
    inside = λ j a b. absurd (omega arith);
    outside = λ a o. refl;
    same_list = refl;
    same_cr3 = refl;
  },
)
fill_entries (suc n) i p f s lo hi =
    let u : Vm = record s { mem = update s.mem (entry p i) (f i) } in
    let (t, e, r) = fill_entries n (suc i) p f u lo (omega arith) in
    (
      t,
      bind-eq (store (entry p i) (f i)) _ s u tt (store_one s _ _ (ground arith)) ∙ e,
      record {
        inside = λ j a b. elim (Bool-cases (i == j)) [
          | inl q ↦
              subst (λ x. t.mem (entry p x) ≡ f x) ((==_iff i j).0 q)
                (r.outside (entry p i) (inl (omega arith)) ∙ ground (arith, ==_refl (entry p i)))
          | inr q ↦ r.inside j (ground arith) (omega arith)
        ];
        outside = λ a o. r.outside a (further a o) ∙ ground (arith, o);
        same_list = r.same_list;
        same_cr3 = r.same_cr3;
      },
    )
  where
    further :
        (a : ℕ)
        → (a < entry p i) ⊎ (entry p (i + suc n) ≤ a)
        → (a < entry p (suc i)) ⊎ (entry p (suc i + n) ≤ a)
    further a (inl x) = inl (omega arith)
    further a (inr x) = inr (omega arith)

-- The free pages stay free when the table is none of them.
pub fill-Chain :
    (s t : Vm) (p i n start : ℕ) (f : ℕ → ℕ) (fs : List ℕ)
    → IsFilled s t p i n f
    → p % 4096 ≡ 0
    → i + n ≤ 1024
    → All (λ r. r ≢ p) fs
    → Chain s.mem start fs
    → Chain t.mem start fs
fill-Chain s t p i n start f fs x al le ne c =
    Chain-same s.mem t.mem start fs (go fs ne (Chain-pages s.mem start fs c)) c
  where
    away : (r : ℕ) → r ≢ p → r % 4096 ≡ 0 → (r < entry p i) ⊎ (entry p (i + n) ≤ r)
    away r nq h = ground arith

    go : (fs : List ℕ) → All (λ r. r ≢ p) fs → All IsPage fs → All (λ q. t.mem q ≡ s.mem q) fs
    go [] a b = tt
    go (q ∷ fs) a b = (x.outside q (away q a.0 b.0.0), go fs a.1 b.1)
