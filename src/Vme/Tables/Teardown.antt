-- ===== src/Vme/Tables/Teardown.antt =====
-- kernel/src/vme.c: `vm_teardown` of a directory without tables of its own.
use tiny_os_qemu.Base.{
  ℕ, zero, suc, ◌+◌, ◌-◌, ◌%◌, ◌<◌, ◌≤◌, ◌≡◌, ◌≢◌, refl, false, some, List, ◌∷◌, All, arith, sym,
  ◌∙◌,
}
use mathlib.Core.Path.{subst}
use tiny_os_qemu.Base.Exec.{Exec, bind-eq, for_range}
use tiny_os_qemu.Vme.{Vm, ker_mem, phy_mem, nr_entry, nr_kpt, page_down, entry, is_present, load}
use tiny_os_qemu.Vme.Pages.Chain.{Free, kfree-Free}
use tiny_os_qemu.Vme.Tables.{vm_teardown}
use tiny_os_qemu.Vme.Tables.Walk.{load-eq, entry-is_kernel}

-- A loop whose rounds do nothing.
for_range-still :
    {S : Type 0} (n i : ℕ) (body : ℕ → Exec S (Unit {0})) (s : S)
    → ((j : ℕ) → i ≤ j → j < i + n → body j s ≡ some (tt, s))
    → for_range n i body s ≡ some (tt, s)
unfolding for_range
for_range-still zero i body s h = refl
for_range-still (suc n) i body s h =
    bind-eq (body i) _ s s tt (h i (omega arith) (omega arith))
    ∙ for_range-still n (suc i) body s (λ j lo hi. h j (omega arith) (omega arith))

-- If a page is free and the directory, a page of the heap that is not, has no table above physical
-- memory, then `vm_teardown` frees the directory and no more.
pub vm_teardown-Free :
    (s : Vm) (pgdir q : ℕ) (qs : List ℕ)
    → pgdir % 4096 ≡ 0
    → ker_mem ≤ pgdir
    → pgdir < phy_mem
    → ((i : ℕ) → nr_kpt ≤ i → i < nr_entry → is_present (s.mem (entry pgdir i)) ≡ false)
    → All (λ r. r ≢ pgdir) (q ∷ qs)
    → Free s (q ∷ qs)
    → (t : Vm) × (vm_teardown pgdir s ≡ some (tt, t)) × (t.cr3 ≡ s.cr3) × Free t (pgdir ∷ q ∷ qs)
unfolding vm_teardown
vm_teardown-Free s pgdir q qs al lo hi gone ne c =
    let e : page_down pgdir ≡ pgdir = omega (arith, al) in
    let (t, k, _, same, f) =
      kfree-Free s pgdir q qs lo hi (subst (λ p. All (λ r. r ≢ p) (q ∷ qs)) (sym e) ne) c in
    (
      t,
      bind-eq (for_range (nr_entry - nr_kpt) nr_kpt _) _ s s tt (
            for_range-still (nr_entry - nr_kpt) nr_kpt _ s (λ j l h.
              bind-eq (load (entry pgdir j)) _ s s _
                (load-eq s _ (entry-is_kernel pgdir j al (omega arith) hi (omega arith)))
              ∙ rw (gone j l (omega arith)) refl))
          ∙ k,
      same,
      subst (λ p. Free t (p ∷ q ∷ qs)) e f,
    )
