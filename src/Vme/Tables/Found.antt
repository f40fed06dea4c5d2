-- ===== src/Vme/Tables/Found.antt =====
-- kernel/src/vme.c: `vm_walk` behind `vm_map`.
use tiny_os_qemu.Base.{
  ℕ, ◌+◌, ◌-◌, ◌*◌, ◌/◌, ◌^◌, ◌<◌, ◌≤◌, ◌≡◌, ◌≢◌, refl, true, false, ◌&&◌, none, some, List, All,
  leb, ◌==◌, if◌then◌else◌, arith, sym, ap, ◌∙◌, Bool-cases, inl, inr, length,
}
use mathlib.Core.Path.{subst}
use tiny_os_qemu.Base.Exec.{bind-eq, assert-eq}
use tiny_os_qemu.Vme.{
  Vm, phy_mem, page_down, page_up, bit, has_bit, make_entry, is_present, frame, entry, addr_to_dir,
  addr_to_tbl, addr_to_off, load,
}
use tiny_os_qemu.Vme.Pages.Chain.{Free, IsPage, Chain-pages}
use tiny_os_qemu.Vme.Space.{lookup, IsSpace, dir_lt, frame-make_entry, is_present-make_entry}
use tiny_os_qemu.Vme.Tables.{vm_map, vm_walk, vm_walkpte, use_table, add_table}
use tiny_os_qemu.Vme.Tables.Walk.{leaf_of, load-eq, entry-is_kernel, vm_walkpte-use, vm_walkpte-add}
use tiny_os_qemu.Vme.Tables.Map.{leaf-is_kernel, leaf_value}
use tiny_os_qemu.Vme.Tables.Map.Range.{pages_of, vm_map-IsRanged}

use_table-none :
    (s : Vm) (pde e va : ℕ) → use_table pde e va 0 s ≡ some (entry (frame e) (addr_to_tbl va), s)
unfolding use_table
use_table-none s pde e va = refl

add_table-none : (s : Vm) (pde va prot : ℕ) → bit 0 prot ≡ 0 → add_table pde va prot s ≡ some (0, s)
unfolding add_table
add_table-none s pde va prot hb =
    let e : has_bit 0 prot ≡ false = ground (arith, hb) in rw (e, add_table) refl

-- A present entry is one in a table.
has_table :
    (m : ℕ → ℕ) (pgdir va : ℕ)
    → is_present (lookup m pgdir va) ≡ true
    → is_present (m (entry pgdir (addr_to_dir va))) ≡ true
has_table m pgdir va p = elim (Bool-cases (is_present (m (entry pgdir (addr_to_dir va))))) [
  | inl e ↦ e
  | inr e ↦
      absurd
        (none_there (subst (λ b. is_present (if b then m (leaf_of m pgdir va) else 0) ≡ true) e p))
]
  where
    none_there : is_present 0 ≡ true → ⊥
    none_there x = cc

module _ (s : Vm) (pgdir va : ℕ) (fs : List ℕ) (h : va < 2 ^ 32) (w : IsSpace s.mem pgdir fs) where
  walk_to :
      is_present (s.mem (entry pgdir (addr_to_dir va))) ≡ true
      → vm_walkpte pgdir va 0 s ≡ some (leaf_of s.mem pgdir va, s)
  walk_to p =
      vm_walkpte-use s pgdir va 0
        (entry-is_kernel pgdir (addr_to_dir va) w.aligned w.low w.high (dir_lt va h)) p
      ∙ use_table-none s _ _ va

  pub vm_walk-lookup :
      phy_mem ≤ va
      → is_present (lookup s.mem pgdir va) ≡ true
      → frame (lookup s.mem pgdir va) ≢ 0
      → vm_walk pgdir va 0 s ≡ some (frame (lookup s.mem pgdir va) + addr_to_off va, s)
  unfolding vm_walk
  vm_walk-lookup lo p ne =
      let t = has_table s.mem pgdir va p in
      let v = leaf_value s pgdir va fs h w t in
      bind-eq (vm_walkpte pgdir va 0) _ s s _ (walk_to t)
      ∙ bind-eq (load (leaf_of s.mem pgdir va)) _ s s _
          (load-eq s _ (leaf-is_kernel s pgdir va fs h w t))
      ∙ assert-eq (leb phy_mem va) _ s (ground arith)
      ∙ ap (λ e. some (if frame e == 0 && true then 0 else frame e + addr_to_off va, s)) (sym v)
      ∙ rw (nonzero (frame (lookup s.mem pgdir va)) ne) refl
    where
      nonzero : (a : ℕ) → a ≢ 0 → (a == 0) ≡ false
      nonzero a n = ground arith

  -- For an address above physical memory without a page table, and whatever is asked for without
  -- PTE_P, `vm_walkpte` returns NULL, where `load` faults, and `vm_walk`, which has no other
  -- assertion to fail for this address, reads through that NULL.
  pub vm_walk-fault :
      (prot : ℕ)
      → bit 0 prot ≡ 0
      → phy_mem ≤ va
      → is_present (s.mem (entry pgdir (addr_to_dir va))) ≡ false
      → (vm_walkpte pgdir va prot s ≡ some (0, s))
        × (load 0 s ≡ none)
        × (vm_walk pgdir va prot s ≡ none)
  unfolding vm_walk load
  vm_walk-fault prot hb lo p =
      let e : vm_walkpte pgdir va prot s ≡ some (0, s) =
        vm_walkpte-add s pgdir va prot
          (entry-is_kernel pgdir (addr_to_dir va) w.aligned w.low w.high (dir_lt va h)) p
        ∙ add_table-none s _ va prot hb in
      (e, refl, bind-eq (vm_walkpte pgdir va prot) _ s s _ e)

lookup_page :
    (m : ℕ → ℕ) (pgdir va vb : ℕ) → va / 4096 ≡ vb / 4096 → lookup m pgdir va ≡ lookup m pgdir vb
lookup_page m pgdir va vb e =
    ap
      (λ x.
        if is_present (m (entry pgdir x))
        then m (entry (frame (m (entry pgdir x))) (addr_to_tbl va))
        else 0)
      {x = addr_to_dir va} {y = addr_to_dir vb} (omega arith)
    ∙ ap
        (λ x.
          if is_present (m (entry pgdir (addr_to_dir vb)))
          then m (entry (frame (m (entry pgdir (addr_to_dir vb)))) x)
          else 0)
        {x = addr_to_tbl va} {y = addr_to_tbl vb} (omega arith)

-- The first address of the page, and its number in the range.
page_in :
    (va len vb : ℕ)
    → page_down va ≤ vb
    → vb < page_up (va + len)
    → (k : ℕ) × (k < pages_of va len) × (page_down va + k * 4096 ≡ page_down vb)
page_in va len vb lo hi = ((vb - page_down va) / 4096, omega arith, omega arith)

page_itself : (q : ℕ) → IsPage q → page_down q ≡ q
page_itself q pg = omega arith

page_not_null : (q : ℕ) → IsPage q → q ≢ 0
page_not_null q pg e = omega arith

-- If `vm_map` covers the page of `vb` under the conditions for it to complete, and that page was not
-- mapped before, then `vm_walk` of `vb` afterwards gives its place in a page that was free, and
-- changes nothing.
pub vm_walk-vm_map :
    (s : Vm) (pgdir va len prot vb : ℕ) (fs : List ℕ)
    → prot < 8
    → bit 0 prot ≡ 1
    → phy_mem ≤ page_down va
    → page_down va ≤ vb
    → vb < page_up (va + len)
    → IsSpace s.mem pgdir fs
    → Free s fs
    → 2 * pages_of va len ≤ length fs
    → is_present (lookup s.mem pgdir vb) ≡ false
    → (t : Vm) × (q : ℕ) × (vm_map pgdir va len prot s ≡ some (tt, t))
      × ((P : ℕ → Type 0) → All P fs → P q)
      × (vm_walk pgdir vb 0 t ≡ some (q + addr_to_off vb, t))
vm_walk-vm_map s pgdir va len prot vb fs hp hb lo lb ub w c l un =
    let (t, gs, e, x) = vm_map-IsRanged s pgdir va len prot fs hp hb lo (omega arith) w c l in
    let (k, hk, ek) = page_in va len vb lb ub in
    let hv : vb < 2 ^ 32 = omega arith in
    let at : (u : Vm) → lookup u.mem pgdir (page_down va + k * 4096) ≡ lookup u.mem pgdir vb =
      λ u. lookup_page u.mem pgdir (page_down va + k * 4096) vb (omega arith) in
    let (q, made, mem) = (x.inside k hk).1 (ap is_present (at s) ∙ un) in
    let pg = mem IsPage (Chain-pages s.mem s.free_page_list fs c) in
    let here : lookup t.mem pgdir vb ≡ make_entry q prot = sym (at t) ∙ made in
    let to : frame (lookup t.mem pgdir vb) ≡ q =
      ap frame here ∙ frame-make_entry q prot hp ∙ page_itself q pg in
    (
      t,
      q,
      e,
      mem,
      vm_walk-lookup t pgdir vb gs hv x.space (omega arith)
            (ap is_present here ∙ is_present-make_entry q prot)
            (λ z. page_not_null q pg (sym to ∙ z))
          ∙ ap (λ y. some (y + addr_to_off vb, t)) to,
    )
