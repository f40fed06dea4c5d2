-- ===== src/Vme/Tables/Alloc.antt =====
-- kernel/src/vme.c: the directory that `vm_alloc` makes.
use tiny_os_qemu.Base.{
  ℕ, ◌+◌, ◌-◌, ◌*◌, ◌%◌, ◌^◌, ◌<◌, ◌≤◌, ◌≡◌, ◌≢◌, true, some, List, [], ◌∷◌, All, ltb,
  if◌then◌else◌, arith, sym, ap, ◌∙◌, Bool-cases, inl, inr,
}
use mathlib.Core.Path.{subst}
use tiny_os_qemu.Base.Exec.{bind-eq, for_range}
use tiny_os_qemu.Vme.{
  Vm, ker_mem, phy_mem, entry, is_present, frame, make_entry, addr_to_dir, addr_to_tbl, nr_kpt,
  nr_entry,
}
use tiny_os_qemu.Vme.Space.{lookup, IsSpace, frame-make_entry, is_present-make_entry}
use tiny_os_qemu.Vme.Pages.{kalloc, kernel_table}
use tiny_os_qemu.Vme.Pages.Chain.{
  IsPage, Chain, Free, Chain-pages, Chain-zero_page, kalloc-eq, taken,
}
use tiny_os_qemu.Vme.Pages.Fill.{fill_entries, fill-Chain, IsFilled}
use tiny_os_qemu.Vme.Tables.{vm_alloc}

-- Where the kernel's page tables may lie.
abbrev pub IsKpt : ℕ → Type 0
IsKpt kpt = (kpt % 4096 ≡ 0) × (4096 ≤ kpt) × (kpt + 131072 ≤ ker_mem)

module _ (kpt : ℕ) (hk : IsKpt kpt) (s u t : Vm) (q : ℕ) (qs : List ℕ) (c : Free s (q ∷ qs))
    (x : IsFilled (taken q s) u q 0 32 (λ i. make_entry (kernel_table kpt i) 3))
    (y : IsFilled u t q 32 992 (λ _. 0)) where
  kernel_part : (i : ℕ) → i < 32 → t.mem (entry q i) ≡ make_entry (kernel_table kpt i) 3
  kernel_part i h = y.outside (entry q i) (inl (omega arith)) ∙ x.inside i (omega arith) h

  user_part : (i : ℕ) → 32 ≤ i → i < 1024 → t.mem (entry q i) ≡ 0
  user_part i h k = y.inside i h k

  no_entry : is_present 0 ≡ true → ⊥
  no_entry p = cc

  is_low : (i : ℕ) → i < 1024 → is_present (t.mem (entry q i)) ≡ true → i < 32
  is_low i h p = elim (Bool-cases (ltb i 32)) [
    | inl e ↦ ground arith
    | inr e ↦ absurd (no_entry (sym (ap is_present (user_part i (ground arith) h)) ∙ p))
  ]

  table_at : (i : ℕ) → i < 32 → frame (t.mem (entry q i)) ≡ kpt + i * 4096
  table_at i h =
      ap frame (kernel_part i h) ∙ frame-make_entry (kpt + i * 4096) 3 (omega arith) ∙ omega arith

  others : All (λ r. r ≢ q) qs
  others = c.2

  low_apart : (a : ℕ) (fs : List ℕ) → a < ker_mem → All IsPage fs → All (λ r. r ≢ a) fs
  low_apart a [] h pg = tt
  low_apart a (r ∷ fs) h pg = ((λ e. absurd (omega arith)), low_apart a fs h pg.1)

  made-Free : Free t qs
  made-Free =
      subst (λ z. Chain t.mem z qs) (sym (y.same_list ∙ x.same_list))
        (fill-Chain u t q 32 992 (s.mem q) (λ _. 0) qs y c.1.0 (omega arith) others
          (fill-Chain (taken q s) u q 0 32 (s.mem q) _ qs x c.1.0 (omega arith) others
            (Chain-zero_page s.mem q (s.mem q) qs c.1.0 c.2 c.3)))

  made-IsSpace : IsSpace t.mem q qs
  made-IsSpace = record {
    aligned = c.1.0;
    low = omega (arith, c.1.1);
    high = c.1.2;
    unfree = others;
    table = λ i hi p.
        let e = table_at i (is_low i hi p) in
        let h = is_low i hi p in
        (
          subst (λ z. 4096 ≤ z) (sym e) (omega arith),
          subst (λ z. z < phy_mem) (sym e) (omega arith),
          (λ z. absurd (omega (arith, c.1.1))),
          subst (λ z. All (λ r. r ≢ z) qs) (sym e)
              (low_apart (kpt + i * 4096) qs (omega arith) (Chain-pages s.mem (s.mem q) qs c.3)),
        );
    apart = λ i j hi hj ne p p' z.
        ne (same_index i j (sym (table_at i (is_low i hi p)) ∙ z ∙ table_at j (is_low j hj p')));
  }
    where
      same_index : (i j : ℕ) → kpt + i * 4096 ≡ kpt + j * 4096 → i ≡ j
      same_index i j e = omega arith

  made_empty : (va : ℕ) → phy_mem ≤ va → va < 2 ^ 32 → lookup t.mem q va ≡ 0
  made_empty va lo hi =
      ap (λ z. if is_present z then t.mem (entry (frame z) (addr_to_tbl va)) else 0)
        (user_part (addr_to_dir va) (omega arith) (omega arith))

  made_kernel :
      (va : ℕ)
      → va < phy_mem
      → lookup t.mem q va ≡ t.mem (entry (kernel_table kpt (addr_to_dir va)) (addr_to_tbl va))
  made_kernel va hi =
      let i = addr_to_dir va in
      rw (ap is_present (kernel_part i (omega arith)) ∙ is_present-make_entry (kpt + i * 4096) 3)
        (ap (λ z. t.mem (entry z (addr_to_tbl va))) (table_at i (omega arith)))

-- If the free pages are `q` and `qs`, and the kernel's page tables lie below the heap, then
-- `vm_alloc` succeeds with the directory `q`, which is a space and maps nothing above physical
-- memory; below, it uses the kernel's page tables, and the free pages are then `qs`.
pub vm_alloc-IsSpace :
    (kpt : ℕ) (s : Vm) (q : ℕ) (qs : List ℕ)
    → IsKpt kpt
    → Free s (q ∷ qs)
    → (t : Vm) × (vm_alloc kpt s ≡ some (q, t))
      × IsSpace t.mem q qs
      × Free t qs
      × ((va : ℕ) → phy_mem ≤ va → va < 2 ^ 32 → lookup t.mem q va ≡ 0)
      × ((va : ℕ)
          → va < phy_mem
          → lookup t.mem q va ≡ t.mem (entry (kernel_table kpt (addr_to_dir va)) (addr_to_tbl va)))
unfolding vm_alloc
vm_alloc-IsSpace kpt s q qs hk c =
    let (u, e, x) =
      fill_entries 32 0 q (λ i. make_entry (kernel_table kpt i) 3) (taken q s)
        (omega (arith, c.1.1)) (omega (arith, c.1)) in
    let (t, e', y) = fill_entries 992 32 q (λ _. 0) u (omega (arith, c.1.1)) (omega (arith, c.1)) in
    (
      t,
      bind-eq kalloc _ s (taken q s) q (kalloc-eq s q c.0 c.1)
          ∙ bind-eq (for_range nr_kpt 0 _) _ (taken q s) u tt e
          ∙ bind-eq (for_range (nr_entry - nr_kpt) nr_kpt _) _ u t tt e',
      made-IsSpace kpt hk s u t q qs c x y,
      made-Free kpt hk s u t q qs c x y,
      made_empty kpt hk s u t q qs c x y,
      made_kernel kpt hk s u t q qs c x y,
    )
