-- ===== src/Vme/Space/Add.antt =====
-- kernel/src/vme.c: a zeroed page becomes a page table.
use tiny_os_qemu.Base.{
  ℕ, ◌%◌, ◌^◌, ◌<◌, ◌≤◌, ◌≡◌, ◌≢◌, refl, true, false, List, All, update, ◌==◌, ==_refl, ==_iff,
  arith, sym, ap, ◌∙◌, Bool-cases, inl, inr, ◌⊎◌,
}
use mathlib.Core.Path.{subst}
use tiny_os_qemu.Vme.{
  phy_mem, page_down, make_entry, is_present, frame, entry, addr_to_dir, addr_to_tbl,
}
use tiny_os_qemu.Vme.Space.{lookup, IsSpace, frame-make_entry, is_present-make_entry, dir_lt}
use tiny_os_qemu.Vme.Space.Writes.{
  update_same, update_other, entry_apart, entry_inj, tbl_lt, frame_aligned, differ,
}

-- A page that can be added as a table: in memory, no table yet, and filled with zeros.
pub record IsSpare (m : ℕ → ℕ) (pgdir q : ℕ) (fs : List ℕ) : Type 0 where
  pub aligned : q % 4096 ≡ 0
  pub low : 4096 ≤ q
  pub high : q < phy_mem
  pub no_dir : q ≢ pgdir
  pub unfree : All (λ r. r ≢ q) fs
  pub no_table :
      (i : ℕ) → i < 1024 → is_present (m (entry pgdir i)) ≡ true → frame (m (entry pgdir i)) ≢ q
  pub zeros : (i : ℕ) → i < 1024 → m (entry q i) ≡ 0

module _ (m : ℕ → ℕ) (pgdir q : ℕ) (fs : List ℕ) (w : IsSpace m pgdir fs) (r : IsSpare m pgdir q fs)
    (d prot : ℕ) (hd : d < 1024) (hp : prot < 8)
    (pres : is_present (m (entry pgdir d)) ≡ false) where
  abbrev added : ℕ → ℕ
  added = update m (entry pgdir d) (make_entry q prot)

  here : added (entry pgdir d) ≡ make_entry q prot
  here = update_same m (entry pgdir d) (make_entry q prot)

  there : (i : ℕ) → (d == i) ≡ false → added (entry pgdir i) ≡ m (entry pgdir i)
  there i e =
      update_other m (entry pgdir d) (make_entry q prot) (entry pgdir i)
        (λ x. differ e (entry_inj pgdir d i x))

  here_frame : (i : ℕ) → (d == i) ≡ true → frame (added (entry pgdir i)) ≡ q
  here_frame i e =
      ap (λ x. frame (added (entry pgdir x))) (sym ((==_iff d i).0 e))
      ∙ ap frame here
      ∙ frame-make_entry q prot hp
      ∙ aligned_down q r.aligned
    where
      aligned_down : (a : ℕ) → a % 4096 ≡ 0 → page_down a ≡ a
      aligned_down a h = omega arith

  -- Its table is the new page, or the one that it was.
  table_of :
      (i : ℕ)
      → is_present (added (entry pgdir i)) ≡ true
      → (((d == i) ≡ true) × (frame (added (entry pgdir i)) ≡ q))
        ⊎ (((d == i) ≡ false)
            × (is_present (m (entry pgdir i)) ≡ true)
            × (frame (added (entry pgdir i)) ≡ frame (m (entry pgdir i))))
  table_of i p = elim (Bool-cases (d == i)) [
    | inl e ↦ inl (e, here_frame i e)
    | inr e ↦ inr (e, sym (ap is_present (there i e)) ∙ p, ap frame (there i e))
  ]

  pub added-IsSpace : IsSpace added pgdir fs
  added-IsSpace = record {
    aligned = w.aligned;
    low = w.low;
    high = w.high;
    unfree = w.unfree;
    table = λ i hi p. elim (table_of i p) [
      | inl (e, f) ↦ (
        subst (λ x. 4096 ≤ x) (sym f) r.low,
        subst (λ x. x < phy_mem) (sym f) r.high,
        (λ x. r.no_dir (sym f ∙ x)),
        subst (λ x. All (λ y. y ≢ x) fs) (sym f) r.unfree,
      )
      | inr (e, p', f) ↦
          let (lo, up, ne, fr) = w.table i hi p' in
          (
            subst (λ x. 4096 ≤ x) (sym f) lo,
            subst (λ x. x < phy_mem) (sym f) up,
            (λ x. ne (sym f ∙ x)),
            subst (λ x. All (λ y. y ≢ x) fs) (sym f) fr,
          )
    ];
    apart = λ i j hi hj ne p p' x. elim (table_of i p) [
      | inl (e, f) ↦ elim (table_of j p') [
        | inl (e', f') ↦ ne (sym ((==_iff d i).0 e) ∙ (==_iff d j).0 e')
        | inr (e', g, f') ↦ r.no_table j hj g (sym f' ∙ sym x ∙ f)
      ]
      | inr (e, g, f) ↦ elim (table_of j p') [
        | inl (e', f') ↦ r.no_table i hi g (sym f ∙ x ∙ f')
        | inr (e', g', f') ↦ w.apart i j hi hj ne g g' (sym f ∙ x ∙ f')
      ]
    ];
  }

  -- An entry of a table or of the new page is no entry of the directory.
  kept : (t i : ℕ) → t % 4096 ≡ 0 → t ≢ pgdir → i < 1024 → added (entry t i) ≡ m (entry t i)
  kept t i ht ne hi =
      update_other m (entry pgdir d) (make_entry q prot) (entry t i)
        (entry_apart pgdir t d i w.aligned ht (λ x. ne (sym x)) hd hi)

  pub is_present-added : is_present (added (entry pgdir d)) ≡ true
  is_present-added = ap is_present here ∙ is_present-make_entry q prot

  pub frame-added : frame (added (entry pgdir d)) ≡ q
  frame-added = here_frame d (==_refl d)

  empty : (va : ℕ) → (d == addr_to_dir va) ≡ true → lookup m pgdir va ≡ 0
  empty va e =
      rw (ap (λ x. is_present (m (entry pgdir x))) (sym ((==_iff d (addr_to_dir va)).0 e)) ∙ pres)
        refl

  new_empty : (va : ℕ) → (d == addr_to_dir va) ≡ true → lookup added pgdir va ≡ 0
  new_empty va e =
      rw
        (ap (λ x. is_present (added (entry pgdir x))) (sym ((==_iff d (addr_to_dir va)).0 e))
          ∙ is_present-added)
        (ap (λ x. added (entry x (addr_to_tbl va))) (here_frame (addr_to_dir va) e)
          ∙ kept q (addr_to_tbl va) r.aligned r.no_dir (tbl_lt va)
          ∙ r.zeros (addr_to_tbl va) (tbl_lt va))

  -- The directory stands for the same map.
  pub added-lookup : (va : ℕ) → va < 2 ^ 32 → lookup added pgdir va ≡ lookup m pgdir va
  added-lookup va h = elim (Bool-cases (d == addr_to_dir va)) [
    | inl e ↦ new_empty va e ∙ sym (empty va e)
    | inr e ↦ elim (Bool-cases (is_present (m (entry pgdir (addr_to_dir va))))) [
      | inl p ↦
          let (lo, up, ne, fr) = w.table (addr_to_dir va) (dir_lt va h) p in
          rw (ap is_present (there (addr_to_dir va) e)) (
            rw p (
              ap (λ x. added (entry (frame x) (addr_to_tbl va))) (there (addr_to_dir va) e)
              ∙ kept (frame (m (entry pgdir (addr_to_dir va)))) (addr_to_tbl va)
                  (frame_aligned (m (entry pgdir (addr_to_dir va)))) ne (tbl_lt va)))
      | inr p ↦ rw (ap is_present (there (addr_to_dir va) e)) (rw p refl)
    ]
  ]
