-- ===== src/Vme/Tables/Walk.antt =====
-- kernel/src/vme.c: `vm_walkpte` and `vm_walk` on a directory that is a space.
use tiny_os_qemu.Base.{
  ℕ, ◌+◌, ◌%◌, ◌^◌, ◌<◌, ◌≤◌, ◌≡◌, ◌≢◌, refl, true, false, some, List, [], ◌∷◌, All, update, ltb,
  ◌==◌, arith, sym, ap, ◌∙◌, Bool-cases, inl, inr, length,
}
use tiny_os_qemu.Base.Exec.{bind-eq, assert-eq}
use tiny_os_qemu.Vme.{
  Vm, phy_mem, make_entry, or_prot, is_present, frame, entry, addr_to_dir, addr_to_tbl, is_kernel,
  zero_page, bit, has_bit, load, store,
}
use tiny_os_qemu.Vme.Pages.{kalloc}
use tiny_os_qemu.Vme.Pages.Chain.{
  IsPage, Chain, Free, Chain-pages, Chain-update, Chain-zero_page, kalloc-eq, taken,
}
use tiny_os_qemu.Vme.Space.{lookup, IsSpace, frame-or_prot, is_present-or_prot, dir_lt}
use tiny_os_qemu.Vme.Space.Writes.{
  update_same, zero-IsSpace, zero-lookup, more-IsSpace, more-lookup, entry_other_page,
}
use tiny_os_qemu.Vme.Space.Add.{IsSpare, added-IsSpace, added-lookup, is_present-added, frame-added}
use tiny_os_qemu.Vme.Tables.{vm_walkpte, use_table, add_table}

-- Every page of `gs` is one of `fs`.
abbrev pub Sub : List ℕ → List ℕ → Type 1
Sub fs gs = (P : ℕ → Type 0) → All P fs → All P gs

pub entry-is_kernel :
    (p i : ℕ) → p % 4096 ≡ 0 → 4096 ≤ p → p < phy_mem → i < 1024 → is_kernel (entry p i) ≡ true
entry-is_kernel p i h lo hi hl = ground arith

All-pages :
    (p i : ℕ) (fs : List ℕ)
    → p % 4096 ≡ 0
    → i < 1024
    → All IsPage fs
    → All (λ r. r ≢ p) fs
    → All (λ r. r ≢ entry p i) fs
All-pages p i [] h hi pg ne = tt
All-pages p i (r ∷ fs) h hi pg ne = (λ e. apart r pg.0.0 ne.0 e, All-pages p i fs h hi pg.1 ne.1)
  where
    apart : (r : ℕ) → r % 4096 ≡ 0 → r ≢ p → r ≢ entry p i
    apart r hr n e = n (omega arith)

-- A write to an entry of a page that is not free leaves the free pages alone.
pub Free-entry :
    (m : ℕ → ℕ) (p i v start : ℕ) (fs : List ℕ)
    → p % 4096 ≡ 0
    → i < 1024
    → All (λ r. r ≢ p) fs
    → Chain m start fs
    → Chain (update m (entry p i) v) start fs
Free-entry m p i v start fs h hi ne c =
    Chain-update m (entry p i) v start fs (All-pages p i fs h hi (Chain-pages m start fs c) ne) c

-- `vm_walkpte` has led from `s` with the free pages `fs` to `t` with `gs`: the directory has a table
-- for `va`, and stands for the same map as before.
pub record IsWalked (s t : Vm) (pgdir va : ℕ) (fs gs : List ℕ) : Type 1 where
  pub space : IsSpace t.mem pgdir gs
  pub free : Free t gs
  pub sub : Sub fs gs
  pub taken : length fs ≤ 1 + length gs
  pub has_table : is_present (t.mem (entry pgdir (addr_to_dir va))) ≡ true
  pub same_map : (vb : ℕ) → vb < 2 ^ 32 → lookup t.mem pgdir vb ≡ lookup s.mem pgdir vb
  pub same_cr3 : t.cr3 ≡ s.cr3

-- The address of the entry for `va` in memory `m`.
abbrev pub leaf_of : (ℕ → ℕ) → ℕ → ℕ → ℕ
leaf_of m pgdir va = entry (frame (m (entry pgdir (addr_to_dir va)))) (addr_to_tbl va)

abbrev pub stored : Vm → ℕ → ℕ → Vm
stored s a v = record s { mem = update s.mem a v }

pub store-eq : (s : Vm) (a v : ℕ) → is_kernel a ≡ true → store a v s ≡ some (tt, stored s a v)
unfolding store
store-eq s a v h = rw (h, store) refl

pub load-eq : (s : Vm) (a : ℕ) → is_kernel a ≡ true → load a s ≡ some (s.mem a, s)
unfolding load
load-eq s a h = rw (h, load) refl

use_table-eq :
    (s : Vm) (pde e va prot : ℕ)
    → ltb prot 8 ≡ true
    → (prot == 0) ≡ false
    → is_kernel pde ≡ true
    → use_table pde e va prot s
      ≡ some (entry (frame e) (addr_to_tbl va), stored s pde (or_prot e prot))
unfolding use_table
use_table-eq s pde e va prot h n k =
    assert-eq (ltb prot 8) _ s h
    ∙ rw n (bind-eq (store pde (or_prot e prot)) _ s _ tt (store-eq s pde (or_prot e prot) k))

add_table-eq :
    (s t : Vm) (pde va prot q : ℕ)
    → has_bit 0 prot ≡ true
    → ltb prot 8 ≡ true
    → kalloc s ≡ some (q, t)
    → is_kernel pde ≡ true
    → add_table pde va prot s ≡ some (entry q (addr_to_tbl va), stored t pde (make_entry q prot))
unfolding add_table
add_table-eq s t pde va prot q b h e k =
    rw (b, add_table)
      (assert-eq (ltb prot 8) _ s h
        ∙ bind-eq kalloc _ s t q e
        ∙ bind-eq (store pde (make_entry q prot)) _ t _ tt (store-eq t pde (make_entry q prot) k))

pub vm_walkpte-use :
    (s : Vm) (pgdir va prot : ℕ)
    → is_kernel (entry pgdir (addr_to_dir va)) ≡ true
    → is_present (s.mem (entry pgdir (addr_to_dir va))) ≡ true
    → vm_walkpte pgdir va prot s
      ≡ use_table (entry pgdir (addr_to_dir va)) (s.mem (entry pgdir (addr_to_dir va))) va prot s
unfolding vm_walkpte
vm_walkpte-use s pgdir va prot k p =
    bind-eq (load (entry pgdir (addr_to_dir va))) _ s s _ (load-eq s _ k) ∙ rw p refl

pub vm_walkpte-add :
    (s : Vm) (pgdir va prot : ℕ)
    → is_kernel (entry pgdir (addr_to_dir va)) ≡ true
    → is_present (s.mem (entry pgdir (addr_to_dir va))) ≡ false
    → vm_walkpte pgdir va prot s ≡ add_table (entry pgdir (addr_to_dir va)) va prot s
unfolding vm_walkpte
vm_walkpte-add s pgdir va prot k p =
    bind-eq (load (entry pgdir (addr_to_dir va))) _ s s _ (load-eq s _ k) ∙ rw p refl

module _ (s : Vm) (pgdir va prot : ℕ) (h : va < 2 ^ 32) (hp : prot < 8) (hb : bit 0 prot ≡ 1) where
  abbrev pde : ℕ
  pde = entry pgdir (addr_to_dir va)

  walk_used :
      (fs : List ℕ)
      → IsSpace s.mem pgdir fs
      → Free s fs
      → is_present (s.mem pde) ≡ true
      → (t : Vm) × (vm_walkpte pgdir va prot s ≡ some (leaf_of t.mem pgdir va, t))
        × IsWalked s t pgdir va fs fs
  walk_used fs w c p =
      let k = entry-is_kernel pgdir (addr_to_dir va) w.aligned w.low w.high (dir_lt va h) in
      let t = stored s pde (or_prot (s.mem pde) prot) in
      let now = update_same s.mem pde (or_prot (s.mem pde) prot) in
      (
        t,
        vm_walkpte-use s pgdir va prot k p
            ∙ use_table-eq s pde (s.mem pde) va prot (ground arith) (ground arith) k
            ∙ ap (λ x. some (entry x (addr_to_tbl va), t))
                (sym (ap frame now ∙ frame-or_prot (s.mem pde) prot hp)),
        record {
          space = more-IsSpace s.mem pgdir fs w (addr_to_dir va) prot (dir_lt va h) hp p;
          free =
              Free-entry s.mem pgdir (addr_to_dir va) _ s.free_page_list fs w.aligned (dir_lt va h)
                w.unfree c;
          sub = λ P a. a;
          taken = omega arith;
          has_table = ap is_present now ∙ is_present-or_prot (s.mem pde) prot (ground arith);
          same_map =
              λ vb hv. more-lookup s.mem pgdir fs w (addr_to_dir va) prot (dir_lt va h) hp p vb hv;
          same_cr3 = refl;
        },
      )

  zeroed :
      (q : ℕ) (qs : List ℕ)
      → IsPage q
      → All (λ r. r ≢ q) qs
      → IsSpace s.mem pgdir (q ∷ qs)
      → IsSpare (zero_page q s.mem) pgdir q qs
  zeroed q qs pg ne w = record {
    aligned = pg.0;
    low = omega (arith, pg.1);
    high = pg.2;
    no_dir = w.unfree.0;
    unfree = ne;
    no_table = λ i hi p e.
        let same = entry_other_page s.mem q pgdir i pg.0 w.aligned (λ x. w.unfree.0 (sym x)) hi in
        (w.table i hi (ap is_present (sym same) ∙ p)).3.0 (sym e ∙ ap frame same);
    zeros = λ i hi. ground arith;
  }

  walk_added :
      (q : ℕ) (qs : List ℕ)
      → IsSpace s.mem pgdir (q ∷ qs)
      → Free s (q ∷ qs)
      → is_present (s.mem pde) ≡ false
      → (t : Vm) × (vm_walkpte pgdir va prot s ≡ some (leaf_of t.mem pgdir va, t))
        × IsWalked s t pgdir va (q ∷ qs) qs
  walk_added q qs w c p =
      let k = entry-is_kernel pgdir (addr_to_dir va) w.aligned w.low w.high (dir_lt va h) in
      let pg = c.1 in
      let m = zero_page q s.mem in
      let t = stored (taken q s) pde (make_entry q prot) in
      let w' = zero-IsSpace s.mem pgdir q qs pg.0 w in
      let r = zeroed q qs pg c.2 w in
      let gone =
        ap is_present (
          entry_other_page s.mem q pgdir (addr_to_dir va) pg.0 w.aligned (λ x. w.unfree.0 (sym x))
            (dir_lt va h))
        ∙ p in
      (
        t,
        vm_walkpte-add s pgdir va prot k p
            ∙ add_table-eq s (taken q s) pde va prot q (ground arith) (ground arith)
                (kalloc-eq s q c.0 pg) k
            ∙ ap (λ x. some (entry x (addr_to_tbl va), t))
                (sym (frame-added m pgdir q qs w' r (addr_to_dir va) prot (dir_lt va h) hp gone)),
        record {
          space = added-IsSpace m pgdir q qs w' r (addr_to_dir va) prot (dir_lt va h) hp gone;
          free =
              Free-entry m pgdir (addr_to_dir va) _ (s.mem q) qs w.aligned (dir_lt va h) w.unfree.1
                (Chain-zero_page s.mem q (s.mem q) qs pg.0 c.2 c.3);
          sub = λ P a. a.1;
          taken = omega arith;
          has_table =
              is_present-added m pgdir q qs w' r (addr_to_dir va) prot (dir_lt va h) hp gone;
          same_map = λ vb hv.
              added-lookup m pgdir q qs w' r (addr_to_dir va) prot (dir_lt va h) hp gone vb hv
              ∙ zero-lookup s.mem pgdir q qs pg.0 w vb hv;
          same_cr3 = refl;
        },
      )

  -- If a page is free, `vm_walkpte` with PTE_P finds the entry for `va`, in a table that it adds when
  -- there is none.
  pub vm_walkpte-IsWalked :
      (fs : List ℕ)
      → IsSpace s.mem pgdir fs
      → Free s fs
      → 1 ≤ length fs
      → (t : Vm) × (gs : List ℕ) × (vm_walkpte pgdir va prot s ≡ some (leaf_of t.mem pgdir va, t))
        × IsWalked s t pgdir va fs gs
  vm_walkpte-IsWalked [] w c l = absurd (omega arith)
  vm_walkpte-IsWalked (q ∷ qs) w c l = elim (Bool-cases (is_present (s.mem pde))) [
    | inl p ↦ let (t, e, r) = walk_used (q ∷ qs) w c p in (t, q ∷ qs, e, r)
    | inr p ↦ let (t, e, r) = walk_added q qs w c p in (t, qs, e, r)
  ]
