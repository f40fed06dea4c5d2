-- ===== src/Vme/Space.antt =====
-- kernel/src/vme.c: what a page directory stands for, a map from virtual pages to entries.
pub mod Writes
pub mod Add
use tiny_os_qemu.Base.{
  ℕ, zero, suc, ◌+◌, ◌-◌, ◌*◌, ◌/◌, ◌%◌, ◌^◌, ◌<◌, ◌≤◌, ◌≡◌, ◌≢◌, refl, Bool, true, false, not,
  ◌&&◌, min, Option, none, some, List, [], ◌∷◌, All, All-map, update, within, ltb, leb, ◌==◌,
  ==_refl, if◌then◌else◌, arith, sym, ap, ◌∙◌, Bool-cases, inl, inr, length,
}
use mathlib.Core.Path.{subst}
use tiny_os_qemu.Vme.{
  Vm, ker_mem, phy_mem, page_down, make_entry, or_prot, is_present, frame, entry, addr_to_dir,
  addr_to_tbl, is_kernel, zero_page, bit, either,
}

-- The entry for `va` that the processor finds from this directory, or 0 without a page table.
abbrev pub lookup : (ℕ → ℕ) → ℕ → ℕ → ℕ
lookup m pgdir va =
    if is_present (m (entry pgdir (addr_to_dir va)))
    then m (entry (frame (m (entry pgdir (addr_to_dir va)))) (addr_to_tbl va))
    else 0

-- `or_prot` leaves the page frame alone, and keeps the bits that are set.
pub frame-or_prot : (v p : ℕ) → p < 8 → frame (or_prot v p) ≡ frame v
frame-or_prot v p h = omega arith

pub is_present-or_prot : (v p : ℕ) → bit 0 v ≡ 1 → is_present (or_prot v p) ≡ true
is_present-or_prot v p h = ground arith

pub is_present-prot : (v p : ℕ) → bit 0 p ≡ 1 → is_present (or_prot v p) ≡ true
is_present-prot v p h = ground arith

pub frame-make_entry : (q p : ℕ) → p < 8 → frame (make_entry q p) ≡ page_down q
frame-make_entry q p h =
    frame-or_prot (or_prot (page_down q) p) 1 (omega arith)
    ∙ frame-or_prot (page_down q) p h
    ∙ omega arith

pub is_present-make_entry : (q p : ℕ) → is_present (make_entry q p) ≡ true
is_present-make_entry q p = is_present-prot (or_prot (page_down q) p) 1 (omega arith)

-- A directory whose tables are apart from each other, from it and from the free pages.
pub record IsSpace (m : ℕ → ℕ) (pgdir : ℕ) (fs : List ℕ) : Type 0 where
  pub aligned : pgdir % 4096 ≡ 0
  pub low : 4096 ≤ pgdir
  pub high : pgdir < phy_mem
  pub unfree : All (λ r. r ≢ pgdir) fs
  pub table :
      (i : ℕ)
      → i < 1024
      → is_present (m (entry pgdir i)) ≡ true
      → (4096 ≤ frame (m (entry pgdir i)))
        × (frame (m (entry pgdir i)) < phy_mem)
        × (frame (m (entry pgdir i)) ≢ pgdir)
        × All (λ r. r ≢ frame (m (entry pgdir i))) fs
  pub apart :
      (i j : ℕ)
      → i < 1024
      → j < 1024
      → i ≢ j
      → is_present (m (entry pgdir i)) ≡ true
      → is_present (m (entry pgdir j)) ≡ true
      → frame (m (entry pgdir i)) ≢ frame (m (entry pgdir j))

-- The directory has the same tables.
abbrev pub Alike : (ℕ → ℕ) → (ℕ → ℕ) → ℕ → Type 0
Alike m u pgdir =
    (i : ℕ)
    → i < 1024
    → (is_present (u (entry pgdir i)) ≡ is_present (m (entry pgdir i)))
      × (frame (u (entry pgdir i)) ≡ frame (m (entry pgdir i)))

pub IsSpace-Alike :
    (m u : ℕ → ℕ) (pgdir : ℕ) (fs gs : List ℕ)
    → Alike m u pgdir
    → ((P : ℕ → Type 0) → All P fs → All P gs)
    → IsSpace m pgdir fs
    → IsSpace u pgdir gs
IsSpace-Alike m u pgdir fs gs a sub w = record {
  aligned = w.aligned;
  low = w.low;
  high = w.high;
  unfree = sub (λ r. r ≢ pgdir) w.unfree;
  table = λ i hi p.
      let (lo, hi', ne, fr) = w.table i hi (sym (a i hi).0 ∙ p) in
      let same = (a i hi).1 in
      (
        omega arith,
        omega arith,
        (λ q. ne (sym same ∙ q)),
        subst (λ x. All (λ r. r ≢ x) gs) (sym same) (sub (λ r. r ≢ frame (m (entry pgdir i))) fr),
      );
  apart = λ i j hi hj ne p q e.
      w.apart i j hi hj ne (sym (a i hi).0 ∙ p) (sym (a j hj).0 ∙ q)
        (sym (a i hi).1 ∙ e ∙ (a j hj).1);
}

pub dir_lt : (va : ℕ) → va < 2 ^ 32 → addr_to_dir va < 1024
dir_lt va h = omega arith

-- Where the tables are the same and the entry is, `lookup` is.
pub lookup-Alike :
    (m u : ℕ → ℕ) (pgdir va : ℕ)
    → Alike m u pgdir
    → va < 2 ^ 32
    → (is_present (m (entry pgdir (addr_to_dir va))) ≡ true
        → u (entry (frame (m (entry pgdir (addr_to_dir va)))) (addr_to_tbl va))
          ≡ m (entry (frame (m (entry pgdir (addr_to_dir va)))) (addr_to_tbl va)))
    → lookup u pgdir va ≡ lookup m pgdir va
lookup-Alike m u pgdir va a h leaf =
    let (p, f) = a (addr_to_dir va) (dir_lt va h) in
    elim (Bool-cases (is_present (m (entry pgdir (addr_to_dir va))))) [
      | inl e ↦ rw (p ∙ e) (rw e (ap (λ x. u (entry x (addr_to_tbl va))) f ∙ leaf e))
      | inr e ↦ rw (p ∙ e) (rw e refl)
    ]
