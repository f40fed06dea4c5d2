-- ===== src/Vme/Tables/Map.antt =====
-- kernel/src/vme.c: `vm_map` on a directory that is a space.
pub mod Range
use tiny_os_qemu.Base.{
  ℕ, zero, suc, ◌+◌, ◌-◌, ◌*◌, ◌/◌, ◌%◌, ◌^◌, ◌<◌, ◌≤◌, ◌≡◌, ◌≢◌, refl, Bool, true, false, not,
  ◌&&◌, min, Option, none, some, List, [], ◌∷◌, All, All-map, update, within, ltb, leb, ◌==◌,
  ==_refl, ==_iff, if◌then◌else◌, arith, sym, ap, ◌∙◌, Bool-cases, inl, inr, length, ◌⊎◌,
}
use mathlib.Core.Path.{subst}
use tiny_os_qemu.Base.Exec.{
  Exec, pure, ◌>>=◌, ◌>>◌, get, modify, assert, when, bind-eq, assert-eq, for_range,
}
use tiny_os_qemu.Vme.{
  Vm, ker_mem, phy_mem, page_down, page_up, make_entry, or_prot, is_present, frame, entry,
  addr_to_dir, addr_to_tbl, is_kernel, zero_page, bit, has_bit, either, load, store,
}
use tiny_os_qemu.Vme.Pages.{kalloc}
use tiny_os_qemu.Vme.Pages.Chain.{IsPage, Chain, Free, Chain-zero_page, kalloc-eq, taken}
use tiny_os_qemu.Vme.Space.{lookup, IsSpace, dir_lt}
use tiny_os_qemu.Vme.Space.Writes.{
  tbl_lt, frame_aligned, zero-IsSpace, zero-lookup, leaf-IsSpace, leaf-lookup, leaf-lookup_other,
  entry_other_page,
}
use tiny_os_qemu.Vme.Tables.{vm_walkpte, map_page, vm_map}
use tiny_os_qemu.Vme.Tables.Walk.{
  Sub, IsWalked, leaf_of, stored, store-eq, load-eq, entry-is_kernel, Free-entry,
  vm_walkpte-IsWalked,
}

-- From `s` to `t` the map has changed at the page of `va` only, where it is now `e`; the free pages
-- are `gs`, all of them among `fs`.
pub record IsEntered (s t : Vm) (pgdir va e : ℕ) (gs : List ℕ) : Type 1 where
  pub space : IsSpace t.mem pgdir gs
  pub free : Free t gs
  pub here : lookup t.mem pgdir va ≡ e
  pub elsewhere :
      (vb : ℕ) → vb < 2 ^ 32 → vb / 4096 ≢ va / 4096 → lookup t.mem pgdir vb ≡ lookup s.mem pgdir vb
  pub same_cr3 : t.cr3 ≡ s.cr3

module _ (s : Vm) (pgdir va : ℕ) (fs : List ℕ) (h : va < 2 ^ 32) (w : IsSpace s.mem pgdir fs)
    (pres : is_present (s.mem (entry pgdir (addr_to_dir va))) ≡ true) where
  pub leaf-is_kernel : is_kernel (leaf_of s.mem pgdir va) ≡ true
  leaf-is_kernel =
      let e = s.mem (entry pgdir (addr_to_dir va)) in
      let (lo, hi, ne, fr) = w.table (addr_to_dir va) (dir_lt va h) pres in
      entry-is_kernel (frame e) (addr_to_tbl va) (frame_aligned e) lo hi (tbl_lt va)

  pub leaf_nonzero : (leaf_of s.mem pgdir va == 0) ≡ false
  leaf_nonzero = let (lo, hi, ne, fr) = w.table (addr_to_dir va) (dir_lt va h) pres in ground arith

  pub leaf_value : lookup s.mem pgdir va ≡ s.mem (leaf_of s.mem pgdir va)
  leaf_value = rw pres refl

  pub set_leaf :
      (e : ℕ) → Free s fs → IsEntered s (stored s (leaf_of s.mem pgdir va) e) pgdir va e fs
  set_leaf e c =
      let (lo, hi, ne, fr) = w.table (addr_to_dir va) (dir_lt va h) pres in
      record {
        space = leaf-IsSpace s.mem pgdir fs w va e h pres;
        free =
            Free-entry s.mem _ (addr_to_tbl va) e s.free_page_list fs
              (frame_aligned (s.mem (entry pgdir (addr_to_dir va)))) (tbl_lt va) fr c;
        here = leaf-lookup s.mem pgdir fs w va e h pres;
        elsewhere = λ vb hb ne. leaf-lookup_other s.mem pgdir fs w va e h pres vb hb ne;
        same_cr3 = refl;
      }

-- A page is taken first.
module _ (s : Vm) (pgdir va q : ℕ) (qs : List ℕ) (h : va < 2 ^ 32)
    (w : IsSpace s.mem pgdir (q ∷ qs))
    (pres : is_present (s.mem (entry pgdir (addr_to_dir va))) ≡ true) (c : Free s (q ∷ qs)) where
  same_entry :
      zero_page q s.mem (entry pgdir (addr_to_dir va)) ≡ s.mem (entry pgdir (addr_to_dir va))
  same_entry =
      entry_other_page s.mem q pgdir (addr_to_dir va) c.1.0 w.aligned (λ x. w.unfree.0 (sym x))
        (dir_lt va h)

  set_page : (e : ℕ) → IsEntered s (stored (taken q s) (leaf_of s.mem pgdir va) e) pgdir va e qs
  set_page e =
      let r =
        subst
          (λ x.
            IsEntered (taken q s) (stored (taken q s) (entry (frame x) (addr_to_tbl va)) e) pgdir va
              e qs)
          same_entry
          (set_leaf (taken q s) pgdir va qs h (zero-IsSpace s.mem pgdir q qs c.1.0 w)
            (ap is_present same_entry ∙ pres) e
            (Chain-zero_page s.mem q (s.mem q) qs c.1.0 c.2 c.3)) in
      record {
        space = r.space;
        free = r.free;
        here = r.here;
        elsewhere = λ vb hb ne. r.elsewhere vb hb ne ∙ zero-lookup s.mem pgdir q qs c.1.0 w vb hb;
        same_cr3 = r.same_cr3;
      }

-- What `vm_map` makes of the entry `e` of a page: more bits, or a page that was free.
abbrev pub Remade : List ℕ → ℕ → ℕ → ℕ → Type 1
Remade fs prot e e' =
    (is_present e ≡ true → e' ≡ or_prot e prot)
    × (is_present e ≡ false
        → (q : ℕ) × (e' ≡ make_entry q prot) × ((P : ℕ → Type 0) → All P fs → P q))

map_page-use :
    (s u : Vm) (pgdir va prot : ℕ)
    → vm_walkpte pgdir va prot s ≡ some (leaf_of u.mem pgdir va, u)
    → (leaf_of u.mem pgdir va == 0) ≡ false
    → is_kernel (leaf_of u.mem pgdir va) ≡ true
    → is_present (u.mem (leaf_of u.mem pgdir va)) ≡ true
    → map_page pgdir va prot s
      ≡ some (tt, stored u (leaf_of u.mem pgdir va) (or_prot (u.mem (leaf_of u.mem pgdir va)) prot))
unfolding map_page
map_page-use s u pgdir va prot e n k p =
    bind-eq (vm_walkpte pgdir va prot) _ s u _ e
    ∙ rw n
        (bind-eq (load (leaf_of u.mem pgdir va)) _ u u _ (load-eq u _ k) ∙ rw p (store-eq u _ _ k))

map_page-add :
    (s u v : Vm) (pgdir va prot q : ℕ)
    → vm_walkpte pgdir va prot s ≡ some (leaf_of u.mem pgdir va, u)
    → (leaf_of u.mem pgdir va == 0) ≡ false
    → is_kernel (leaf_of u.mem pgdir va) ≡ true
    → is_present (u.mem (leaf_of u.mem pgdir va)) ≡ false
    → kalloc u ≡ some (q, v)
    → map_page pgdir va prot s ≡ some (tt, stored v (leaf_of u.mem pgdir va) (make_entry q prot))
unfolding map_page
map_page-add s u v pgdir va prot q e n k p a =
    bind-eq (vm_walkpte pgdir va prot) _ s u _ e
    ∙ rw n (
        bind-eq (load (leaf_of u.mem pgdir va)) _ u u _ (load-eq u _ k)
        ∙ rw p (bind-eq kalloc _ u v q a ∙ store-eq v _ _ k))

both : false ≡ true → ⊥
both x = cc

-- One round of `vm_map` from `s` to `t`.
pub record IsMapped (s t : Vm) (pgdir va prot : ℕ) (fs gs : List ℕ) : Type 1 where
  pub e : ℕ
  pub set : IsEntered s t pgdir va e gs
  pub remade : Remade fs prot (lookup s.mem pgdir va) e
  pub sub : Sub fs gs
  pub taken : length fs ≤ 2 + length gs

module _ (s : Vm) (pgdir va prot : ℕ) (h : va < 2 ^ 32) (hp : prot < 8) (hb : bit 0 prot ≡ 1) where
  -- Behind `vm_walkpte`.
  onto :
      (u t : Vm) (e : ℕ) (fs hs gs : List ℕ)
      → IsWalked s u pgdir va fs hs
      → IsEntered u t pgdir va e gs
      → Remade fs prot (lookup u.mem pgdir va) e
      → Sub hs gs
      → length hs ≤ 1 + length gs
      → IsMapped s t pgdir va prot fs gs
  onto u t e fs hs gs r x y sub l = record {
    e = e;
    set = record {
      space = x.space;
      free = x.free;
      here = x.here;
      elsewhere = λ vb hv ne. x.elsewhere vb hv ne ∙ r.same_map vb hv;
      same_cr3 = x.same_cr3 ∙ r.same_cr3;
    };
    remade = subst (λ z. Remade fs prot z e) (r.same_map va h) y;
    sub = λ P a. sub P (r.sub P a);
    taken = omega (arith, r.taken);
  }

  Remade-use :
      (u : Vm) (fs : List ℕ) (e : ℕ)
      → lookup u.mem pgdir va ≡ e
      → is_present e ≡ true
      → Remade fs prot (lookup u.mem pgdir va) (or_prot e prot)
  Remade-use u fs e eq p =
      (λ _. ap (λ x. or_prot x prot) (sym eq), λ q. absurd (both (sym q ∙ ap is_present eq ∙ p)))

  Remade-add :
      (u : Vm) (fs : List ℕ) (e q : ℕ)
      → lookup u.mem pgdir va ≡ e
      → is_present e ≡ false
      → ((P : ℕ → Type 0) → All P fs → P q)
      → Remade fs prot (lookup u.mem pgdir va) (make_entry q prot)
  Remade-add u fs e q eq p sub =
      (λ r. absurd (both (sym p ∙ ap is_present (sym eq) ∙ r)), λ _. (q, refl, sub))

  round :
      (u : Vm) (fs hs : List ℕ)
      → 2 ≤ length fs
      → vm_walkpte pgdir va prot s ≡ some (leaf_of u.mem pgdir va, u)
      → IsWalked s u pgdir va fs hs
      → (t : Vm) × (gs : List ℕ) × (map_page pgdir va prot s ≡ some (tt, t))
        × IsMapped s t pgdir va prot fs gs
  round u fs [] l e r = absurd (omega (arith, r.taken))
  round u fs (q ∷ qs) l e r =
      let n = leaf_nonzero u pgdir va (q ∷ qs) h r.space r.has_table in
      let k = leaf-is_kernel u pgdir va (q ∷ qs) h r.space r.has_table in
      let eq = leaf_value u pgdir va (q ∷ qs) h r.space r.has_table in
      let old = u.mem (leaf_of u.mem pgdir va) in
      elim (Bool-cases (is_present old)) [
        | inl p ↦ (
          stored u (leaf_of u.mem pgdir va) (or_prot old prot),
          q ∷ qs,
          map_page-use s u pgdir va prot e n k p,
          onto u _ (or_prot old prot) fs (q ∷ qs) (q ∷ qs) r
              (set_leaf u pgdir va (q ∷ qs) h r.space r.has_table (or_prot old prot) r.free)
              (Remade-use u fs old eq p) (λ P a. a) (omega arith),
        )
        | inr p ↦ (
          stored (taken q u) (leaf_of u.mem pgdir va) (make_entry q prot),
          qs,
          map_page-add s u (taken q u) pgdir va prot q e n k p (kalloc-eq u q r.free.0 r.free.1),
          onto u _ (make_entry q prot) fs (q ∷ qs) qs r
              (set_page u pgdir va q qs h r.space r.has_table r.free (make_entry q prot))
              (Remade-add u fs old q eq p (λ P a. (r.sub P a).0)) (λ P a. a.1) (omega arith),
        )
      ]

  -- With two pages free, a round of `vm_map` remakes the entry for its page and no other.
  pub map_page-IsMapped :
      (fs : List ℕ)
      → IsSpace s.mem pgdir fs
      → Free s fs
      → 2 ≤ length fs
      → (t : Vm) × (gs : List ℕ) × (map_page pgdir va prot s ≡ some (tt, t))
        × IsMapped s t pgdir va prot fs gs
  map_page-IsMapped fs w c l =
      let (u, hs, e, r) = vm_walkpte-IsWalked s pgdir va prot h hp hb fs w c (omega arith) in
      round u fs hs l e r
