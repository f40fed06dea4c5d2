-- ===== src/Vme/Tables/Map/Range.antt =====
-- kernel/src/vme.c: `vm_map` of a range of pages.
use tiny_os_qemu.Base.{
  ℕ, zero, suc, ◌+◌, ◌-◌, ◌*◌, ◌/◌, ◌%◌, ◌^◌, ◌<◌, ◌≤◌, ◌≡◌, ◌≢◌, refl, some, List, ltb, leb, arith,
  sym, ◌∙◌, inl, inr, length, ◌⊎◌,
}
use mathlib.Core.Path.{subst}
use tiny_os_qemu.Base.Exec.{bind-eq, assert-eq, for_range}
use tiny_os_qemu.Vme.{Vm, phy_mem, page_down, page_up, bit, has_bit}
use tiny_os_qemu.Vme.Pages.Chain.{Free}
use tiny_os_qemu.Vme.Space.{lookup, IsSpace}
use tiny_os_qemu.Vme.Tables.{map_page, vm_map}
use tiny_os_qemu.Vme.Tables.Walk.{Sub}
use tiny_os_qemu.Vme.Tables.Map.{Remade, IsMapped, map_page-IsMapped}

-- From `s` to `t` the `n` pages from `start` on are remade, and nothing else of the map changes.
pub record IsRanged (s t : Vm) (pgdir start n prot : ℕ) (fs gs : List ℕ) : Type 1 where
  pub space : IsSpace t.mem pgdir gs
  pub free : Free t gs
  pub sub : Sub fs gs
  pub taken : length fs ≤ 2 * n + length gs
  pub inside :
      (k : ℕ)
      → k < n
      → Remade fs prot
          (lookup s.mem pgdir (start + k * 4096))
          (lookup t.mem pgdir (start + k * 4096))
  pub outside :
      (vb : ℕ)
      → vb < 2 ^ 32
      → (vb < start) ⊎ (start + n * 4096 ≤ vb)
      → lookup t.mem pgdir vb ≡ lookup s.mem pgdir vb
  pub same_cr3 : t.cr3 ≡ s.cr3

Remade-Sub :
    (fs gs : List ℕ) (prot e e' : ℕ) → Sub fs gs → Remade gs prot e e' → Remade fs prot e e'
Remade-Sub fs gs prot e e' sub (a, b) =
    (a, λ p. let (q, eq, m) = b p in (q, eq, λ P x. m P (sub P x)))

-- A round, then the others.
join :
    (s u t : Vm) (pgdir start n prot : ℕ) (fs hs gs : List ℕ)
    → start % 4096 ≡ 0
    → start + suc n * 4096 ≤ 2 ^ 32
    → IsMapped s u pgdir start prot fs hs
    → IsRanged u t pgdir (start + 4096) n prot hs gs
    → IsRanged s t pgdir start (suc n) prot fs gs
join s u t pgdir start n prot fs hs gs al top r x = record {
  space = x.space;
  free = x.free;
  sub = λ P a. x.sub P (r.sub P a);
  taken = omega (arith, r.taken, x.taken);
  inside = λ k hk. each k hk;
  outside = λ vb hb o. x.outside vb hb (later vb o) ∙ r.set.elsewhere vb hb (λ e. beyond vb o e);
  same_cr3 = x.same_cr3 ∙ r.set.same_cr3;
}
  where
    later :
        (vb : ℕ)
        → (vb < start) ⊎ (start + suc n * 4096 ≤ vb)
        → (vb < start + 4096) ⊎ (start + 4096 + n * 4096 ≤ vb)
    later vb (inl a) = inl (omega arith)
    later vb (inr a) = inr (omega arith)

    beyond : (vb : ℕ) → (vb < start) ⊎ (start + suc n * 4096 ≤ vb) → vb / 4096 ≢ start / 4096
    beyond vb (inl a) e = omega arith
    beyond vb (inr a) e = omega arith

    each :
        (k : ℕ)
        → k < suc n
        → Remade fs prot
            (lookup s.mem pgdir (start + k * 4096))
            (lookup t.mem pgdir (start + k * 4096))
    each zero hk =
        subst (λ y. Remade fs prot (lookup s.mem pgdir y) (lookup t.mem pgdir y)) {x = start}
          {y = start + zero * 4096} (omega arith)
          (subst (Remade fs prot (lookup s.mem pgdir start))
            (sym (x.outside start (omega arith) (inl (omega arith)) ∙ r.set.here)) r.remade)
    each (suc k) hk =
        subst (λ y. Remade fs prot (lookup s.mem pgdir y) (lookup t.mem pgdir y))
          {x = start + 4096 + k * 4096} {y = start + suc k * 4096} (omega arith)
          (subst (λ z. Remade fs prot z (lookup t.mem pgdir (start + 4096 + k * 4096)))
            (r.set.elsewhere (start + 4096 + k * 4096) (omega arith) (λ e. omega arith))
            (Remade-Sub fs hs prot _ _ r.sub (x.inside k (omega arith))))

none_yet :
    (s : Vm) (pgdir start prot : ℕ) (fs : List ℕ)
    → IsSpace s.mem pgdir fs
    → Free s fs
    → IsRanged s s pgdir start 0 prot fs fs
none_yet s pgdir start prot fs w c = record {
  space = w;
  free = c;
  sub = λ P a. a;
  taken = omega arith;
  inside = λ k hk. absurd (omega arith);
  outside = λ vb hb o. refl;
  same_cr3 = refl;
}

rounds :
    (n i : ℕ) (s : Vm) (pgdir start prot : ℕ) (fs : List ℕ)
    → prot < 8
    → bit 0 prot ≡ 1
    → start % 4096 ≡ 0
    → start + (i + n) * 4096 ≤ 2 ^ 32
    → IsSpace s.mem pgdir fs
    → Free s fs
    → 2 * n ≤ length fs
    → (t : Vm) × (gs : List ℕ) × (for_range n i (λ k. map_page pgdir (start + k * 4096) prot) s
        ≡ some (tt, t))
      × IsRanged s t pgdir (start + i * 4096) n prot fs gs
unfolding for_range
rounds zero i s pgdir start prot fs hp hb al top w c l =
    (s, fs, refl, none_yet s pgdir (start + i * 4096) prot fs w c)
rounds (suc n) i s pgdir start prot fs hp hb al top w c l =
    let (u, hs, e, r) =
      map_page-IsMapped s pgdir (start + i * 4096) prot (omega arith) hp hb fs w c (omega arith) in
    let (t, gs, e', x) =
      rounds n (suc i) u pgdir start prot hs hp hb al (omega arith) r.set.space r.set.free
        (omega (arith, r.taken)) in
    (
      t,
      gs,
      bind-eq (map_page pgdir (start + i * 4096) prot) _ s u tt e ∙ e',
      join s u t pgdir (start + i * 4096) n prot fs hs gs (omega arith) (omega arith) r (
          subst (λ y. IsRanged u t pgdir y n prot hs gs) {x = start + suc i * 4096}
            {y = start + i * 4096 + 4096} (omega arith) x),
    )

-- The pages that `vm_map` of `len` bytes at `va` covers.
abbrev pub pages_of : ℕ → ℕ → ℕ
pages_of va len = (page_up (va + len) - page_down va) / 4096

-- If the directory is a space, `prot` has PTE_P and no other bits than the three, the range lies
-- above physical memory without wrapping around, and two pages are free for each page of it, then
-- `vm_map` completes: the entry of each page of the range is remade, from one with PTE_P by the bits
-- of `prot`, else as that of a page that was free, with `prot`. The other entries stay as they are.
pub vm_map-IsRanged :
    (s : Vm) (pgdir va len prot : ℕ) (fs : List ℕ)
    → prot < 8
    → bit 0 prot ≡ 1
    → phy_mem ≤ page_down va
    → page_down va ≤ page_up (va + len)
    → IsSpace s.mem pgdir fs
    → Free s fs
    → 2 * pages_of va len ≤ length fs
    → (t : Vm) × (gs : List ℕ) × (vm_map pgdir va len prot s ≡ some (tt, t))
      × IsRanged s t pgdir (page_down va) (pages_of va len) prot fs gs
unfolding vm_map
vm_map-IsRanged s pgdir va len prot fs hp hb lo up w c l =
    let (t, gs, e, x) =
      rounds (pages_of va len) 0 s pgdir (page_down va) prot fs hp hb (omega arith) (omega arith) w
        c l in
    (
      t,
      gs,
      assert-eq (has_bit 0 prot) _ s (ground arith)
          ∙ assert-eq (ltb prot 8) _ s (ground arith)
          ∙ assert-eq (leb phy_mem (page_down va)) _ s (ground arith)
          ∙ assert-eq (leb (page_down va) (page_up (va + len))) _ s (ground arith)
          ∙ e,
      subst (λ y. IsRanged s t pgdir y (pages_of va len) prot fs gs) {x = page_down va + 0 * 4096}
          {y = page_down va} (omega arith) x,
    )
