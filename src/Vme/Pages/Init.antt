-- ===== src/Vme/Pages/Init.antt =====
-- kernel/src/vme.c: what `init_page` sets up.
use tiny_os_qemu.Base.{
  ℕ, zero, suc, ◌+◌, ◌-◌, ◌*◌, ◌%◌, ◌^◌, ◌<◌, ◌≤◌, ◌≡◌, ◌≢◌, refl, true, false, some, List, [], ◌∷◌,
  All, update, ltb, ==_refl, arith, sym, ap, ◌∙◌, lt→ltb,
}
use mathlib.Core.Path.{subst}
use tiny_os_qemu.Base.Exec.{◌>>◌, bind-eq, assert-eq}
use tiny_os_qemu.Vme.{
  Vm, ker_mem, phy_mem, entry, is_kernel, is_present, frame, make_entry, store, addr_to_dir,
  addr_to_tbl, page_down,
}
use tiny_os_qemu.Vme.Space.{lookup, frame-make_entry, is_present-make_entry}
use tiny_os_qemu.Vme.Pages.{kernel_table, link_pages, map_kernel, init_page, heap_size}
use tiny_os_qemu.Vme.Pages.Chain.{IsPage, Chain, Free, is_kernel-page}
use tiny_os_qemu.Vme.Pages.Fill.{store_one}
use tiny_os_qemu.Vme.Pages.Identity.{IsPlaced, IsIdentity, map_kernel-IsIdentity}

-- `n` pages from `p` on.
unfoldable pub heap_pages : ℕ → ℕ → List ℕ
heap_pages zero p = []
heap_pages (suc n) p = p ∷ heap_pages n (p + 4096)

pages_above : (n p q : ℕ) → q < p → All (λ r. r ≢ q) (heap_pages n p)
unfolding heap_pages
pages_above zero p q h = tt
pages_above (suc n) p q h = ((λ e. omega arith), pages_above n (p + 4096) q (omega arith))

-- From `s` to `t` the pages from `p` on have been linked.
record IsLinked (s t : Vm) (n p : ℕ) : Type 0 where
  pub chain : Chain t.mem p (heap_pages n p)
  pub below : (a : ℕ) → a < p → t.mem a ≡ s.mem a
  pub same_cr3 : t.cr3 ≡ s.cr3

link_more :
    (n p : ℕ) (s : Vm)
    → ltb p (phy_mem - 4096) ≡ true
    → link_pages (suc n) p s
      ≡ (store p (page_down (p + 4096)) >> link_pages n (page_down (p + 4096))) s
unfolding link_pages
link_more n p s e = rw (e, link_pages) refl

link_last :
    (n p : ℕ) (s : Vm) → ltb p (phy_mem - 4096) ≡ false → link_pages (suc n) p s ≡ store p 0 s
unfolding link_pages
link_last n p s e = rw (e, link_pages) refl

link_pages-IsLinked :
    (n p : ℕ) (s : Vm)
    → p % 4096 ≡ 0
    → ker_mem ≤ p
    → p + suc n * 4096 ≡ phy_mem
    → (t : Vm) × (link_pages (suc n) p s ≡ some (tt, t)) × IsLinked s t (suc n) p
unfolding heap_pages
link_pages-IsLinked zero p s al lo e =
    let pg : IsPage p = (al, lo, omega arith) in
    (
      record s { mem = update s.mem p 0 },
      link_last 0 p s (ground arith) ∙ store_one s p 0 (is_kernel-page p pg),
      record {
        chain = (refl, pg, tt, ground (arith, ==_refl p));
        below = λ a h. ground arith;
        same_cr3 = refl;
      },
    )
link_pages-IsLinked (suc n) p s al lo e =
    let pg : IsPage p = (al, lo, omega arith) in
    let u : Vm = record s { mem = update s.mem p (page_down (p + 4096)) } in
    let down : page_down (p + 4096) ≡ p + 4096 = omega arith in
    let (t, e', x) = link_pages-IsLinked n (p + 4096) u (omega arith) (omega arith) (omega arith) in
    (
      t,
      link_more (suc n) p s (ground arith)
          ∙ bind-eq (store p (page_down (p + 4096))) _ s u tt
              (store_one s p _ (is_kernel-page p pg))
          ∙ ap (λ z. link_pages (suc n) z u) down
          ∙ e',
      record {
        chain = (
          refl,
          pg,
          pages_above (suc n) (p + 4096) p (omega arith),
          subst (λ z. Chain t.mem z (heap_pages (suc n) (p + 4096)))
              (sym (x.below p (omega arith) ∙ ground (arith, ==_refl p))) x.chain,
        );
        below = λ a h. x.below a (omega arith) ∙ ground arith;
        same_cr3 = x.same_cr3;
      },
    )

module _ (kpd kpt : ℕ) (pl : IsPlaced kpd kpt) where
  -- Behind `kpt[0].pte[0].val = 0`.
  abbrev unmapped : Vm → Vm
  unmapped u = record u { mem = update u.mem kpt 0; cr3 = kpd }

  is_kernel-kpt : is_kernel kpt ≡ true
  is_kernel-kpt = ground (arith, pl.kpt_low, pl.kpt_high)

  module _ (u t : Vm) (n : ℕ) (r : IsIdentity u.mem kpd kpt 32)
      (x : IsLinked (unmapped u) t n ker_mem) where
    dir_kept : (d : ℕ) → d < 32 → t.mem (entry kpd d) ≡ make_entry (kernel_table kpt d) 3
    dir_kept d h =
        x.below (entry kpd d) (omega (arith, pl.kpd_high)) ∙ ground (arith, r.dirs d, pl.apart)

    table_kept :
        (d j : ℕ)
        → d < 32
        → j < 1024
        → t.mem (entry (kernel_table kpt d) j) ≡ update u.mem kpt 0 (entry (kernel_table kpt d) j)
    table_kept d j h k = x.below (entry (kernel_table kpt d) j) (omega (arith, pl.kpt_high))

    to_table :
        (va : ℕ)
        → va < phy_mem
        → lookup t.mem kpd va ≡ t.mem (entry (kernel_table kpt (addr_to_dir va)) (addr_to_tbl va))
    to_table va h =
        let k = dir_kept (addr_to_dir va) (omega arith) in
        rw (ap is_present k ∙ is_present-make_entry (kernel_table kpt (addr_to_dir va)) 3) (
          ap (λ z. t.mem (entry z (addr_to_tbl va)))
            (ap frame k
              ∙ frame-make_entry (kernel_table kpt (addr_to_dir va)) 3 (omega arith)
              ∙ omega (arith, pl.kpt_aligned)))

    not_first :
        (va : ℕ) → 4096 ≤ va → kpt ≢ entry (kernel_table kpt (addr_to_dir va)) (addr_to_tbl va)
    not_first va h e = omega arith

    maps_itself :
        (va : ℕ) → 4096 ≤ va → va < phy_mem → lookup t.mem kpd va ≡ make_entry (page_down va) 3
    maps_itself va lo hi =
        to_table va hi
        ∙ table_kept (addr_to_dir va) (addr_to_tbl va) (omega arith) (omega arith)
        ∙ ground (arith, not_first va lo)
        ∙ r.tables (addr_to_dir va) (addr_to_tbl va) (omega arith) (omega arith)
        ∙ ap (λ z. make_entry z 3) {x = addr_to_dir va * 2 ^ 22 + addr_to_tbl va * 2 ^ 12}
            {y = page_down va} (omega arith)

    maps_no_null : (va : ℕ) → va < 4096 → lookup t.mem kpd va ≡ 0
    maps_no_null va h =
        to_table va (omega arith)
        ∙ table_kept (addr_to_dir va) (addr_to_tbl va) (omega arith) (omega arith)
        ∙ ap (update u.mem kpt 0) {x = entry (kernel_table kpt (addr_to_dir va)) (addr_to_tbl va)}
            {y = kpt} (omega arith)
        ∙ ground (arith, ==_refl kpt)

-- If `kpd` and `kpt` are placed in the kernel's memory and the kernel leaves a page below the heap,
-- then `init_page` completes with `kpd` in CR3: it maps every address of physical memory to itself,
-- writeable, but for page 0, which is not mapped, and every page of the heap is free.
pub init_page-Free :
    (kpd kpt kernel_end : ℕ) (s : Vm)
    → IsPlaced kpd kpt
    → kernel_end < ker_mem - 4096
    → (t : Vm) × (init_page kpd kpt kernel_end s ≡ some (tt, t))
      × (t.cr3 ≡ kpd)
      × Free t (heap_pages heap_size ker_mem)
      × ((va : ℕ) → 4096 ≤ va → va < phy_mem → lookup t.mem kpd va ≡ make_entry (page_down va) 3)
      × ((va : ℕ) → va < 4096 → lookup t.mem kpd va ≡ 0)
unfolding init_page
init_page-Free kpd kpt kernel_end s pl h =
    let (u, e, r) = map_kernel-IsIdentity kpd kpt pl s in
    let v = unmapped kpd kpt pl u in
    let (t, e', x) =
      link_pages-IsLinked 32255 ker_mem v (omega arith) (omega arith) (omega arith) in
    (
      record t { free_page_list = ker_mem },
      assert-eq (ltb kernel_end (ker_mem - 4096)) _ s (lt→ltb kernel_end (ker_mem - 4096) h)
          ∙ bind-eq (map_kernel kpd kpt) _ s u tt e
          ∙ bind-eq (store kpt 0) _ u (record u { mem = update u.mem kpt 0 }) tt
              (store_one u kpt 0 (is_kernel-kpt kpd kpt pl))
          ∙ bind-eq (link_pages heap_size ker_mem) _ v t tt e',
      x.same_cr3,
      x.chain,
      maps_itself kpd kpt pl u t 32256 r x,
      maps_no_null kpd kpt pl u t 32256 r x,
    )
