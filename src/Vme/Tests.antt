-- ===== src/Vme/Tests.antt =====
-- kernel/src/vme.c: the theorems there at a small memory.
use tiny_os_qemu.Base.{
  ℕ, ◌+◌, ◌^◌, ◌<◌, ◌≤◌, ◌≡◌, refl, true, none, some, List, [], ◌∷◌, All, update, ◌==◌,
  if◌then◌else◌, arith, inl,
}
use tiny_os_qemu.Vme.{
  Vm, ker_mem, phy_mem, entry, is_present, make_entry, addr_to_dir, addr_to_tbl, addr_to_off,
  page_down, zero_page, load,
}
use tiny_os_qemu.Vme.Space.{lookup, IsSpace}
use tiny_os_qemu.Vme.Pages.{kalloc, kfree, init_page, kernel_table, heap_size}
use tiny_os_qemu.Vme.Pages.Chain.{Free, kalloc-Free, kfree-Free}
use tiny_os_qemu.Vme.Pages.Init.{heap_pages, init_page-Free}
use tiny_os_qemu.Vme.Tables.{vm_alloc, vm_map, vm_walk, vm_walkpte}
use tiny_os_qemu.Vme.Tables.Alloc.{vm_alloc-IsSpace}
use tiny_os_qemu.Vme.Tables.Map.Range.{IsRanged, pages_of, vm_map-IsRanged}
use tiny_os_qemu.Vme.Tables.Found.{vm_walk-vm_map, vm_walk-fault}

abbrev pub dir : ℕ
dir = 2097152

abbrev pub first : ℕ
first = 2101248

abbrev pub second : ℕ
second = 2105344

abbrev pub third : ℕ
third = 2109440

-- Two pages are free; the directory at `dir` is empty.
abbrev pub two_free : Vm
two_free = record { mem = λ a. if a == first then second else 0; free_page_list = first; cr3 = dir }

abbrev none_free : Vm
none_free = record two_free { free_page_list = 0 }

abbrev pub pages : List ℕ
pages = first ∷ second ∷ []

pub two_free-Free : Free two_free pages
two_free-Free = (
  refl,
  (refl, omega arith, omega arith),
  ((λ e. omega arith), tt),
  (refl, (refl, omega arith, omega arith), tt, refl),
)

empty_entry : (i : ℕ) → i < 1024 → is_present (two_free.mem (entry dir i)) ≡ true → ⊥
empty_entry i h p = ground arith

pub dir-IsSpace : IsSpace two_free.mem dir pages
dir-IsSpace = record {
  aligned = refl;
  low = omega arith;
  high = omega arith;
  unfree = ((λ e. omega arith), ((λ e. omega arith), tt));
  table = λ i h p. absurd (empty_entry i h p);
  apart = λ i j h k ne p q. absurd (empty_entry i h p);
}

kalloc-Free_example :
    (t : Vm) × (kalloc two_free ≡ some (first, t))
    × (t.mem ≡ zero_page first two_free.mem)
    × (t.cr3 ≡ dir)
    × Free t (second ∷ [])
kalloc-Free_example = kalloc-Free two_free first (second ∷ []) two_free-Free

kfree-Free_example :
    (t : Vm) × (kfree (third + 8) two_free ≡ some (tt, t))
    × (t.mem ≡ update (zero_page third two_free.mem) third first)
    × (t.cr3 ≡ dir)
    × Free t (third ∷ pages)
kfree-Free_example =
    kfree-Free two_free (third + 8) first (second ∷ []) (omega arith) (omega arith)
      ((λ e. omega arith), ((λ e. omega arith), tt)) two_free-Free

init_page-Free_example :
    (t : Vm) × (init_page 1048576 1052672 1200000 none_free ≡ some (tt, t))
    × (t.cr3 ≡ 1048576)
    × Free t (heap_pages heap_size ker_mem)
    × ((va : ℕ) → 4096 ≤ va → va < phy_mem → lookup t.mem 1048576 va ≡ make_entry (page_down va) 3)
    × ((va : ℕ) → va < 4096 → lookup t.mem 1048576 va ≡ 0)
init_page-Free_example =
    init_page-Free 1048576 1052672 1200000 none_free
      (record {
        kpd_low = omega arith;
        kpd_high = omega arith;
        kpt_aligned = refl;
        kpt_low = omega arith;
        kpt_high = omega arith;
        apart = inl (omega arith);
      })
      (omega arith)

vm_alloc-IsSpace_example :
    (t : Vm) × (vm_alloc 1052672 two_free ≡ some (first, t))
    × IsSpace t.mem first (second ∷ [])
    × Free t (second ∷ [])
    × ((va : ℕ) → phy_mem ≤ va → va < 2 ^ 32 → lookup t.mem first va ≡ 0)
    × ((va : ℕ)
        → va < phy_mem
        → lookup t.mem first va
          ≡ t.mem (entry (kernel_table 1052672 (addr_to_dir va)) (addr_to_tbl va)))
vm_alloc-IsSpace_example =
    vm_alloc-IsSpace 1052672 two_free first (second ∷ []) (refl, omega arith, omega arith)
      two_free-Free

-- One page, at the address to which user programs are linked.
vm_map-IsRanged_example :
    (t : Vm) × (gs : List ℕ) × (vm_map dir 134512640 100 7 two_free ≡ some (tt, t))
    × IsRanged two_free t dir (page_down 134512640) (pages_of 134512640 100) 7 pages gs
vm_map-IsRanged_example =
    vm_map-IsRanged two_free dir 134512640 100 7 pages (omega arith) refl (omega arith)
      (omega arith) dir-IsSpace two_free-Free (omega arith)

vm_walk-vm_map_example :
    (t : Vm) × (q : ℕ) × (vm_map dir 134512640 100 7 two_free ≡ some (tt, t))
    × ((P : ℕ → Type 0) → All P pages → P q)
    × (vm_walk dir 134512645 0 t ≡ some (q + addr_to_off 134512645, t))
vm_walk-vm_map_example =
    vm_walk-vm_map two_free dir 134512640 100 7 134512645 pages (omega arith) refl (omega arith)
      (omega arith) (omega arith) dir-IsSpace two_free-Free (omega arith) refl

vm_walk-fault_example :
    (vm_walkpte dir 134512645 6 two_free ≡ some (0, two_free))
    × (load 0 two_free ≡ none)
    × (vm_walk dir 134512645 6 two_free ≡ none)
vm_walk-fault_example =
    vm_walk-fault two_free dir 134512645 pages (omega arith) dir-IsSpace 6 refl (omega arith) refl
