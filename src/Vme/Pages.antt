-- ===== src/Vme/Pages.antt =====
-- kernel/src/vme.c: the page allocator, `kalloc` and `kfree`, and what `init_page` sets up.
pub mod Chain
pub mod Fill
pub mod Init
pub mod Identity
use tiny_os_qemu.Base.{
  ℕ, zero, suc, ◌+◌, ◌-◌, ◌*◌, ◌/◌, ◌%◌, ◌^◌, Bool, true, false, not, ◌&&◌, ◌||◌, Option, none,
  some, update, within, ltb, leb, ◌==◌, if◌then◌else◌,
}
use tiny_os_qemu.Base.Exec.{Exec, pure, ◌>>=◌, ◌>>◌, get, modify, assert, for_range, abort}
use tiny_os_qemu.Vme.{
  Vm, ker_mem, phy_mem, nr_entry, nr_kpt, page_down, make_entry, load, store, entry, zero_page,
  is_kernel,
}

abbrev pub set_free : ℕ → Exec Vm (Unit {0})
set_free p = modify (λ s. record s { free_page_list = p })

-- The page at `p` is filled with zeros.
unfoldable pub clear_page : ℕ → Exec Vm (Unit {0})
clear_page p s = elim (is_kernel p) [
  | true ↦ some (tt, record s { mem = zero_page p s.mem })
  | false ↦ none
]

unfoldable pub kalloc : Exec Vm ℕ
kalloc = do
  s ← get
  assert (not (s.free_page_list == 0))
  next ← load s.free_page_list
  set_free next
  clear_page s.free_page_list
  pure s.free_page_list

-- The page address is a heap address.
abbrev pub in_heap : ℕ → Bool
in_heap a = leb ker_mem (page_down a) && ltb (page_down a) phy_mem

unfoldable pub kfree : ℕ → Exec Vm (Unit {0})
kfree ptr = do
  assert (leb ker_mem ptr && ltb ptr phy_mem)
  s ← get
  assert (in_heap s.free_page_list)
  assert (in_heap ptr)
  clear_page (page_down ptr)
  store (page_down ptr) s.free_page_list
  set_free (page_down ptr)

-- The pages of the heap.
abbrev pub heap_size : ℕ
heap_size = 32256

-- The loop of `init_page` over the heap from page `p` on; each round takes one page. `n` bounds the
-- rounds.
unfoldable pub link_pages : ℕ → ℕ → Exec Vm (Unit {0})
link_pages zero p s = none
link_pages (suc n) p s = elim (ltb p (phy_mem - 4096)) [
  | true ↦ (store p (page_down (p + 4096)) >> link_pages n (page_down (p + 4096))) s
  | false ↦ store p 0 s
]

-- `&kpt[i]`
abbrev pub kernel_table : ℕ → ℕ → ℕ
kernel_table kpt i = kpt + i * 4096

-- The entries of the table for directory entry `i`: the identity.
unfoldable pub map_table : ℕ → ℕ → Exec Vm (Unit {0})
map_table kpt i =
    for_range nr_entry 0
      (λ j. store (entry (kernel_table kpt i) j) (make_entry (i * 2 ^ 22 + j * 2 ^ 12) 3))

-- Where the linker puts `kpd` and `kpt`.
module _ (kpd kpt : ℕ) where
  unfoldable pub map_kernel : Exec Vm (Unit {0})
  map_kernel =
      for_range nr_kpt 0
        (λ i. store (entry kpd i) (make_entry (kernel_table kpt i) 3) >> map_table kpt i)

  -- `kernel_end` is the address of `end`. CR0 is no part of the state.
  unfoldable pub init_page : ℕ → Exec Vm (Unit {0})
  init_page kernel_end = do
    assert (ltb kernel_end (ker_mem - 4096))
    map_kernel
    store kpt 0
    modify (λ s. record s { cr3 = kpd })
    link_pages heap_size ker_mem
    set_free ker_mem
