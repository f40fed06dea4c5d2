-- ===== src/Vme/Tables.antt =====
-- kernel/src/vme.c: page directories and page tables.
pub mod Walk
pub mod Map
pub mod Alloc
pub mod Found
pub mod Teardown
use tiny_os_qemu.Base.{
  ℕ, zero, suc, ◌+◌, ◌-◌, ◌*◌, ◌/◌, ◌%◌, ◌^◌, Bool, true, false, not, ◌&&◌, ◌||◌, Option, none,
  some, update, within, ltb, leb, ◌==◌, if◌then◌else◌,
}
use tiny_os_qemu.Base.Exec.{Exec, pure, ◌>>=◌, ◌>>◌, get, modify, assert, when, for_range, abort}
use tiny_os_qemu.Vme.{
  Vm, phy_mem, usr_mem, nr_entry, nr_kpt, page_down, page_up, make_entry, load, store, entry,
  addr_to_dir, addr_to_tbl, addr_to_off, is_present, frame, has_bit, or_prot, and_prot, is_kernel,
}
use tiny_os_qemu.Vme.Pages.{kalloc, kfree, kernel_table}

-- `kpt` is where the linker puts the kernel's page tables.
unfoldable pub vm_alloc : ℕ → Exec Vm ℕ
vm_alloc kpt = do
  pgdir ← kalloc
  for_range nr_kpt 0 (λ i. store (entry pgdir i) (make_entry (kernel_table kpt i) 3))
  for_range (nr_entry - nr_kpt) nr_kpt (λ i. store (entry pgdir i) 0)
  pure pgdir

-- The inner loop of `vm_teardown`.
unfoldable pub free_pages : ℕ → Exec Vm (Unit {0})
free_pages pt =
    for_range nr_entry 0 (λ j. do e ← load (entry pt j); when (is_present e) (kfree (frame e)))

unfoldable pub vm_teardown : ℕ → Exec Vm (Unit {0})
vm_teardown pgdir = do
  for_range (nr_entry - nr_kpt) nr_kpt (λ i. do
    e ← load (entry pgdir i)
    when (is_present e) (free_pages (frame e) >> kfree (frame e)))
  kfree pgdir

unfoldable pub vm_curr : Exec Vm ℕ
vm_curr s = some (page_down s.cr3, s)

-- No page table yet: one is allocated if `prot` has PTE_P. `pde` is the address of the entry.
unfoldable pub add_table : ℕ → ℕ → ℕ → Exec Vm ℕ
add_table pde va prot = elim (has_bit 0 prot) [
  | true ↦ do
    assert (ltb prot 8)
    pt ← kalloc
    store pde (make_entry pt prot)
    pure (entry pt (addr_to_tbl va))
  | false ↦ pure 0
]

-- The page table is there; `e` is its entry in the directory.
unfoldable pub use_table : ℕ → ℕ → ℕ → ℕ → Exec Vm ℕ
use_table pde e va prot = do
  assert (ltb prot 8)
  when (not (prot == 0)) (store pde (or_prot e prot))
  pure (entry (frame e) (addr_to_tbl va))

-- The address of the entry for `va`, or NULL.
unfoldable pub vm_walkpte : ℕ → ℕ → ℕ → Exec Vm ℕ
vm_walkpte pgdir va prot = do
  e ← load (entry pgdir (addr_to_dir va))
  if is_present e
      then use_table (entry pgdir (addr_to_dir va)) e va prot
      else add_table (entry pgdir (addr_to_dir va)) va prot

-- `vm_pgfault` panics. A read through NULL faults.
unfoldable pub vm_walk : ℕ → ℕ → ℕ → Exec Vm ℕ
vm_walk pgdir va prot = do
  pte ← vm_walkpte pgdir va prot
  e ← load pte
  assert (not (has_bit 0 prot && not (and_prot e prot == prot)))
  assert (leb phy_mem va)
  pure (if frame e == 0 && not (has_bit 0 prot) then 0 else frame e + addr_to_off va)

-- One round of `vm_map`.
unfoldable pub map_page : ℕ → ℕ → ℕ → Exec Vm (Unit {0})
map_page pgdir va prot = do
  pte ← vm_walkpte pgdir va prot
  assert (not (pte == 0))
  e ← load pte
  if is_present e
      then store pte (or_prot e prot)
      else (do page ← kalloc; store pte (make_entry page prot))

-- The rounds at `start`, `start` + PGSIZE, ...; `start` and `end` are multiples of PGSIZE.
unfoldable pub vm_map : ℕ → ℕ → ℕ → ℕ → Exec Vm (Unit {0})
vm_map pgdir va len prot = do
  let start = page_down va
  let end = page_up (va + len)
  assert (has_bit 0 prot)
  assert (ltb prot 8)
  assert (leb phy_mem start)
  assert (leb start end)
  for_range ((end - start) / 4096) 0 (λ i. map_page pgdir (start + i * 4096) prot)

-- One round of `vm_unmap`; `pte->present = 0`.
unfoldable pub unmap_page : ℕ → ℕ → Exec Vm (Unit {0})
unmap_page pgdir va = do
  pte ← vm_walkpte pgdir va 0
  when (not (pte == 0)) (do
    e ← load pte
    when (is_present e) (do kfree (frame e); now ← load pte; store pte (now - now % 2)))

unfoldable pub vm_unmap : ℕ → ℕ → ℕ → Exec Vm (Unit {0})
vm_unmap pgdir va len = do
  assert (addr_to_off va == 0)
  assert (addr_to_off len == 0)
  for_range ((page_up (va + len) - page_down va) / 4096) 0
      (λ i. unmap_page pgdir (page_down va + i * 4096))
  curr ← vm_curr
  when (pgdir == curr) (modify (λ s. record s { cr3 = curr }))

-- `memcpy` of a page.
unfoldable pub copy_page : ℕ → ℕ → Exec Vm (Unit {0})
copy_page dst src s = elim (is_kernel dst && is_kernel src) [
  | true ↦
      some
        (tt, record s { mem = λ a. if within dst 4096 a then s.mem (src + (a - dst)) else s.mem a })
  | false ↦ none
]

-- One round of `vm_copycurr`.
unfoldable pub copy_mapped : ℕ → ℕ → Exec Vm (Unit {0})
copy_mapped pgdir va = do
  curr ← vm_curr
  pte ← vm_walkpte curr va 0
  when (not (pte == 0)) (do
    e ← load pte
    when (is_present e) (do
      vm_map pgdir va 4096 (e % 8)
      pa ← vm_walk curr va 0
      new_pa ← vm_walk pgdir va 0
      copy_page new_pa pa))

unfoldable pub vm_copycurr : ℕ → Exec Vm (Unit {0})
vm_copycurr pgdir =
    for_range ((usr_mem - phy_mem) / 4096) 0 (λ i. copy_mapped pgdir (phy_mem + i * 4096))
