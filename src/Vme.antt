-- ===== src/Vme.antt =====
-- kernel/src/vme.c and the paging part of kernel/include/x86/memory.h: addresses, entries, memory.
pub mod Pages
pub mod Tables
pub mod Space
pub mod Tests
use tiny_os_qemu.Base.{
  ℕ, zero, suc, ◌+◌, ◌-◌, ◌*◌, ◌/◌, ◌%◌, ◌^◌, min, Bool, true, false, not, ◌&&◌, ◌||◌, Option, none,
  some, update, within, ltb, leb, ◌==◌, if◌then◌else◌,
}
use tiny_os_qemu.Base.Exec.{Exec}

abbrev pub ker_mem : ℕ
ker_mem = 2097152

abbrev pub phy_mem : ℕ
phy_mem = 134217728

abbrev pub usr_mem : ℕ
usr_mem = 3221225472

abbrev pub pg_size : ℕ
pg_size = 4096

-- NR_PDE and NR_PTE
abbrev pub nr_entry : ℕ
nr_entry = 1024

-- PHY_MEM / PT_SIZE: the entries of a page directory that map physical memory.
abbrev pub nr_kpt : ℕ
nr_kpt = 32

abbrev pub page_down : ℕ → ℕ
page_down a = a / 4096 * 4096

abbrev pub page_up : ℕ → ℕ
page_up a = (a + 4095) % 2 ^ 32 / 4096 * 4096

abbrev pub addr_to_dir : ℕ → ℕ
addr_to_dir a = a / 2 ^ 22

abbrev pub addr_to_tbl : ℕ → ℕ
addr_to_tbl a = a / 4096 % 1024

abbrev pub addr_to_off : ℕ → ℕ
addr_to_off a = a % 4096

-- PTE_P, PTE_W and PTE_U are bits 0, 1 and 2.
abbrev pub bit : ℕ → ℕ → ℕ
bit k v = v / 2 ^ k % 2

abbrev pub has_bit : ℕ → ℕ → Bool
has_bit k v = bit k v == 1

-- Of two bits, at least one.
abbrev pub either : ℕ → ℕ → ℕ
either x y = x + y - min x y

-- `v | prot`, for a `prot` of at most three bits.
abbrev pub or_prot : ℕ → ℕ → ℕ
or_prot v prot =
    v / 8 * 8
    + either (bit 2 v) (bit 2 prot) * 4
    + either (bit 1 v) (bit 1 prot) * 2
    + either (bit 0 v) (bit 0 prot)

-- `v & prot & 7`
abbrev pub and_prot : ℕ → ℕ → ℕ
and_prot v prot =
    min (bit 2 v) (bit 2 prot) * 4 + min (bit 1 v) (bit 1 prot) * 2 + min (bit 0 v) (bit 0 prot)

-- MAKE_PDE and MAKE_PTE
abbrev pub make_entry : ℕ → ℕ → ℕ
make_entry addr prot = or_prot (or_prot (page_down addr) prot) 1

abbrev pub is_present : ℕ → Bool
is_present e = has_bit 0 e

-- PDE2PT and PTE2PG: the page frame of an entry, as an address.
abbrev pub frame : ℕ → ℕ
frame e = e / 4096 * 4096

-- `mem` has the 32-bit words of physical memory at the multiples of 4. A pointer is an address, NULL
-- is 0.
pub record Vm : Type 0 where
  pub mem : ℕ → ℕ
  pub free_page_list : ℕ
  pub cr3 : ℕ

-- Page 0 is not mapped, and what lies above PHY_MEM is no memory of the kernel.
abbrev pub is_kernel : ℕ → Bool
is_kernel a = leb 4096 a && ltb a phy_mem

unfoldable pub load : ℕ → Exec Vm ℕ
load a s = elim (is_kernel a) [ true ↦ some (s.mem a, s) | false ↦ none ]

unfoldable pub store : ℕ → ℕ → Exec Vm (Unit {0})
store a v s = elim (is_kernel a) [
  | true ↦ some (tt, record s { mem = update s.mem a v })
  | false ↦ none
]

-- `pgdir->pde[i]` and `pt->pte[i]`, by their addresses.
abbrev pub entry : ℕ → ℕ → ℕ
entry table i = table + i * 4

-- Bits 12 to 31 of an address that is 0 below are its page frame.
abbrev pub zero_page : ℕ → (ℕ → ℕ) → ℕ → ℕ
zero_page p m a = if within p 4096 a then 0 else m a
