-- ===== src/Syscall/Heap.antt =====
-- kernel/src/syscall.c: `sys_brk` on top of kernel/src/vme.c.
use tiny_os_qemu.Base.{
  ℕ, ◌+◌, ◌-◌, ◌*◌, ◌/◌, ◌%◌, ◌<◌, ◌≤◌, ◌≡◌, refl, some, List, ltb, ◌==◌, true, false, arith, ◌∙◌,
  length,
}
use mathlib.Core.Path.{subst}
use tiny_os_qemu.Base.Exec.{Exec, bind-eq}
use tiny_os_qemu.Proc.State.{Kernel, call}
use tiny_os_qemu.Vme.{Vm, page_up, page_down, phy_mem}
use tiny_os_qemu.Vme.Pages.Chain.{Free}
use tiny_os_qemu.Vme.Space.{IsSpace}
use tiny_os_qemu.Vme.Tables.{vm_curr, vm_map}
use tiny_os_qemu.Vme.Tables.Map.Range.{IsRanged, pages_of, vm_map-IsRanged}
use tiny_os_qemu.Syscall.{Reply, current}
use tiny_os_qemu.Syscall.Machine.{Machine, on_memory}
use tiny_os_qemu.Syscall.Files.{sys_brk, move_brk, grow_heap, set_brk}

abbrev pub with_memory : Vm → Kernel Machine → Kernel Machine
with_memory t k = record k { rest = record k.rest { memory = t } }

on_memory-eq :
    {A : Type 0} (m : Exec Vm A) (a : A) (t : Vm) (k : Kernel Machine)
    → m k.rest.memory ≡ some (a, t)
    → call (on_memory m) k ≡ some (a, with_memory t k)
on_memory-eq m a t k e = rw (e, call, on_memory) refl

curr-eq : (k : Kernel Machine) → call (on_memory vm_curr) k ≡ some (page_down k.rest.memory.cr3, k)
unfolding vm_curr
curr-eq k = refl

grow_heap-eq :
    (brk new : ℕ) (t : Vm) (k : Kernel Machine)
    → vm_map (page_down k.rest.memory.cr3) brk (new - brk) 7 k.rest.memory ≡ some (tt, t)
    → grow_heap brk new k ≡ some (tt, set_brk new (with_memory t k))
unfolding grow_heap
grow_heap-eq brk new t k e =
    bind-eq (call (on_memory vm_curr)) _ k k _ (curr-eq k)
    ∙ bind-eq (call (on_memory (vm_map (page_down k.rest.memory.cr3) brk (new - brk) 7))) _ k
        (with_memory t k) tt
        (on_memory-eq (vm_map (page_down k.rest.memory.cr3) brk (new - brk) 7) tt t k e)

sys_brk-eq :
    (addr : ℕ) (t : Kernel Machine) (k : Kernel Machine)
    → ((current k).brk == 0) ≡ false
    → ltb (current k).brk (page_up addr) ≡ true
    → grow_heap (current k).brk (page_up addr) k ≡ some (tt, t)
    → sys_brk addr k ≡ some (Reply.returned 0, t)
unfolding sys_brk move_brk
sys_brk-eq addr t k z l e =
    bind-eq (move_brk (current k).brk (page_up addr)) _ k t tt (rw z (rw l e))

brk_up : (addr brk : ℕ) → brk < page_up addr → page_up (brk + (page_up addr - brk)) ≡ page_up addr
brk_up addr brk h = omega arith

-- If the process has a page-aligned break above physical memory, `addr` lies in a page above it,
-- CR3 has a directory that is a space, and two pages are free for each page in between, then
-- `sys_brk` returns 0 with the break at the end of the page of `addr`: the pages in between are
-- remade for user mode, writeable, and the rest of the map stays as it is.
pub sys_brk-IsRanged :
    (addr : ℕ) (k : Kernel Machine) (fs : List ℕ)
    → (current k).brk % 4096 ≡ 0
    → phy_mem ≤ (current k).brk
    → (current k).brk < page_up addr
    → IsSpace k.rest.memory.mem (page_down k.rest.memory.cr3) fs
    → Free k.rest.memory fs
    → 2 * ((page_up addr - (current k).brk) / 4096) ≤ length fs
    → (t : Vm) × (gs : List ℕ) × (sys_brk addr k
        ≡ some (Reply.returned 0, set_brk (page_up addr) (with_memory t k)))
      × IsRanged k.rest.memory t
          (page_down k.rest.memory.cr3)
          (current k).brk
          ((page_up addr - (current k).brk) / 4096)
          7
          fs
          gs
sys_brk-IsRanged addr k fs al lo lt w c l =
    let brk = (current k).brk in
    let len = page_up addr - brk in
    let up = brk_up addr brk lt in
    let down : page_down brk ≡ brk = omega arith in
    let n : pages_of brk len ≡ len / 4096 = omega arith in
    let (t, gs, e, x) =
      vm_map-IsRanged k.rest.memory (page_down k.rest.memory.cr3) brk len 7 fs (omega arith) refl
        (omega arith) (omega arith) w c (omega arith) in
    (
      t,
      gs,
      sys_brk-eq addr (set_brk (page_up addr) (with_memory t k)) k (ground arith) (ground arith)
          (grow_heap-eq brk (page_up addr) t k e),
      subst (λ z. IsRanged k.rest.memory t (page_down k.rest.memory.cr3) z (len / 4096) 7 fs gs)
          down
          (subst
            (λ z. IsRanged k.rest.memory t (page_down k.rest.memory.cr3) (page_down brk) z 7 fs gs)
            n x),
    )
