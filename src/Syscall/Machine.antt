-- ===== src/Syscall/Machine.antt =====
-- What kernel/src/proc.c and kernel/src/syscall.c call: kernel/src/vme.c, file.c and fs.c as the
-- services of the process table.
use tiny_os_qemu.Base.{ℕ, none, some}
use tiny_os_qemu.Base.Exec.{Exec}
use tiny_os_qemu.Proc.State.{Services}
use tiny_os_qemu.Fs.Inodes
use tiny_os_qemu.File
use tiny_os_qemu.File.{Files, in_fs}
use tiny_os_qemu.Vme.{Vm}
use tiny_os_qemu.Vme.Pages
use tiny_os_qemu.Vme.Tables

pub record Machine : Type 0 where
  pub opened : Files
  pub memory : Vm

abbrev pub on_files : {A : Type 0} → Exec Files A → Exec Machine A
on_files m s = elim (m s.opened) [ none ↦ none | some (a, t) ↦ some (a, record s { opened = t }) ]

abbrev pub on_memory : {A : Type 0} → Exec Vm A → Exec Machine A
on_memory m s = elim (m s.memory) [ none ↦ none | some (a, t) ↦ some (a, record s { memory = t }) ]

-- `kpt` is where the linker puts the kernel's page tables.
abbrev pub services : ℕ → Services Machine
services kpt = record {
  vm_alloc = on_memory (Tables.vm_alloc kpt);
  kalloc = on_memory Pages.kalloc;
  kfree = λ p. on_memory (Pages.kfree p);
  vm_teardown = λ pgdir. on_memory (Tables.vm_teardown pgdir);
  vm_copycurr = λ pgdir. on_memory (Tables.vm_copycurr pgdir);
  fdup = λ f. on_files (File.fdup f);
  fclose = λ f. on_files (File.fclose f);
  idup = λ i. on_files (in_fs (Inodes.idup i));
  iclose = λ i. on_files (in_fs (Inodes.iclose i));
}
