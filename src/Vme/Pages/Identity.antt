-- ===== src/Vme/Pages/Identity.antt =====
-- kernel/src/vme.c: the tables of the kernel, which map physical memory to itself.
use tiny_os_qemu.Base.{
  ℕ, zero, suc, ◌+◌, ◌*◌, ◌%◌, ◌^◌, ◌<◌, ◌≤◌, ◌≡◌, ◌≢◌, refl, true, some, update, ◌==◌, ==_refl,
  ==_iff, arith, sym, ◌∙◌, Bool-cases, inl, inr, ◌⊎◌,
}
use mathlib.Core.Path.{subst}
use tiny_os_qemu.Base.Exec.{◌>>◌, bind-eq, for_range}
use tiny_os_qemu.Vme.{Vm, ker_mem, entry, is_kernel, make_entry, store}
use tiny_os_qemu.Vme.Pages.{kernel_table, map_table, map_kernel}
use tiny_os_qemu.Vme.Pages.Fill.{fill_entries, IsFilled, store_one}

-- The kernel's directory and its 32 tables lie in the kernel's memory, apart from each other.
pub record IsPlaced (kpd kpt : ℕ) : Type 0 where
  pub kpd_low : 4096 ≤ kpd
  pub kpd_high : kpd + 4096 ≤ ker_mem
  pub kpt_aligned : kpt % 4096 ≡ 0
  pub kpt_low : 4096 ≤ kpt
  pub kpt_high : kpt + 131072 ≤ ker_mem
  pub apart : (kpd + 4096 ≤ kpt) ⊎ (kpt + 131072 ≤ kpd)

-- The directory and the tables below `i` are set.
pub record IsIdentity (m : ℕ → ℕ) (kpd kpt i : ℕ) : Type 0 where
  pub dirs : (d : ℕ) → d < i → m (entry kpd d) ≡ make_entry (kernel_table kpt d) 3
  pub tables :
      (d j : ℕ)
      → d < i
      → j < 1024
      → m (entry (kernel_table kpt d) j) ≡ make_entry (d * 2 ^ 22 + j * 2 ^ 12) 3

map_table-fill :
    (kpt i : ℕ) (s : Vm)
    → 4096 ≤ kpt
    → i < 32
    → kpt + 131072 ≤ ker_mem
    → (t : Vm) × (map_table kpt i s ≡ some (tt, t))
      × IsFilled s t (kernel_table kpt i) 0 1024 (λ j. make_entry (i * 2 ^ 22 + j * 2 ^ 12) 3)
unfolding map_table
map_table-fill kpt i s lo hi k =
    fill_entries 1024 0 (kernel_table kpt i) (λ j. make_entry (i * 2 ^ 22 + j * 2 ^ 12) 3) s
      (omega arith) (omega arith)

module _ (kpd kpt : ℕ) (pl : IsPlaced kpd kpt) where
  abbrev with_dir : ℕ → Vm → Vm
  with_dir i s = record s { mem = update s.mem (entry kpd i) (make_entry (kernel_table kpt i) 3) }

  -- A place of the kernel's tables is none of the directory.
  dir_apart : (d i j : ℕ) → d < 32 → i < 32 → j < 1024 → entry kpd d ≢ entry (kernel_table kpt i) j
  dir_apart d i j hd hi hj e = ground (arith, pl.apart)

  one_more :
      (i : ℕ) (s t : Vm)
      → i < 32
      → IsIdentity s.mem kpd kpt i
      → IsFilled
          (with_dir i s)
          t
          (kernel_table kpt i)
          0
          1024
          (λ j. make_entry (i * 2 ^ 22 + j * 2 ^ 12) 3)
      → IsIdentity t.mem kpd kpt (suc i)
  one_more i s t hi r x = record { dirs = dirs; tables = tables }
    where
      beside :
          (d : ℕ)
          → d < 32
          → (entry kpd d < entry (kernel_table kpt i) 0)
            ⊎ (entry (kernel_table kpt i) 1024 ≤ entry kpd d)
      beside d hd = elim pl.apart [ inl a ↦ inl (omega arith) | inr a ↦ inr (omega arith) ]

      dirs : (d : ℕ) → d < suc i → t.mem (entry kpd d) ≡ make_entry (kernel_table kpt d) 3
      dirs d hd = x.outside (entry kpd d) (beside d (omega arith)) ∙ elim (Bool-cases (d == i)) [
        | inl e ↦
            subst (λ z. (with_dir i s).mem (entry kpd z) ≡ make_entry (kernel_table kpt z) 3)
              (sym ((==_iff d i).0 e)) (ground (arith, ==_refl (entry kpd i)))
        | inr e ↦ ground (arith, r.dirs d)
      ]

      earlier :
          (d j : ℕ)
          → d < i
          → j < 1024
          → t.mem (entry (kernel_table kpt d) j) ≡ s.mem (entry (kernel_table kpt d) j)
      earlier d j hd hj =
          x.outside (entry (kernel_table kpt d) j) (inl (omega arith))
          ∙ ground (arith, dir_apart i d j)

      tables :
          (d j : ℕ)
          → d < suc i
          → j < 1024
          → t.mem (entry (kernel_table kpt d) j) ≡ make_entry (d * 2 ^ 22 + j * 2 ^ 12) 3
      tables d j hd hj = elim (Bool-cases (d == i)) [
        | inl e ↦
            subst
              (λ z. t.mem (entry (kernel_table kpt z) j) ≡ make_entry (z * 2 ^ 22 + j * 2 ^ 12) 3)
              (sym ((==_iff d i).0 e)) (x.inside j (omega arith) (omega arith))
        | inr e ↦ earlier d j (ground arith) hj ∙ r.tables d j (ground arith) hj
      ]

  is_kernel-dir : (i : ℕ) → i < 32 → is_kernel (entry kpd i) ≡ true
  is_kernel-dir i h = ground (arith, pl.kpd_low, pl.kpd_high)

  go :
      (n i : ℕ) (s : Vm)
      → i + n ≡ 32
      → IsIdentity s.mem kpd kpt i
      → (t : Vm) × (for_range n i
            (λ i. store (entry kpd i) (make_entry (kernel_table kpt i) 3) >> map_table kpt i)
            s
          ≡ some (tt, t))
        × IsIdentity t.mem kpd kpt 32
  unfolding for_range
  go zero i s e r = (s, refl, subst (IsIdentity s.mem kpd kpt) {x = i} {y = 32} (omega arith) r)
  go (suc n) i s e r =
      let (u, e', x) = map_table-fill kpt i (with_dir i s) pl.kpt_low (omega arith) pl.kpt_high in
      let (t, e'', y) = go n (suc i) u (omega arith) (one_more i s u (omega arith) r x) in
      (
        t,
        bind-eq (store (entry kpd i) (make_entry (kernel_table kpt i) 3) >> map_table kpt i) _ s u
              tt
              (bind-eq (store (entry kpd i) (make_entry (kernel_table kpt i) 3)) _ s (with_dir i s)
                  tt (store_one s _ _ (is_kernel-dir i (omega arith)))
                ∙ e')
            ∙ e'',
        y,
      )

  pub map_kernel-IsIdentity :
      (s : Vm) → (t : Vm) × (map_kernel kpd kpt s ≡ some (tt, t)) × IsIdentity t.mem kpd kpt 32
  unfolding map_kernel
  map_kernel-IsIdentity s =
      go 32 0 s refl
        (record { dirs = λ d h. absurd (omega arith); tables = λ d j h _. absurd (omega arith) })
