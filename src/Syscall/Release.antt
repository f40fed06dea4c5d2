-- ===== src/Syscall/Release.antt =====
-- kernel/src/proc.c, the closings of `proc_makezombie`: what a process gives back.
use tiny_os_qemu.Base.{
  ℕ, zero, suc, ◌≡◌, refl, none, some, Option, sym, ap, ◌∙◌, Option-cases, inl, inr,
}
use mathlib.Core.Path.{subst}
use tiny_os_qemu.Base.Exec.{Exec, Post, ◌>>◌, pure, for_range}
use tiny_os_qemu.Proc.State.{Kernel, Services, max_ufile}
use tiny_os_qemu.Proc.Table.{close_file, close_cwd}
use tiny_os_qemu.Proc.Wait.Held.{Held, hold}

module _ {S : Type 0} where
  -- What the process gives back of its files: the descriptors in their order, then its directory.
  unfoldable pub release_file : Services S → Held → ℕ → Exec S (Unit {0})
  release_file v p n = elim (p.files n) [ none ↦ pure tt | some f ↦ v.fclose f ]

  unfoldable pub release_cwd : Services S → Held → Exec S (Unit {0})
  release_cwd v p s = elim p.cwd [ none ↦ some (tt, s) | some c ↦ v.iclose c s ]

  abbrev pub release : Services S → Held → Exec S (Unit {0})
  release v p = for_range max_ufile 0 (release_file v p) >> release_cwd v p

  -- The kernel's state around what the services come to.
  abbrev pub around : Kernel S → Option (Unit {0} × S) → Option (Unit {0} × Kernel S)
  around t o = elim o [ none ↦ none | some (a, s) ↦ some (a, record t { rest = s }) ]

  close_file-eq :
      (v : Services S) (i j : ℕ) (t : Kernel S)
      → close_file v i j t ≡ around t (release_file v (hold (t.pcb i)) j t.rest)
  unfolding close_file release_file
  close_file-eq v i j t = elim (Option-cases ((t.pcb i).files j)) [
    | inl e ↦ rw (e, close_file, release_file) refl
    | inr (f, e) ↦ rw (e, close_file, release_file) refl
  ]

  close_files-eq :
      (v : Services S) (i n j : ℕ) (t : Kernel S)
      → for_range n j (close_file v i) t
        ≡ around t (for_range n j (release_file v (hold (t.pcb i))) t.rest)
  unfolding for_range
  close_files-eq v i zero j t = refl
  close_files-eq v i (suc n) j t =
      ap
        (λ (o : Option (Unit {0} × Kernel S)). elim o as (λ _. Option (Unit {0} × Kernel S)) [
          | none ↦ none
          | some (a, u) ↦ for_range n (suc j) (close_file v i) u
        ])
        (close_file-eq v i j t)
      ∙ closed (release_file v (hold (t.pcb i)) j t.rest)
          (λ s. close_files-eq v i n (suc j) (record t { rest = s }))
    where
      closed :
          (o : Option (Unit {0} × S))
          → ((s : S)
              → for_range n (suc j) (close_file v i) (record t { rest = s })
                ≡ around t (for_range n (suc j) (release_file v (hold (t.pcb i))) s))
          → elim (around t o) [ none ↦ none | some (a, u) ↦ for_range n (suc j) (close_file v i) u ]
            ≡ around t (elim o [
              | none ↦ none
              | some (a, s) ↦ for_range n (suc j) (release_file v (hold (t.pcb i))) s
            ])
      closed none h = refl
      closed (some (a, s)) h = h s

  close_cwd-eq :
      (v : Services S) (i : ℕ) (t : Kernel S)
      → close_cwd v i t ≡ around t (release_cwd v (hold (t.pcb i)) t.rest)
  unfolding close_cwd release_cwd
  close_cwd-eq v i t = elim (Option-cases (t.pcb i).cwd) [
    | inl e ↦ rw (e, close_cwd, release_cwd) refl
    | inr (c, e) ↦ rw (e, close_cwd, release_cwd) refl
  ]

  -- The closings are what the process gives back, and leave the kernel's own state alone.
  pub closings-eq :
      (v : Services S) (i : ℕ) (t : Kernel S)
      → (for_range max_ufile 0 (close_file v i) >> close_cwd v i) t
        ≡ around t (release v (hold (t.pcb i)) t.rest)
  closings-eq v i t =
      ap
        (λ (o : Option (Unit {0} × Kernel S)). elim o as (λ _. Option (Unit {0} × Kernel S)) [
          | none ↦ none
          | some (a, u) ↦ close_cwd v i u
        ])
        (close_files-eq v i max_ufile 0 t)
      ∙ behind (for_range max_ufile 0 (release_file v (hold (t.pcb i))) t.rest)
    where
      behind :
          (o : Option (Unit {0} × S))
          → (elim (around t o) as (λ _. Option (Unit {0} × Kernel S)) [
            | none ↦ none
            | some (a, u) ↦ close_cwd v i u
          ])
            ≡ around t (elim o as (λ _. Option (Unit {0} × S)) [
              | none ↦ none
              | some (a, s) ↦ release_cwd v (hold (t.pcb i)) s
            ])
      behind none = refl
      behind (some (a, s)) = close_cwd-eq v i (record t { rest = s })

  pub Post-around :
      (F : S → Type 0) (t : Kernel S) (o : Option (Unit {0} × S))
      → Post (λ _. F) o
      → Post (λ _ u. (s : S) × (u ≡ record t { rest = s }) × F s) (around t o)
  Post-around F t none p = absurd p
  Post-around F t (some (a, s)) p = (s, refl, p)

  -- What is given back hangs on the descriptors and the directory alone.
  pub release-same :
      (v : Services S) (F : S → Type 0) (p q : Held) (s t : S)
      → q.files ≡ p.files
      → q.cwd ≡ p.cwd
      → t ≡ s
      → Post (λ _. F) (release v p s)
      → Post (λ _. F) (release v q t)
  unfolding release_file release_cwd
  release-same v F p q s t a b c h =
      subst (λ x. Post (λ _. F) (release v q x)) (sym c)
        (subst (λ x. Post (λ _. F) (release v (record q { files = x }) s)) (sym a)
          (subst (λ x. Post (λ _. F) (release v (record q { files = p.files; cwd = x }) s)) (sym b)
            h))
