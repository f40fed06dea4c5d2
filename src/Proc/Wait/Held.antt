-- ===== src/Proc/Wait/Held.antt =====
-- kernel/src/proc.c, `proc_makezombie`: what it leaves to every process up to its closings.
use tiny_os_qemu.Base.{
  ℕ, ◌+◌, ◌||◌, ◌==◌, ◌≡◌, refl, Option, none, some, List, [], ◌∷◌, arith, Bool-cases, inl, inr,
}
use mathlib.Core.Path.{subst}
use tiny_os_qemu.Proc.State.{Kernel, Proc, Status, set_status, is_negative, inc}
use tiny_os_qemu.Proc.Down.{raise}
use tiny_os_qemu.Proc.Sem.{SemRef, sem_v, dequeue_ready, put_sem, get_sem}
use tiny_os_qemu.Proc.Table.{orphan, wake_parent}

-- What a process holds, and its exit code.
pub record Held : Type 0 where
  pub pgdir : ℕ
  pub kstack : ℕ
  pub files : ℕ → Option ℕ
  pub cwd : Option ℕ
  pub exit_code : ℕ

abbrev pub hold : Proc → Held
hold p = record {
  pgdir = p.pgdir;
  kstack = p.kstack;
  files = p.files;
  cwd = p.cwd;
  exit_code = p.exit_code;
}

-- Every process of `t` holds what it held in `k`, and none is a new zombie.
pub record SameHeld {S : Type 0} (k t : Kernel S) : Type 0 where
  pub rest : t.rest ≡ k.rest
  pub held : (z : ℕ) → hold (t.pcb z) ≡ hold (k.pcb z)
  pub zombie : (z : ℕ) → (t.pcb z).status ≡ Status.zombie → (k.pcb z).status ≡ Status.zombie

module _ {S : Type 0} where
  abbrev done : Option (Kernel S) → Option (Unit {0} × Kernel S)
  done o = elim o [ none ↦ none | some u ↦ some (tt, u) ]

  abbrev told : Kernel S → Option ℕ → Option (Unit {0} × Kernel S)
  told k p = elim p [ none ↦ some (tt, k) | some q ↦ done (sem_v (SemRef.zombie_of q) k) ]

  abbrev Within : Kernel S → Option (Kernel S) → Type 0
  Within k none = Unit {0}
  Within k (some t) = SameHeld k t

  dequeue_ready-Within :
      (q : ℕ) (k t : Kernel S) → SameHeld k t → Within k (dequeue_ready (SemRef.zombie_of q) t)
  unfolding dequeue_ready
  dequeue_ready-Within q k t s = go (get_sem (SemRef.zombie_of q) t).wait_list
    where
      go :
          (l : List ℕ)
          → Within k (elim l [
            | [] ↦ none
            | p ∷ l ↦ some (
                set_status p Status.ready (
                  put_sem
                    (SemRef.zombie_of q)
                    (record (get_sem (SemRef.zombie_of q) t) { wait_list = l })
                    (record t { free_nodes = t.free_nodes + 1 })))
          ])
      go [] = tt
      go (p ∷ l) = record {
        rest = s.rest;
        held = λ z. ground (arith, s.held z);
        zombie = λ z e. s.zombie z (ground arith);
      }

  raised-SameHeld : (q : ℕ) (k : Kernel S) → SameHeld k (raise (SemRef.zombie_of q) k)
  raised-SameHeld q k = record {
    rest = refl;
    held = λ z. ground arith;
    zombie = λ z e. ground arith;
  }

  sem_v-Within : (q : ℕ) (k : Kernel S) → Within k (sem_v (SemRef.zombie_of q) k)
  unfolding sem_v
  sem_v-Within q k =
      elim (Bool-cases
        (is_negative (inc (k.pcb q).zombie_sem.value) || inc (k.pcb q).zombie_sem.value == 0)) [
          | inl e ↦
              rw e (dequeue_ready-Within q k (raise (SemRef.zombie_of q) k) (raised-SameHeld q k))
          | inr e ↦ rw e (raised-SameHeld q k)
        ]

  -- Behind `wake_parent` and the loop over the children.
  pub gone-SameHeld :
      (c : ℕ) (k t : Kernel S) → wake_parent c k ≡ some (tt, t) → SameHeld k (orphan c t)
  unfolding wake_parent orphan
  gone-SameHeld c k t e = go (k.pcb c).parent e
    where
      after : (u : Kernel S) → SameHeld k u → u ≡ t → SameHeld k (orphan c t)
      after u s q =
          subst (λ x. SameHeld k (orphan c x)) q
            (record {
              rest = s.rest;
              held = λ z. ground (arith, s.held z);
              zombie = λ z x. s.zombie z (ground arith);
            })

      up : (o : Option (Kernel S)) → Within k o → done o ≡ some (tt, t) → SameHeld k (orphan c t)
      up none s x = absurd (cc)
      up (some u) s x = after u s (cc)

      go : (p : Option ℕ) → told k p ≡ some (tt, t) → SameHeld k (orphan c t)
      go none x = after k (record { rest = refl; held = λ z. refl; zombie = λ z y. y }) (cc)
      go (some q) x = up (sem_v (SemRef.zombie_of q) k) (sem_v-Within q k) x
