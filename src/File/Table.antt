-- ===== src/File/Table.antt =====
-- kernel/src/file.c: references in the table of open files.
use tiny_os_qemu.Base.{
  ℕ, zero, suc, ◌+◌, ◌-◌, ◌^◌, ◌<◌, ◌≡◌, ◌≢◌, refl, false, none, some, arith, sym, ◌==◌, Bool-cases,
  Option-cases, inl, inr, ◌⊎◌, ==_refl,
}
use mathlib.Core.Path.{subst}
use tiny_os_qemu.Base.Exec.{Post, ◌>>=◌}
use tiny_os_qemu.Proc.State.{inc, dec}
use tiny_os_qemu.Fs.State.{type_none}
use tiny_os_qemu.File.{
  File, Files, find_file, falloc, fclose, fdup, set_file, total_file, total_file,
}

find_file-some :
    (n i m : ℕ) (f : ℕ → File) → find_file n i f ≡ some m → ((f m).ref ≡ 0) × (m < i + n)
unfolding find_file
find_file-some zero i m f h = cc
find_file-some (suc n) i m f h = elim (Bool-cases ((f i).ref == 0)) [
  | inl e ↦ ground arith
  | inr e ↦ ground (arith, find_file-some n (suc i) m f)
]

find_file-none : (n i j : ℕ) (f : ℕ → File) → find_file n i f ≡ none → j < n → (f (i + j)).ref ≢ 0
unfolding find_file
find_file-none zero i j f h hj = absurd (omega arith)
find_file-none (suc n) i zero f h hj =
    subst (λ x. (f x).ref ≢ 0) {x = i} {y = i + 0} (omega arith) (ground arith)
find_file-none (suc n) i (suc j) f h hj =
    subst (λ x. (f x).ref ≢ 0) {x = suc i + j} {y = i + suc j} (omega arith)
      (find_file-none n (suc i) j f (ground arith) (omega arith))

falloc-some :
    (s : Files) (f : ℕ)
    → find_file total_file 0 s.files ≡ some f
    → falloc s ≡ some (some f, set_file f (record (s.files f) { ref = 1; type_of = type_none }) s)
unfolding falloc
falloc-some s f e = rw (e, falloc) refl

falloc-none : (s : Files) → find_file total_file 0 s.files ≡ none → falloc s ≡ some (none, s)
unfolding falloc
falloc-none s e = rw (e, falloc) refl

-- `falloc` takes an entry without a reference, gives it one, and changes no other entry and nothing
-- of the file system; only when every entry has a reference it returns NULL, with nothing changed.
pub falloc-cases :
    (s : Files)
    → ((f : ℕ) × (f < total_file)
        × ((s.files f).ref ≡ 0)
        × (falloc s
            ≡ some (some f, set_file f (record (s.files f) { ref = 1; type_of = type_none }) s)))
      ⊎ (((j : ℕ) → j < total_file → (s.files j).ref ≢ 0) × (falloc s ≡ some (none, s)))
falloc-cases s = elim (Option-cases (find_file total_file 0 s.files)) [
  | inl e ↦ inr (
    λ j hj.
        subst (λ x. (s.files x).ref ≢ 0) {x = 0 + j} {y = j} (omega arith)
          (find_file-none total_file 0 j s.files e hj),
    falloc-none s e,
  )
  | inr (f, e) ↦
      let (free, lt) = find_file-some total_file 0 f s.files e in
      inl (f, omega arith, free, falloc-some s f e)
]

-- The entry with another number of references.
abbrev pub counted : ℕ → ℕ → Files → Files
counted f r s = set_file f (record (s.files f) { ref = r }) s

still_open : (f r : ℕ) (s : Files) → r ≢ 0 → (((counted f r s).files f).ref == 0) ≡ false
still_open f r s h = ground (arith, ==_refl f)

fclose-eq :
    (f : ℕ) (s : Files)
    → dec (s.files f).ref ≢ 0
    → fclose f s ≡ some (tt, counted f (dec (s.files f).ref) s)
unfolding fclose
fclose-eq f s h = rw (still_open f (dec (s.files f).ref) s h) refl

inc_ref :
    (f : ℕ) (s : Files)
    → (s.files f).ref ≢ 0
    → (s.files f).ref < 2 ^ 32 - 1
    → dec ((counted f (inc (s.files f).ref) s).files f).ref ≡ (s.files f).ref
inc_ref f s h k = ground (arith, ==_refl f)

recounted :
    (f r j : ℕ) (s : Files)
    → r ≡ (s.files f).ref
    → (counted f r (counted f (inc (s.files f).ref) s)).files j ≡ s.files j
recounted f r j s e = ground (arith, ==_refl f)

-- If an open file has references, fewer than 2 ^ 32 - 1, then `fdup` and `fclose` of
-- the result succeed and leave the table of open files and the file system as they were: the inode
-- is not closed.
pub fclose-fdup :
    (f : ℕ) (s : Files)
    → (s.files f).ref ≢ 0
    → (s.files f).ref < 2 ^ 32 - 1
    → Post (λ _ t. ((j : ℕ) → t.files j ≡ s.files j) × (t.fs ≡ s.fs)) ((fdup f >>= fclose) s)
unfolding fdup
fclose-fdup f s h k =
    let e = inc_ref f s h k in
    rw (fclose-eq f (counted f (inc (s.files f).ref) s) (subst (λ r. r ≢ 0) (sym e) h))
      (λ j. recounted f _ j s e, refl)
