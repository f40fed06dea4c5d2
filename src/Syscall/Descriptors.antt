-- ===== src/Syscall/Descriptors.antt =====
-- kernel/src/syscall.c: the file descriptors that the system calls hand out.
use tiny_os_qemu.Base.{
  ℕ, zero, suc, ◌+◌, ◌-◌, ◌^◌, ◌<◌, ◌≤◌, ◌≡◌, ◌≢◌, refl, Option, none, some, List, Bytes, ◌==◌,
  if◌then◌else◌, arith, ap, sym, ◌∙◌, ◌⊎◌, inl, inr, Option-cases, Bool-cases, ==_refl, ==_iff,
  lt→ltb,
}
use mathlib.Core.Path.{subst}
use tiny_os_qemu.Base.Exec.{Exec, Post, ◌>>=◌, bind-eq}
use tiny_os_qemu.Proc.State.{Kernel, Proc, call, minus_one, max_ufile, inc}
use tiny_os_qemu.Proc.Table.{find_null, proc_getfile, proc_allocfile}
use tiny_os_qemu.File
use tiny_os_qemu.File.{Files, fopen, fdup, fclose}
use tiny_os_qemu.File.Table.{fclose-fdup}
use tiny_os_qemu.Syscall.{Reply, current, sys_dup, sys_close}
use tiny_os_qemu.Syscall.Machine.{Machine, services, on_files}
use tiny_os_qemu.Syscall.Files.{sys_open, in_files, set_fd}

-- The lowest place that is NULL.
pub record IsLowest (f : ℕ → Option ℕ) (n : ℕ) : Type 0 where
  pub lt : n < max_ufile
  pub free : f n ≡ none
  pub lower : (i : ℕ) → i < n → f i ≢ none

not_some : {a : ℕ} {o : Option ℕ} → o ≡ some a → o ≢ none
not_some e q = cc

find_null-some :
    (n i m : ℕ) (f : ℕ → Option ℕ)
    → find_null n i f ≡ some m
    → (m < i + n) × (f m ≡ none) × ((j : ℕ) → i ≤ j → j < m → f j ≢ none)
unfolding find_null
find_null-some zero i m f h = cc
find_null-some (suc n) i m f h = elim (Option-cases (f i)) [
  | inl e ↦
      let at : i ≡ m = ground (arith, h, e) in
      (omega arith, subst (λ x. f x ≡ none) at e, λ j a b. absurd (omega arith))
  | inr (c, e) ↦
      let (a, b, d) = find_null-some n (suc i) m f (ground (arith, h, e)) in
      (
        omega arith,
        b,
        λ j lo hi. elim (Bool-cases (i == j)) [
          | inl q ↦ subst (λ x. f x ≢ none) ((==_iff i j).0 q) (not_some e)
          | inr q ↦ d j (ground arith) hi
        ],
      )
]

find_null-none :
    (n i j : ℕ) (f : ℕ → Option ℕ) → find_null n i f ≡ none → i ≤ j → j < i + n → f j ≢ none
unfolding find_null
find_null-none zero i j f h lo hi = absurd (omega arith)
find_null-none (suc n) i j f h lo hi = elim (Option-cases (f i)) [
  | inl e ↦ absurd (ground (arith, h, e))
  | inr (c, e) ↦ elim (Bool-cases (i == j)) [
    | inl q ↦ subst (λ x. f x ≢ none) ((==_iff i j).0 q) (not_some e)
    | inr q ↦ find_null-none n (suc i) j f (ground (arith, h, e)) (ground arith) (omega arith)
  ]
]

pub proc_allocfile-IsLowest : (p : Proc) (n : ℕ) → proc_allocfile p ≡ some n → IsLowest p.files n
unfolding proc_allocfile
proc_allocfile-IsLowest p n h =
    let (a, b, c) = find_null-some max_ufile 0 n p.files h in
    record { lt = a; free = b; lower = λ i lt. c i (omega arith) lt }

pub proc_allocfile-none :
    (p : Proc) (j : ℕ) → proc_allocfile p ≡ none → j < max_ufile → p.files j ≢ none
unfolding proc_allocfile
proc_allocfile-none p j h lt = find_null-none max_ufile 0 j p.files h (omega arith) (omega arith)

-- The kernel with the open files `s`.
abbrev pub with_files : Files → Kernel Machine → Kernel Machine
with_files s k = record k { rest = record k.rest { opened = s } }

in_files-eq :
    {A : Type 0} (m : Exec Files A) (a : A) (s : Files) (k : Kernel Machine)
    → m k.rest.opened ≡ some (a, s)
    → in_files m k ≡ some (a, with_files s k)
in_files-eq m a s k e = rw (e, in_files, call, on_files) refl

in_files-none :
    {A : Type 0} (m : Exec Files A) (k : Kernel Machine)
    → m k.rest.opened ≡ none
    → in_files m k ≡ none
in_files-none m k e = rw (e, in_files, call, on_files) refl

-- What `sys_open` comes to with descriptor `n`, after what `fopen` came to.
abbrev pub Opens :
    Kernel Machine → ℕ → Option (Option ℕ × Files) → Option (Reply × Kernel Machine) → Type 0
Opens k n none r = r ≡ none
Opens k n (some (none, s)) r = r ≡ some (Reply.returned minus_one, with_files s k)
Opens k n (some (some f, s)) r = r ≡ some (Reply.returned n, set_fd n (some f) (with_files s k))

open_full :
    (junk : Bytes) (path : List ℕ) (mode : ℕ) (k : Kernel Machine)
    → proc_allocfile (current k) ≡ none
    → sys_open junk path mode k ≡ some (Reply.returned minus_one, k)
unfolding sys_open
open_full junk path mode k e = rw (e, sys_open) refl

open_at :
    (junk : Bytes) (path : List ℕ) (mode n : ℕ) (k : Kernel Machine)
    → proc_allocfile (current k) ≡ some n
    → (o : Option (Option ℕ × Files)) → fopen junk (current k).cwd path mode k.rest.opened ≡ o
    → Opens k n o (sys_open junk path mode k)
unfolding sys_open
open_at junk path mode n k e none h =
    rw (e, sys_open) (rw (in_files-none (fopen junk (current k).cwd path mode) k h, ◌>>=◌) refl)
open_at junk path mode n k e (some (none, s)) h =
    rw (e, sys_open)
      (bind-eq (in_files (fopen junk (current k).cwd path mode)) _ k (with_files s k) none
        (in_files-eq (fopen junk (current k).cwd path mode) none s k h))
open_at junk path mode n k e (some (some f, s)) h =
    rw (e, sys_open)
      (bind-eq (in_files (fopen junk (current k).cwd path mode)) _ k (with_files s k) (some f)
        (in_files-eq (fopen junk (current k).cwd path mode) (some f) s k h))

-- When the process has no free descriptor, `sys_open` returns -1 and changes nothing. Otherwise it
-- opens the file, and returns the lowest free descriptor, below 32, which then refers to it; when
-- the file cannot be opened, it returns -1 and no descriptor changes; where `fopen` aborts, so does
-- `sys_open`.
pub sys_open-Opens :
    (junk : Bytes) (path : List ℕ) (mode : ℕ) (k : Kernel Machine)
    → (((j : ℕ) → j < max_ufile → (current k).files j ≢ none)
        × (sys_open junk path mode k ≡ some (Reply.returned minus_one, k)))
      ⊎ ((n : ℕ) × IsLowest (current k).files n
          × Opens k n
              (fopen junk (current k).cwd path mode k.rest.opened)
              (sys_open junk path mode k))
sys_open-Opens junk path mode k = elim (Option-cases (proc_allocfile (current k))) [
  | inl e ↦ inl ((λ j h. proc_allocfile-none (current k) j e h), open_full junk path mode k e)
  | inr (n, e) ↦
      inr (n, proc_allocfile-IsLowest (current k) n e, open_at junk path mode n k e _ refl)
]

get-lt : (p : Proc) (n f : ℕ) → n < max_ufile → p.files n ≡ some f → proc_getfile p n ≡ some f
unfolding proc_getfile
get-lt p n f h e = rw (lt→ltb n max_ufile h) e

dup-eq :
    (kpt fd n f : ℕ) (k : Kernel Machine) (s : Files)
    → proc_allocfile (current k) ≡ some n
    → proc_getfile (current k) fd ≡ some f
    → fdup f k.rest.opened ≡ some (f, s)
    → sys_dup (services kpt) fd k ≡ some (Reply.returned n, set_fd n (some f) (with_files s k))
unfolding sys_dup
dup-eq kpt fd n f k s a g e =
    rw (a, sys_dup)
      (rw g (bind-eq (in_files (fdup f)) _ k (with_files s k) f (in_files-eq (fdup f) f s k e)))

close-eq :
    (kpt n f : ℕ) (k : Kernel Machine) (s : Files)
    → proc_getfile (current k) n ≡ some f
    → fclose f k.rest.opened ≡ some (tt, s)
    → sys_close (services kpt) n k ≡ some (Reply.returned 0, set_fd n none (with_files s k))
unfolding sys_close
close-eq kpt n f k s g e =
    rw (g, sys_close)
      (bind-eq (in_files (fclose f)) _ k (with_files s k) tt (in_files-eq (fclose f) tt s k e))

Post-some :
    {A : Type 0} (P : A → Files → Type 0) (o : Option (A × Files))
    → Post P o
    → (a : A) × (t : Files) × (o ≡ some (a, t)) × P a t
Post-some P none p = absurd p
Post-some P (some (a, t)) p = (a, t, refl, p)

files-set_fd :
    (n : ℕ) (f : Option ℕ) (k : Kernel Machine) (i : ℕ)
    → (current (set_fd n f k)).files i ≡ (if n == i then f else (current k).files i)
files-set_fd n f k i = ground (arith, ==_refl k.curr)

-- If descriptor `fd` refers to an open file with fewer than 2 ^ 32 - 1 references and some descriptor
-- is free, then `sys_dup` returns the lowest free one, which then refers to the same file, and
-- `sys_close` of it leaves the descriptors, the open files and the file system as they were.
pub sys_close-sys_dup :
    (kpt fd f j : ℕ) (k : Kernel Machine)
    → proc_getfile (current k) fd ≡ some f
    → (k.rest.opened.files f).ref ≢ 0
    → (k.rest.opened.files f).ref < 2 ^ 32 - 1
    → j < max_ufile
    → (current k).files j ≡ none
    → (n : ℕ) × (t : Kernel Machine) × (u : Kernel Machine) × IsLowest (current k).files n
      × (sys_dup (services kpt) fd k ≡ some (Reply.returned n, t))
      × ((current t).files n ≡ some f)
      × (sys_close (services kpt) n t ≡ some (Reply.returned 0, u))
      × ((i : ℕ) → (current u).files i ≡ (current k).files i)
      × ((g : ℕ) → u.rest.opened.files g ≡ k.rest.opened.files g)
      × (u.rest.opened.fs ≡ k.rest.opened.fs)
unfolding fdup
sys_close-sys_dup kpt fd f j k got pos small lt free =
    elim (Option-cases (proc_allocfile (current k))) [
      | inl e ↦ absurd (proc_allocfile-none (current k) j e lt free)
      | inr (n, e) ↦
          let low = proc_allocfile-IsLowest (current k) n e in
          let s =
            File.set_file f
              (record (k.rest.opened.files f) { ref = inc (k.rest.opened.files f).ref })
              k.rest.opened in
          let t = set_fd n (some f) (with_files s k) in
          let (a, s', r, (same, fs)) =
            Post-some _ (fclose f s) (fclose-fdup f k.rest.opened pos small) in
          let at : (current t).files n ≡ some f =
            files-set_fd n (some f) (with_files s k) n ∙ rw (==_refl n) refl in
          (
            n,
            t,
            set_fd n none (with_files s' t),
            low,
            dup-eq kpt fd n f k s e got refl,
            at,
            close-eq kpt n f t s' (get-lt (current t) n f low.lt at) r,
            (λ i. files-set_fd n none (with_files s' t) i ∙ elim (Bool-cases (n == i)) [
              | inl q ↦ rw q (sym low.free ∙ ap (current k).files ((==_iff n i).0 q))
              | inr q ↦ rw q (files-set_fd n (some f) (with_files s k) i ∙ rw q refl)
            ]),
            same,
            fs,
          )
    ]
