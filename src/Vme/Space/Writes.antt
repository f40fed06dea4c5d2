-- ===== src/Vme/Space/Writes.antt =====
-- kernel/src/vme.c: how the writes to a directory and its tables change the map they stand for.
use tiny_os_qemu.Base.{
  ℕ, ◌/◌, ◌%◌, ◌^◌, ◌<◌, ◌≡◌, ◌≢◌, true, false, List, ◌∷◌, update, ◌==◌, ==_refl, ==_iff, arith,
  sym, ap, ◌∙◌, Bool-cases, inl, inr,
}
use mathlib.Core.Path.{subst}
use tiny_os_qemu.Vme.{or_prot, is_present, frame, entry, addr_to_dir, addr_to_tbl, zero_page}
use tiny_os_qemu.Vme.Space.{
  lookup, IsSpace, Alike, IsSpace-Alike, lookup-Alike, frame-or_prot, is_present-or_prot, dir_lt,
}

pub update_same : (m : ℕ → ℕ) (a v : ℕ) → update m a v a ≡ v
update_same m a v = ground (arith, ==_refl a)

pub update_other : (m : ℕ → ℕ) (a v b : ℕ) → a ≢ b → update m a v b ≡ m b
update_other m a v b h = ground arith

-- Two pages have no entry in common.
pub entry_apart :
    (p q i j : ℕ)
    → p % 4096 ≡ 0
    → q % 4096 ≡ 0
    → p ≢ q
    → i < 1024
    → j < 1024
    → entry p i ≢ entry q j
entry_apart p q i j hp hq ne hi hj e = ne (omega arith)

pub entry_inj : (p i j : ℕ) → entry p i ≡ entry p j → i ≡ j
entry_inj p i j e = omega arith

pub entry_other_page :
    (m : ℕ → ℕ) (q p i : ℕ)
    → q % 4096 ≡ 0
    → p % 4096 ≡ 0
    → p ≢ q
    → i < 1024
    → zero_page q m (entry p i) ≡ m (entry p i)
entry_other_page m q p i hq hp ne hi = ground arith

pub tbl_lt : (va : ℕ) → addr_to_tbl va < 1024
tbl_lt va = omega arith

pub frame_aligned : (e : ℕ) → frame e % 4096 ≡ 0
frame_aligned e = omega arith

Alike-same :
    (m u : ℕ → ℕ) (pgdir : ℕ)
    → ((i : ℕ) → i < 1024 → u (entry pgdir i) ≡ m (entry pgdir i))
    → Alike m u pgdir
Alike-same m u pgdir h i hi = (ap is_present (h i hi), ap frame (h i hi))

page_apart :
    (va vb : ℕ)
    → va / 4096 ≢ vb / 4096
    → addr_to_dir va ≡ addr_to_dir vb
    → addr_to_tbl va ≢ addr_to_tbl vb
page_apart va vb ne d t = ne (omega arith)

pub differ : {a b : ℕ} → (a == b) ≡ false → a ≢ b
differ e x = ground arith

-- A free page is taken and filled with zeros.
module _ (m : ℕ → ℕ) (pgdir q : ℕ) (qs : List ℕ) (hq : q % 4096 ≡ 0)
    (w : IsSpace m pgdir (q ∷ qs)) where
  zero-Alike : Alike m (zero_page q m) pgdir
  zero-Alike =
      Alike-same m (zero_page q m) pgdir
        (λ i hi. entry_other_page m q pgdir i hq w.aligned (λ e. w.unfree.0 (sym e)) hi)

  pub zero-IsSpace : IsSpace (zero_page q m) pgdir qs
  zero-IsSpace = IsSpace-Alike m (zero_page q m) pgdir (q ∷ qs) qs zero-Alike (λ P a. a.1) w

  pub zero-lookup : (va : ℕ) → va < 2 ^ 32 → lookup (zero_page q m) pgdir va ≡ lookup m pgdir va
  zero-lookup va h = lookup-Alike m (zero_page q m) pgdir va zero-Alike h (λ p.
      let e = m (entry pgdir (addr_to_dir va)) in
      let (lo, hi, ne, fr) = w.table (addr_to_dir va) (dir_lt va h) p in
      entry_other_page m q (frame e) (addr_to_tbl va) hq (frame_aligned e) (λ x. fr.0 (sym x))
        (tbl_lt va))

-- A write to the entry for `va` in its table.
module _ (m : ℕ → ℕ) (pgdir : ℕ) (fs : List ℕ) (w : IsSpace m pgdir fs) (va v : ℕ) (h : va < 2 ^ 32)
    (pres : is_present (m (entry pgdir (addr_to_dir va))) ≡ true) where
  abbrev leaf : ℕ
  leaf = entry (frame (m (entry pgdir (addr_to_dir va)))) (addr_to_tbl va)

  leaf-Alike : Alike m (update m leaf v) pgdir
  leaf-Alike =
      let (lo, hi, ne, fr) = w.table (addr_to_dir va) (dir_lt va h) pres in
      Alike-same m (update m leaf v) pgdir (λ i hi. update_other m leaf v (entry pgdir i) (
        entry_apart (frame (m (entry pgdir (addr_to_dir va)))) pgdir (addr_to_tbl va) i
          (frame_aligned (m (entry pgdir (addr_to_dir va)))) w.aligned ne (tbl_lt va) hi))

  pub leaf-IsSpace : IsSpace (update m leaf v) pgdir fs
  leaf-IsSpace = IsSpace-Alike m (update m leaf v) pgdir fs fs leaf-Alike (λ P a. a) w

  pub leaf-lookup : lookup (update m leaf v) pgdir va ≡ v
  leaf-lookup =
      let (p, f) = leaf-Alike (addr_to_dir va) (dir_lt va h) in
      rw (p ∙ pres) (ap (λ x. update m leaf v (entry x (addr_to_tbl va))) f ∙ update_same m leaf v)

  pub leaf-lookup_other :
      (vb : ℕ)
      → vb < 2 ^ 32
      → vb / 4096 ≢ va / 4096
      → lookup (update m leaf v) pgdir vb ≡ lookup m pgdir vb
  leaf-lookup_other vb hb ne =
      lookup-Alike m (update m leaf v) pgdir vb leaf-Alike hb
        (λ p. update_other m leaf v _ (apart_leaf p))
    where
      apart_leaf :
          is_present (m (entry pgdir (addr_to_dir vb))) ≡ true
          → leaf ≢ entry (frame (m (entry pgdir (addr_to_dir vb)))) (addr_to_tbl vb)
      apart_leaf p = elim (Bool-cases (addr_to_dir va == addr_to_dir vb)) [
        | inl e ↦ λ q.
            page_apart va vb (λ x. ne (sym x)) ((==_iff (addr_to_dir va) (addr_to_dir vb)).0 e)
              (entry_inj (frame (m (entry pgdir (addr_to_dir va)))) (addr_to_tbl va)
                (addr_to_tbl vb)
                (q
                  ∙ ap (λ d. entry (frame (m (entry pgdir d))) (addr_to_tbl vb))
                      (sym ((==_iff (addr_to_dir va) (addr_to_dir vb)).0 e))))
        | inr e ↦
            entry_apart (frame (m (entry pgdir (addr_to_dir va))))
              (frame (m (entry pgdir (addr_to_dir vb)))) (addr_to_tbl va) (addr_to_tbl vb)
              (frame_aligned (m (entry pgdir (addr_to_dir va))))
              (frame_aligned (m (entry pgdir (addr_to_dir vb))))
              (w.apart (addr_to_dir va) (addr_to_dir vb) (dir_lt va h) (dir_lt vb hb)
                (λ x. differ e x) pres p)
              (tbl_lt va) (tbl_lt vb)
      ]

-- More protection bits in the directory entry of a table.
module _ (m : ℕ → ℕ) (pgdir : ℕ) (fs : List ℕ) (w : IsSpace m pgdir fs) (d prot : ℕ) (hd : d < 1024)
    (hp : prot < 8) (pres : is_present (m (entry pgdir d)) ≡ true) where
  abbrev more : ℕ → ℕ
  more = update m (entry pgdir d) (or_prot (m (entry pgdir d)) prot)

  more-Alike : Alike m more pgdir
  more-Alike i hi = elim (Bool-cases (d == i)) [
    | inl e ↦
        subst
          (λ x.
            (is_present (more (entry pgdir x)) ≡ is_present (m (entry pgdir x)))
            × (frame (more (entry pgdir x)) ≡ frame (m (entry pgdir x))))
          ((==_iff d i).0 e)
          (
            ap is_present here
                ∙ is_present-or_prot (m (entry pgdir d)) prot (ground arith)
                ∙ sym pres,
            ap frame here ∙ frame-or_prot (m (entry pgdir d)) prot hp,
          )
    | inr e ↦ (ap is_present (there i e), ap frame (there i e))
  ]
    where
      here : more (entry pgdir d) ≡ or_prot (m (entry pgdir d)) prot
      here = update_same m (entry pgdir d) (or_prot (m (entry pgdir d)) prot)

      there : (i : ℕ) → (d == i) ≡ false → more (entry pgdir i) ≡ m (entry pgdir i)
      there i e =
          update_other m (entry pgdir d) (or_prot (m (entry pgdir d)) prot) (entry pgdir i)
            (λ q. differ e (entry_inj pgdir d i q))

  pub more-IsSpace : IsSpace more pgdir fs
  more-IsSpace = IsSpace-Alike m more pgdir fs fs more-Alike (λ P a. a) w

  pub more-lookup : (va : ℕ) → va < 2 ^ 32 → lookup more pgdir va ≡ lookup m pgdir va
  more-lookup va h = lookup-Alike m more pgdir va more-Alike h (λ p.
      let (lo, hi, ne, fr) = w.table (addr_to_dir va) (dir_lt va h) p in
      update_other m (entry pgdir d) (or_prot (m (entry pgdir d)) prot) _ (
        entry_apart pgdir (frame (m (entry pgdir (addr_to_dir va)))) d (addr_to_tbl va) w.aligned
          (frame_aligned (m (entry pgdir (addr_to_dir va)))) (λ x. ne (sym x)) hd (tbl_lt va)))
