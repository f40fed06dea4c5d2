-- ===== src/Str/Copy/Move.antt =====
-- lib/src/string/memmove.c: the bytes arrive as they were, however the areas overlap.
use tiny_os_qemu.Base.{
  ℕ, zero, suc, ◌+◌, ◌<◌, ◌≤◌, ◌≡◌, false, ◌&&◌, ◌⊎◌, inl, inr, Bytes, update, paste, ltb, arith,
  Bool-cases,
}
use tiny_os_qemu.Str.Copy.{memcpy, copy_backwards, memmove}

-- What stands at `a` after `n` bytes have been moved at once.
abbrev pub moved : Bytes → ℕ → ℕ → ℕ → Bytes
moved m dst src n = paste m dst n (λ j. m (src + j))

copy_backwards-moved :
    (m : Bytes) (dst src n a : ℕ) → src < dst → copy_backwards m dst src n a ≡ moved m dst src n a
unfolding copy_backwards
copy_backwards-moved m dst src zero a h = ground arith
copy_backwards-moved m dst src (suc n) a h =
    ground (arith, copy_backwards-moved (update m (dst + n) (m (src + n))) dst src n a h)

memcpy-moved :
    (m : Bytes) (dst src n a : ℕ)
    → (dst ≤ src) ⊎ (src + n ≤ dst)
    → memcpy m dst src n a ≡ moved m dst src n a
unfolding memcpy
memcpy-moved m dst src zero a h = ground arith
memcpy-moved m dst src (suc n) a h =
    ground (arith, h, memcpy-moved (update m dst (m src)) (dst + 1) (src + 1) n a (apart h))
  where
    apart : (dst ≤ src) ⊎ (src + suc n ≤ dst) → (dst + 1 ≤ src + 1) ⊎ (src + 1 + n ≤ dst + 1)
    apart (inl p) = inl (omega arith)
    apart (inr p) = inr (omega arith)

-- However the two areas overlap, `memmove` leaves at the destination the bytes that stood at the
-- source before, and changes nothing else.
pub memmove-moved : (m : Bytes) (dst src n a : ℕ) → memmove m dst src n a ≡ moved m dst src n a
unfolding memmove
memmove-moved m dst src n a = elim (Bool-cases (ltb src dst && ltb dst (src + n))) [
  | inl e ↦ rw e (copy_backwards-moved m dst src n a (ground arith))
  | inr e ↦ rw e (memcpy-moved m dst src n a (forwards e))
]
  where
    forwards : (ltb src dst && ltb dst (src + n)) ≡ false → (dst ≤ src) ⊎ (src + n ≤ dst)
    forwards e = elim (Bool-cases (ltb src dst)) [
      | inl p ↦ inr (ground arith)
      | inr p ↦ inl (ground arith)
    ]
