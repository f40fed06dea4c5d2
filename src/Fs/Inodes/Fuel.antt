-- ===== src/Fs/Inodes/Fuel.antt =====
-- kernel/src/fs.c: the loops of `iread` and `iwrite` end within as many rounds as bytes are left.
use tiny_os_qemu.Base.{
  ℕ, zero, suc, ◌+◌, ◌-◌, ◌<◌, ◌≤◌, ◌≡◌, refl, true, Bytes, paste, arith, ap, sym, ◌∙◌, ◌==◌,
  Bool-cases, inl, inr, fun_ext,
}
use tiny_os_qemu.Base.Exec.{Exec, ◌>>=◌, pure}
use tiny_os_qemu.Disk.{blk_size}
use tiny_os_qemu.Fs.State.{fetch, flush}
use tiny_os_qemu.Fs.Inodes.{iwalk, read_blocks, write_blocks, min}

module _ {S A B : Type 0} where
  bind_ext : (m : Exec S A) (f g : A → Exec S B) → ((a : A) → f a ≡ g a) → (m >>= f) ≡ (m >>= g)
  bind_ext m f g h = ap (λ (k : A → Exec S B). m >>= k) (fun_ext h)

zero_test : (len : ℕ) → len ≤ 0 → (len == 0) ≡ true
zero_test len h = ground arith

read_blocks-done :
    (n i nr blkoff len total : ℕ) (buf : Bytes)
    → len ≤ 0
    → read_blocks n i nr blkoff len total buf ≡ pure (total, buf)
unfolding read_blocks
read_blocks-done zero i nr blkoff len total buf h = rw (zero_test len h) refl
read_blocks-done (suc n) i nr blkoff len total buf h = rw (zero_test len h, read_blocks) refl

-- When a read has `len` bytes left and starts inside a block, any two bounds on the rounds of its
-- loop that are at least `len` give the same outcome.
pub read_blocks-fuel :
    (n m i nr blkoff len total : ℕ) (buf : Bytes)
    → len ≤ n
    → len ≤ m
    → blkoff < blk_size
    → read_blocks n i nr blkoff len total buf ≡ read_blocks m i nr blkoff len total buf
unfolding read_blocks
read_blocks-fuel zero zero i nr blkoff len total buf hn hm hb = refl
read_blocks-fuel zero (suc m) i nr blkoff len total buf hn hm hb =
    read_blocks-done zero i nr blkoff len total buf (omega arith)
    ∙ sym (read_blocks-done (suc m) i nr blkoff len total buf (omega arith))
read_blocks-fuel (suc n) zero i nr blkoff len total buf hn hm hb =
    read_blocks-done (suc n) i nr blkoff len total buf (omega arith)
    ∙ sym (read_blocks-done zero i nr blkoff len total buf (omega arith))
read_blocks-fuel (suc n) (suc m) i nr blkoff len total buf hn hm hb = elim (Bool-cases (len == 0)) [
  | inl e ↦ rw (e, read_blocks) refl
  | inr e ↦
      rw (e, read_blocks)
        (bind_ext (iwalk i nr) _ _ (λ blk.
          bind_ext (fetch (min (blk_size - blkoff) len) blk blkoff) _ _ (λ b.
            read_blocks-fuel n m i (nr + 1) 0 (len - min (blk_size - blkoff) len)
              (total + min (blk_size - blkoff) len)
              (paste buf total (min (blk_size - blkoff) len) b) (ground arith) (ground arith)
              (omega arith))))
]

write_blocks-done :
    (n i nr blkoff len total : ℕ) (buf : Bytes)
    → len ≤ 0
    → write_blocks n i nr blkoff len total buf ≡ pure total
unfolding write_blocks
write_blocks-done zero i nr blkoff len total buf h = rw (zero_test len h) refl
write_blocks-done (suc n) i nr blkoff len total buf h = rw (zero_test len h, write_blocks) refl

-- When a write has `len` bytes left and starts inside a block, any two bounds on the rounds of its
-- loop that are at least `len` give the same outcome.
pub write_blocks-fuel :
    (n m i nr blkoff len total : ℕ) (buf : Bytes)
    → len ≤ n
    → len ≤ m
    → blkoff < blk_size
    → write_blocks n i nr blkoff len total buf ≡ write_blocks m i nr blkoff len total buf
unfolding write_blocks
write_blocks-fuel zero zero i nr blkoff len total buf hn hm hb = refl
write_blocks-fuel zero (suc m) i nr blkoff len total buf hn hm hb =
    write_blocks-done zero i nr blkoff len total buf (omega arith)
    ∙ sym (write_blocks-done (suc m) i nr blkoff len total buf (omega arith))
write_blocks-fuel (suc n) zero i nr blkoff len total buf hn hm hb =
    write_blocks-done (suc n) i nr blkoff len total buf (omega arith)
    ∙ sym (write_blocks-done zero i nr blkoff len total buf (omega arith))
write_blocks-fuel (suc n) (suc m) i nr blkoff len total buf hn hm hb =
    elim (Bool-cases (len == 0)) [
      | inl e ↦ rw (e, write_blocks) refl
      | inr e ↦
          rw (e, write_blocks)
            (bind_ext (iwalk i nr) _ _ (λ blk.
              bind_ext (flush (λ j. buf (total + j)) (min (blk_size - blkoff) len) blk blkoff) _ _
                (λ _.
                  write_blocks-fuel n m i (nr + 1) 0 (len - min (blk_size - blkoff) len)
                    (total + min (blk_size - blkoff) len) buf (ground arith) (ground arith)
                    (omega arith))))
    ]
