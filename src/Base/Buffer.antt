-- ===== src/Base/Buffer.antt =====
-- Byte buffers as functions of the offset, and the copies of string.h on them.
use Prim.Native.Nat.{ℕ, ◌+◌, ◌-◌}
use mathlib.Core.Bool.{Bool, ◌&&◌}
use tiny_os_qemu.Base.Tests.{ltb, leb, if◌then◌else◌}

abbrev pub Bytes : Type 0
Bytes = ℕ → ℕ

-- `i` lies in [off, off + size).
abbrev pub within : ℕ → ℕ → ℕ → Bool
within off size i = leb off i && ltb i (off + size)

-- `memcpy(&dst[off], src, size)` on buffers that do not overlap.
abbrev pub paste : Bytes → ℕ → ℕ → Bytes → Bytes
paste dst off size src i = if within off size i then src (i - off) else dst i
