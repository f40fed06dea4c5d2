-- ===== src/Num/Tests.antt =====
-- The number properties at concrete memories, and runs of the operations.
use tiny_os_qemu.Base.{◌≡◌, refl, ◌==◌, if◌then◌else◌, some, Bytes, arith}
use tiny_os_qemu.Num.{utoa}
use tiny_os_qemu.Num.Parse.{strtol, strtoul}
use tiny_os_qemu.Num.Parse.Roundtrip.{ReadsBack, strtol-utoa}

abbrev junk : Bytes
junk _ = 77

strtol-utoa_example :
    (t : Bytes) × (utoa junk 255 100 16 ≡ some (some 100, t))
    × ReadsBack (strtol 33 t 100 16) t 100 255
strtol-utoa_example = strtol-utoa junk 255 100 16 (omega arith) (omega arith) (omega arith)

-- The string " -0x1F;" at 0.
abbrev text : Bytes
text a =
    if a == 0
    then 32
    else if a == 1
    then 45
    else if a == 2
    then 48
    else if a == 3
    then 120
    else if a == 4
    then 49
    else if a == 5
    then 70
    else 59

signed_hex : strtol 10 text 0 0 ≡ some (4294967265, 6)
unfolding strtol tiny_os_qemu.Num.Parse.skip_spaces tiny_os_qemu.Num.Parse.long_from
    tiny_os_qemu.Num.Parse.long_digits tiny_os_qemu.Num.Parse.scan_digits
signed_hex = refl
