-- ===== src/Stdio/Tests.antt =====
-- Runs of the model of lib/src/stdio.c.
use tiny_os_qemu.Base.{ℕ, ◌-◌, ◌^◌, ◌≡◌, refl, true, none, List, [], ◌∷◌, ◌≢◌, All, arith}
use tiny_os_qemu.Stdio.{number, put_number}
use tiny_os_qemu.Stdio.Number.{Shown, number-Shown}
use tiny_os_qemu.Stdio.Ends.{vsprintf-ends}
use tiny_os_qemu.Stdio.Format.{
  Arg, Printed, vsprintf, no_flags, print_from, conversion, take_flags, skip_atoi, take_width,
  take_precision, convert,
}

-- "%-5d|%05x|%s|%3c|%%|%p|%"
abbrev demo : List ℕ
demo =
    37 ∷ 45 ∷ 53 ∷ 100 ∷ 124 ∷ 37 ∷ 48 ∷ 53 ∷ 120 ∷ 124 ∷ 37 ∷ 115 ∷ 124 ∷ 37 ∷ 51 ∷ 99 ∷ 124 ∷ 37
    ∷ 37 ∷ 124 ∷ 37 ∷ 112 ∷ 124 ∷ 37 ∷ []

abbrev demo_args : List Arg
demo_args =
    Arg.word (2 ^ 32 - 42) ∷ Arg.word 255 ∷ Arg.string none ∷ Arg.word 65 ∷ Arg.word 4096 ∷ []

-- "-42  |000ff|<NULL>|  A|%|00001000|%"
demo_text :
    vsprintf demo demo_args
    ≡ Printed.text (
        45 ∷ 52 ∷ 50 ∷ 32 ∷ 32 ∷ 124 ∷ 48 ∷ 48 ∷ 48 ∷ 102 ∷ 102 ∷ 124 ∷ 60 ∷ 78 ∷ 85 ∷ 76 ∷ 76 ∷ 62
        ∷ 124 ∷ 32 ∷ 32 ∷ 65 ∷ 124 ∷ 37 ∷ 124 ∷ 48 ∷ 48 ∷ 48 ∷ 48 ∷ 49 ∷ 48 ∷ 48 ∷ 48 ∷ 124 ∷ 37
        ∷ [])
unfolding vsprintf print_from conversion take_flags skip_atoi take_width take_precision convert
    number put_number
demo_text = refl

-- The format "ab" has no '%'.
vsprintf-ends_example :
    (vsprintf (97 ∷ 98 ∷ []) demo_args ≢ Printed.out_of_fuel)
    × (All (λ c. c ≢ 37) (97 ∷ 98 ∷ [])
        → vsprintf (97 ∷ 98 ∷ []) demo_args ≡ Printed.text (97 ∷ 98 ∷ []))
vsprintf-ends_example = vsprintf-ends (97 ∷ 98 ∷ []) demo_args

number-Shown_example : Shown (2 ^ 32 - 42) 10 5 0 (record no_flags { sign = true })
number-Shown_example =
    number-Shown (2 ^ 32 - 42) 10 5 0 (record no_flags { sign = true }) (omega arith) (omega arith)
      (omega arith)
