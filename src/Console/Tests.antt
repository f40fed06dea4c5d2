-- ===== src/Console/Tests.antt =====
-- kernel/src/serial.c: the console from its first state.
use tiny_os_qemu.Base.{ℕ, ◌≡◌, refl, some, List, [], ◌∷◌, if◌then◌else◌, ◌==◌, arith}
use tiny_os_qemu.Console.{Console, Event, past, run, IsConsole}
use tiny_os_qemu.Console.Safe.{arrivals, run-IsConsole}
use tiny_os_qemu.Console.Reads.{Progress, serial_read, slots, IsRead, serial_read-IsRead}

abbrev fresh : Console
fresh = record { buffer = λ _. 0; head = 0; tail = 0; clapboard = 0; value = 0 }

-- A letter, a letter that is taken back, Enter, and two reads.
abbrev events : List Event
events = Event.read ∷ Event.arrive (97 ∷ 98 ∷ 127 ∷ 13 ∷ []) ∷ Event.read ∷ Event.read ∷ []

run-IsConsole_example : (t : Console) × (run events fresh ≡ some t) × IsConsole t
run-IsConsole_example =
    run-IsConsole events fresh
      (record {
        head_le = omega arith;
        clapboard_le = omega arith;
        counted = refl;
        nonzero = λ j lo hi. absurd (omega arith);
      })
      (unfold arrivals in omega arith)

-- A letter and Enter.
abbrev typed : Console
typed = record {
  buffer = λ i. if i == 0 then 97 else 10;
  head = 0;
  tail = 2;
  clapboard = 2;
  value = 2;
}

serial_read-IsRead_example :
    (n : ℕ) × IsRead 5 n typed
    × (serial_read 5 typed ≡ some (slots typed.buffer 0 n, Progress.returned, past n typed))
    × IsConsole (past n typed)
serial_read-IsRead_example =
    serial_read-IsRead 5 typed
      (record {
        head_le = omega arith;
        clapboard_le = omega arith;
        counted = refl;
        nonzero = λ j lo hi. ground arith;
      })
      (omega arith) refl
