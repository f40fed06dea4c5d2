-- ===== src/Console.antt =====
-- kernel/src/serial.c: the input buffer of the serial console.
pub mod Reads
pub mod Safe
mod Tests
use tiny_os_qemu.Base.{
  ℕ, zero, suc, ◌+◌, ◌-◌, ◌%◌, ◌^◌, ◌≤◌, ◌<◌, ◌≡◌, ◌≢◌, refl, Bool, true, false, not, ◌&&◌, ◌||◌,
  Option, none, some, List, [], ◌∷◌, update, ltb, leb, ◌==◌, ==_refl, if◌then◌else◌, arith,
  Bool-cases, inl, inr, length,
}

-- `value` is that of `serial_sem`, the units that no process has taken. The counters and the value
-- are ints that are never negative. To count one of them up to 2 ^ 31 is undefined in C: `none`.
-- `head` stays at most at `clapboard`, and is counted up without a test.
pub record Console : Type 0 where
  pub buffer : ℕ → ℕ
  pub head : ℕ
  pub tail : ℕ
  pub clapboard : ℕ
  pub value : ℕ

abbrev pub buffer_size : ℕ
buffer_size = 256

-- Whether an int has room for `n`.
abbrev pub is_int : ℕ → Bool
is_int n = ltb n (2 ^ 31)

abbrev pub put : ℕ → Console → Option Console
put ch s =
    if is_int (s.tail + 1)
    then some (record s { buffer = update s.buffer (s.tail % buffer_size) ch; tail = s.tail + 1 })
    else none

-- The end of `push_back` for a newline.
abbrev pub finish_line : Console → Option Console
finish_line t =
    if is_int (t.value + (t.tail - t.clapboard))
    then some (record t { value = t.value + (t.tail - t.clapboard); clapboard = t.tail })
    else none

abbrev pub push_back : ℕ → Console → Option Console
push_back ch s = elim (put ch s) [
  | none ↦ none
  | some t ↦ if ch == 10 then finish_line t else some t
]

abbrev pub pop_back : Console → Console
pop_back s = if ltb s.clapboard s.tail then record s { tail = s.tail - 1 } else s

abbrev pub pop_front : Console → ℕ × Console
pop_front s =
    if ltb s.head s.clapboard
    then (s.buffer (s.head % buffer_size), record s { head = s.head + 1 })
    else (0, s)

abbrev pub is_accepted : ℕ → Bool
is_accepted ch = ch == 10 || leb 32 ch && ltb ch 127

abbrev pub accept : ℕ → Console → Option Console
accept ch s = if is_accepted ch then push_back ch s else some s

-- One byte but ESC.
abbrev pub handle : ℕ → Console → Option Console
handle ch s =
    if ch == 0
    then some s
    else if ch == 8 || ch == 127
    then some (pop_back s)
    else accept (if ch == 13 then 10 else ch) s

-- The bytes that the port has ready, one after the other. What is put on the screen is left out.
unfoldable pub serial_handle : List ℕ → Console → Option Console
serial_handle [] s = some s
serial_handle (ch ∷ rest) s = elim (ch == 27) [
  | true ↦ some s
  | false ↦ elim (handle ch s) [ none ↦ none | some t ↦ serial_handle rest t ]
]

-- With a unit of the semaphore; without one the process waits, and nothing changes. `none` is a
-- failed `assert`.
unfoldable pub getchar : Console → Option (Option ℕ × Console)
getchar s =
    if s.value == 0
    then some (none, s)
    else let (ch, t) = pop_front (record s { value = s.value - 1 }) in
      if ch == 0 then none else some (some ch, t)

-- Bytes arrive, or a process reads.
pub data Event : Type 0 where
  arrive : List ℕ → Event
  read : Event

unfoldable pub run : List Event → Console → Option Console
run [] s = some s
run (Event.arrive bytes ∷ es) s = elim (serial_handle bytes s) [ none ↦ none | some t ↦ run es t ]
run (Event.read ∷ es) s = elim (getchar s) [ none ↦ none | some (_, t) ↦ run es t ]

-- The semaphore counts the characters of finished lines, and no character is 0.
pub record IsConsole (s : Console) : Type 0 where
  pub head_le : s.head ≤ s.clapboard
  pub clapboard_le : s.clapboard ≤ s.tail
  pub counted : s.value ≡ s.clapboard - s.head
  pub nonzero : (j : ℕ) → s.head ≤ j → j < s.tail → s.buffer (j % buffer_size) ≢ 0

-- The console after `n` characters are read.
abbrev pub past : ℕ → Console → Console
past n s = record s { head = s.head + n; value = s.value - n }

-- With a finished line the rest of `getchar` succeeds.
pub getchar-past :
    (s : Console)
    → IsConsole s
    → s.head < s.clapboard
    → (getchar s ≡ some (some (s.buffer (s.head % buffer_size)), past 1 s)) × IsConsole (past 1 s)
unfolding getchar
getchar-past s w l =
    let e : (s.value == 0) ≡ false = ground (arith, w.counted) in
    let lt : ltb s.head s.clapboard ≡ true = ground arith in
    let nz : (s.buffer (s.head % buffer_size) == 0) ≡ false =
      is_nonzero _ (w.nonzero s.head (omega arith) (omega (arith, w.clapboard_le))) in
    (
      rw (e, getchar) (rw lt (rw nz refl)),
      record {
        head_le = omega arith;
        clapboard_le = w.clapboard_le;
        counted = omega (arith, w.counted);
        nonzero = λ j lo hi. w.nonzero j (omega arith) hi;
      },
    )
  where
    is_nonzero : (c : ℕ) → c ≢ 0 → (c == 0) ≡ false
    is_nonzero c h = ground arith
