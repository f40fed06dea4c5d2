-- ===== src/Console/Safe.antt =====
-- kernel/src/serial.c: bytes that arrive and reads, in any order.
use tiny_os_qemu.Base.{
  ℕ, ◌+◌, ◌-◌, ◌%◌, ◌^◌, ◌≤◌, ◌<◌, ◌≡◌, ◌≢◌, refl, true, ◌||◌, Option, none, some, List, [], ◌∷◌,
  update, ltb, ◌==◌, if◌then◌else◌, arith, Bool-cases, inl, inr, length, ◌∙◌,
}
use tiny_os_qemu.Console.{
  Console, Event, buffer_size, is_int, finish_line, push_back, pop_back, is_accepted, accept,
  handle, serial_handle, getchar, run, IsConsole, past, getchar-past,
}

-- The number of bytes that arrive.
unfoldable pub arrivals : List Event → ℕ
arrivals [] = 0
arrivals (Event.arrive bytes ∷ es) = length bytes + arrivals es
arrivals (Event.read ∷ es) = arrivals es

-- A step is defined, and counts `tail` up by at most `n`.
abbrev Steps : ℕ → Console → Option Console → Type 0
Steps n s o = (t : Console) × (o ≡ some t) × IsConsole t × (t.tail ≤ s.tail + n)

put-nonzero :
    (s : Console) (ch j : ℕ)
    → IsConsole s
    → ch ≢ 0
    → s.head ≤ j
    → j < s.tail + 1
    → update s.buffer (s.tail % buffer_size) ch (j % buffer_size) ≢ 0
put-nonzero s ch j w ne lo hi = elim (Bool-cases (s.tail % buffer_size == j % buffer_size)) [
  | inl e ↦ rw e ne
  | inr e ↦ rw e (w.nonzero j lo (ground arith))
]

abbrev with_char : ℕ → Console → Console
with_char ch s = record s { buffer = update s.buffer (s.tail % buffer_size) ch; tail = s.tail + 1 }

with_char-IsConsole : (ch : ℕ) (s : Console) → ch ≢ 0 → IsConsole s → IsConsole (with_char ch s)
with_char-IsConsole ch s ne w = record {
  head_le = w.head_le;
  clapboard_le = omega (arith, w.clapboard_le);
  counted = w.counted;
  nonzero = λ j lo hi. put-nonzero s ch j w ne lo hi;
}

abbrev with_line : Console → Console
with_line t = record t { value = t.value + (t.tail - t.clapboard); clapboard = t.tail }

with_line-IsConsole : (t : Console) → IsConsole t → IsConsole (with_line t)
with_line-IsConsole t w = record {
  head_le = omega (arith, w.head_le, w.clapboard_le);
  clapboard_le = omega arith;
  counted = omega (arith, w.head_le, w.clapboard_le, w.counted);
  nonzero = w.nonzero;
}

put-next :
    (ch : ℕ) (s : Console)
    → s.tail + 1 < 2 ^ 31
    → push_back ch s ≡ (if ch == 10 then finish_line (with_char ch s) else some (with_char ch s))
put-next ch s h = let e : is_int (s.tail + 1) ≡ true = ground arith in rw (e, push_back) refl

finish_line-eq : (t : Console) → IsConsole t → t.tail < 2 ^ 31 → finish_line t ≡ some (with_line t)
finish_line-eq t w h =
    let e : is_int (t.value + (t.tail - t.clapboard)) ≡ true =
      ground (arith, w.head_le, w.clapboard_le, w.counted) in
    rw e refl

push_back-Steps :
    (ch : ℕ) (s : Console) → ch ≢ 0 → s.tail + 1 < 2 ^ 31 → IsConsole s → Steps 1 s (push_back ch s)
push_back-Steps ch s ne h w =
    let v = with_char-IsConsole ch s ne w in
    elim (Bool-cases (ch == 10)) [
      | inl e ↦ (
        with_line (with_char ch s),
        put-next ch s h ∙ rw e (finish_line-eq (with_char ch s) v h),
        with_line-IsConsole (with_char ch s) v,
        omega arith,
      )
      | inr e ↦ (with_char ch s, put-next ch s h ∙ rw e refl, v, omega arith)
    ]

pop_back-IsConsole :
    (s : Console) → IsConsole s → IsConsole (pop_back s) × ((pop_back s).tail ≤ s.tail + 1)
pop_back-IsConsole s w = elim (Bool-cases (ltb s.clapboard s.tail)) [
  | inl e ↦ rw e (
    record {
      head_le = w.head_le;
      clapboard_le = ground arith;
      counted = w.counted;
      nonzero = λ j lo hi. w.nonzero j lo (omega arith);
    },
    omega arith,
  )
  | inr e ↦ rw e (w, omega arith)
]

accept-Steps : (ch : ℕ) (s : Console) → s.tail + 1 < 2 ^ 31 → IsConsole s → Steps 1 s (accept ch s)
accept-Steps ch s h w = elim (Bool-cases (is_accepted ch)) [
  | inl e ↦ rw e (push_back-Steps ch s (ground arith) h w)
  | inr e ↦ rw e (s, refl, w, omega arith)
]

handle-Steps : (ch : ℕ) (s : Console) → s.tail + 1 < 2 ^ 31 → IsConsole s → Steps 1 s (handle ch s)
handle-Steps ch s h w = elim (Bool-cases (ch == 0)) [
  | inl z ↦ rw z (s, refl, w, omega arith)
  | inr z ↦ rw z (elim (Bool-cases (ch == 8 || ch == 127)) [
    | inl b ↦ rw b (let (v, l) = pop_back-IsConsole s w in (pop_back s, refl, v, l))
    | inr b ↦ rw b (accept-Steps (if ch == 13 then 10 else ch) s h w)
  ])
]

serial_handle-Steps :
    (bytes : List ℕ) (s : Console)
    → s.tail + length bytes < 2 ^ 31
    → IsConsole s
    → Steps (length bytes) s (serial_handle bytes s)
unfolding serial_handle
serial_handle-Steps [] s h w = (s, refl, w, omega arith)
serial_handle-Steps (ch ∷ rest) s h w = elim (Bool-cases (ch == 27)) [
  | inl e ↦ (s, rw (e, serial_handle) refl, w, omega arith)
  | inr e ↦
      let (t, q, v, l) = handle-Steps ch s (omega arith) w in
      let (u, p, x, m) = serial_handle-Steps rest t (omega arith) v in
      (u, rw (e, serial_handle) (rw q p), x, omega arith)
]

getchar-IsConsole :
    (s : Console)
    → IsConsole s
    → (r : Option ℕ) × (t : Console) × (getchar s ≡ some (r, t)) × IsConsole t × (t.tail ≡ s.tail)
unfolding getchar
getchar-IsConsole s w = elim (Bool-cases (s.value == 0)) [
  | inl e ↦ (none, s, rw (e, getchar) refl, w, refl)
  | inr e ↦
      let (q, x) = getchar-past s w (ground (arith, w.counted)) in
      (some (s.buffer (s.head % buffer_size)), past 1 s, q, x, refl)
]

-- From a console with the semaphore at the number of characters in finished lines, and without a
-- character 0, every sequence of arriving bytes and of reads, with fewer bytes than the int `tail`
-- has room for, counts no int too far, passes the `assert` of `getchar`, and leads to such a console
-- again.
pub run-IsConsole :
    (es : List Event) (s : Console)
    → IsConsole s
    → s.tail + arrivals es < 2 ^ 31
    → (t : Console) × (run es s ≡ some t) × IsConsole t
unfolding run arrivals
run-IsConsole [] s w h = (s, refl, w)
run-IsConsole (Event.arrive bytes ∷ es) s w h =
    let (t, q, v, l) = serial_handle-Steps bytes s (omega arith) w in
    let (u, f, x) = run-IsConsole es t v (omega arith) in (u, rw (run, q) f, x)
run-IsConsole (Event.read ∷ es) s w h =
    let (r, t, e, v, l) = getchar-IsConsole s w in
    let (u, f, x) = run-IsConsole es t v (omega arith) in (u, rw (e, run) f, x)
