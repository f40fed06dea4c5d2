-- ===== src/Console/Reads.antt =====
-- kernel/src/serial.c: serial_read, the read of the console as a device.
use tiny_os_qemu.Base.{
  ℕ, zero, suc, ◌+◌, ◌-◌, ◌%◌, ◌≤◌, ◌<◌, ◌≡◌, ◌≢◌, refl, true, false, Option, none, some, List, [],
  ◌∷◌, ◌⊎◌, inl, inr, ◌==◌, ==_iff, ltb, if◌then◌else◌, arith, Bool-cases, ap, sym, ◌∙◌,
}
use mathlib.Core.Path.{subst}
use tiny_os_qemu.Console.{Console, buffer_size, getchar, IsConsole, past, getchar-past}

-- How a call stands: it has returned, or it waits in `getchar`, with as many bytes left to read and
-- with this last character, from which `read_from` goes on later.
pub data Progress : Type 0 where
  returned : Progress
  waits : ℕ → ℕ → Progress

-- The bytes that go into `buf`, how the call stands, and the console.
unfoldable pub read_from : ℕ → ℕ → Console → Option (List ℕ × Progress × Console)
read_from zero ch s = some ([], Progress.returned, s)
read_from (suc left) ch s = if ch == 10 then some ([], Progress.returned, s) else elim (getchar s) [
  | none ↦ none
  | some (none, t) ↦ some ([], Progress.waits (suc left) ch, t)
  | some (some c, t) ↦ elim (read_from left c t) [
    | none ↦ none
    | some (bytes, p, u) ↦ some (c ∷ bytes, p, u)
  ]
]

unfoldable pub serial_read : ℕ → Console → Option (List ℕ × Progress × Console)
serial_read count s = read_from count 0 s

-- The next `n` bytes of the buffer from position `i`.
unfoldable pub slots : (ℕ → ℕ) → ℕ → ℕ → List ℕ
slots b i zero = []
slots b i (suc n) = b (i % buffer_size) ∷ slots b (i + 1) n

-- The `n` bytes from the head are what a read of at most `count` bytes takes: up to the first newline.
pub record IsRead (count n : ℕ) (s : Console) : Type 0 where
  pub count_le : n ≤ count
  pub within : s.head + n ≤ s.clapboard
  pub before : (j : ℕ) → j + 1 < n → s.buffer ((s.head + j) % buffer_size) ≢ 10
  pub last : (n ≡ count) ⊎ ((0 < n) × (s.buffer ((s.head + (n - 1)) % buffer_size) ≡ 10))

at_counts :
    (s : Console) (h k v u : ℕ)
    → h ≡ k
    → v ≡ u
    → record s { head = h; value = v } ≡ record s { head = k; value = u }
at_counts s h k v u p q =
    ap (λ x. record s { head = x; value = v }) p ∙ ap (λ x. record s { head = k; value = x }) q

past_zero : (s : Console) → past 0 s ≡ s
past_zero s = at_counts s (s.head + 0) s.head (s.value - 0) s.value (omega arith) (omega arith)

past-past : (n : ℕ) (s : Console) → past n (past 1 s) ≡ past (suc n) s
past-past n s =
    at_counts s (s.head + 1 + n) (s.head + suc n) (s.value - 1 - n) (s.value - suc n) (omega arith)
      (omega arith)

is_other : (c : ℕ) → (c == 10) ≡ false → c ≢ 10
is_other c y = ground (arith, y, ==_iff c 10)

is_newline : (c : ℕ) → (c == 10) ≡ true → c ≡ 10
is_newline c y = ground (arith, y, ==_iff c 10)

further :
    (s : Console)
    → s.head < s.clapboard
    → s.buffer ((s.clapboard - 1) % buffer_size) ≡ 10
    → (s.buffer (s.head % buffer_size) == 10) ≡ false
    → s.head + 1 < s.clapboard
further s l nl y = elim (Bool-cases (ltb (s.head + 1) s.clapboard)) [
  | inl h ↦ ground arith
  | inr h ↦
      let q : s.clapboard - 1 ≡ s.head = ground (arith, l) in
      absurd (is_other _ y (ap (λ i. s.buffer (i % buffer_size)) (sym q) ∙ nl))
]

unread_before :
    {count : ℕ} (s : Console) (n : ℕ)
    → (s.buffer (s.head % buffer_size) == 10) ≡ false
    → IsRead count n (past 1 s)
    → (j : ℕ) → j + 1 < suc n
    → s.buffer ((s.head + j) % buffer_size) ≢ 10
unread_before s n y r zero h =
    subst (λ i. s.buffer (i % buffer_size) ≢ 10) (omega arith) (is_other _ y)
unread_before s n y r (suc j) h =
    subst (λ i. s.buffer (i % buffer_size) ≢ 10) (omega arith) (r.before j (omega arith))

unread_last :
    {count : ℕ} (s : Console) (n : ℕ)
    → IsRead count n (past 1 s)
    → (suc n ≡ suc count) ⊎ ((0 < suc n) × (s.buffer ((s.head + (suc n - 1)) % buffer_size) ≡ 10))
unread_last s n r = elim r.last [
  | inl q ↦ inl (ap suc q)
  | inr (h, q) ↦ inr (omega arith, subst (λ i. s.buffer (i % buffer_size) ≡ 10) (omega arith) q)
]

ended :
    (left c : ℕ) (t : Console)
    → (c == 10) ≡ true
    → read_from left c t ≡ some ([], Progress.returned, t)
unfolding read_from
ended zero c t y = refl
ended (suc left) c t y = rw (y, read_from) refl

read_from-IsRead :
    (count ch : ℕ) (s : Console)
    → IsConsole s
    → s.head < s.clapboard
    → s.buffer ((s.clapboard - 1) % buffer_size) ≡ 10
    → ch ≢ 10
    → (n : ℕ) × IsRead count n s
      × (read_from count ch s ≡ some (slots s.buffer s.head n, Progress.returned, past n s))
      × IsConsole (past n s)
unfolding read_from slots
read_from-IsRead zero ch s w l nl ne = (
  0,
  record {
    count_le = omega arith;
    within = omega arith;
    before = λ j h. absurd (omega arith);
    last = inl refl;
  },
  ap (λ t. some ([], Progress.returned, t)) (sym (past_zero s)),
  subst IsConsole (sym (past_zero s)) w,
)
read_from-IsRead (suc count) ch s w l nl ne =
    let e : (ch == 10) ≡ false = ground (arith, ne, ==_iff ch 10) in
    let (q, x) = getchar-past s w l in
    elim (Bool-cases (s.buffer (s.head % buffer_size) == 10)) [
      | inl y ↦ (
        1,
        record {
          count_le = omega arith;
          within = omega arith;
          before = λ j h. absurd (omega arith);
          last = inr (
            omega arith,
            subst (λ i. s.buffer (i % buffer_size) ≡ 10) (omega arith) (is_newline _ y),
          );
        },
        rw (e, q) (rw (ended count (s.buffer (s.head % buffer_size)) (past 1 s) y) refl),
        x,
      )
      | inr y ↦
          let (n, r, p, z) =
            read_from-IsRead count (s.buffer (s.head % buffer_size)) (past 1 s) x (further s l nl y)
              nl (is_other _ y) in
          (
            suc n,
            record {
              count_le = omega (arith, r.count_le);
              within = omega (arith, r.within);
              before = unread_before s n y r;
              last = unread_last s n r;
            },
            rw (e, q)
                (rw p (
                  ap (λ t. some (slots s.buffer s.head (suc n), Progress.returned, t))
                    (past-past n s))),
            subst IsConsole (past-past n s) z,
          )
    ]

-- In a console with a finished line, whose last byte before `clapboard` is its newline, a read of at
-- most `count` bytes returns without waiting. It takes the bytes up to the first newline, that
-- included, or `count` of them, and leaves a console of this kind.
pub serial_read-IsRead :
    (count : ℕ) (s : Console)
    → IsConsole s
    → s.head < s.clapboard
    → s.buffer ((s.clapboard - 1) % buffer_size) ≡ 10
    → (n : ℕ) × IsRead count n s
      × (serial_read count s ≡ some (slots s.buffer s.head n, Progress.returned, past n s))
      × IsConsole (past n s)
unfolding serial_read
serial_read-IsRead count s w l nl = read_from-IsRead count 0 s w l nl (omega arith)
