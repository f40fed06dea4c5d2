-- ===== src/Input.antt =====
-- user/ulib/scanf.c: buffered input from descriptor 0. What each call of `read` delivers is a
-- parameter, a list of bytes that the call stores; when there is no further one, `read` returns 0.
pub mod Reads
pub mod Lines
pub mod Scan
mod Tests
use tiny_os_qemu.Base.{
  ℕ, zero, suc, ◌+◌, ◌-◌, Bool, true, false, ◌&&◌, ◌||◌, Option, none, some, List, [], ◌∷◌, ◌++◌,
  Bytes, ltb, ◌==◌, not, if◌then◌else◌, length, ◌*◌, ◌/◌, ◌%◌, ◌^◌,
}
use tiny_os_qemu.Num.Parse.{is_space}

pub record Input : Type 0 where
  pub buf : Bytes
  pub head : ℕ
  pub tail : ℕ
  pub reads : List (List ℕ)

-- The buffer with these bytes at its start.
abbrev pub filled : List ℕ → Bytes → Bytes
filled [] b = b
filled (c ∷ cs) b = λ i. if i == 0 then c else filled cs (λ j. b (j + 1)) (i - 1)

unfoldable pub refill : Input → Input
refill s = elim s.reads [
  | [] ↦ record s { head = 0; tail = 0 }
  | c ∷ cs ↦ record { buf = filled c s.buf; head = 0; tail = length c; reads = cs }
]

-- The condition `head == tail && refill() == 0`, with the state behind it.
unfoldable pub is_end : Input → Bool × Input
is_end s = if s.head == s.tail then ((refill s).tail == 0, refill s) else (false, s)

unfoldable pub getchar : Input → ℕ × Input
getchar s =
    let (e, t) = is_end s in if e then (0, t) else (t.buf t.head, record t { head = t.head + 1 })

unfoldable pub peekchar : Input → ℕ × Input
peekchar s = let (e, t) = is_end s in if e then (0, t) else (t.buf t.head, t)

-- `strchr(delim, ch)` for a byte that is not 0.
abbrev pub is_delim : List ℕ → ℕ → Bool
is_delim [] c = false
is_delim (d ∷ ds) c = c == d || is_delim ds c

-- On fuel for the bytes of white space.
unfoldable pub remove_space : ℕ → Input → Option Input
remove_space zero s = none
remove_space (suc n) s =
    let (c, t) = peekchar s in
    elim (not (c == 0) && is_space c) [ true ↦ remove_space n ((getchar t).1) | false ↦ some t ]

-- A byte that `gets` writes, in front of what follows.
abbrev pub put_front : ℕ → Bool × List ℕ × Input → Bool × List ℕ × Input
put_front c (b, cs, s) = (b, c ∷ cs, s)

-- A round of the loop of `gets`, with what `peekchar` gave and with the rounds that follow: whether it
-- went to `fin`, what it writes, and the input behind it.
abbrev pub gets_round :
    List ℕ → Bool → (Input → Bool × List ℕ × Input) → ℕ × Input → Bool × List ℕ × Input
gets_round delim contain next (c, t) = elim (c == 0) [
  | true ↦ (true, [], t)
  | false ↦ elim (is_delim delim c) [
    | true ↦ if contain then (true, (getchar t).0 ∷ [], (getchar t).1) else (true, [], t)
    | false ↦ put_front (getchar t).0 (next ((getchar t).1))
  ]
]

-- The loop, for at most `n` bytes.
unfoldable pub gets_loop : ℕ → List ℕ → Bool → Input → Bool × List ℕ × Input
gets_loop zero delim contain s = (false, [], s)
gets_loop (suc n) delim contain s =
    gets_round delim contain (gets_loop n delim contain) (peekchar s)

-- The loop of `gets` that drops bytes, on fuel for them.
unfoldable pub throw_away : ℕ → List ℕ → Input → Option Input
throw_away zero delim s = none
throw_away (suc n) delim s =
    let (c, t) = peekchar s in
    elim (c == 0 || is_delim delim c) [ true ↦ some t | false ↦ throw_away n delim ((getchar t).1) ]

-- The end of `gets`, with the string that is written and the input behind it.
unfoldable pub gets_end : ℕ → List ℕ → Bool → Bool × List ℕ × Input → Option (List ℕ × Input)
gets_end fuel delim throw (done, cs, s) = elim (done || not throw) [
  | true ↦ some (cs, s)
  | false ↦ elim (throw_away fuel delim s) [ none ↦ none | some t ↦ some (cs, t) ]
]

abbrev pub gets : ℕ → ℕ → List ℕ → Bool → Bool → Input → Option (List ℕ × Input)
gets fuel size delim throw contain s =
    gets_end fuel delim throw (gets_loop ((size + 2 ^ 32 - 1) % 2 ^ 32) delim contain s)

unfoldable pub getline : ℕ → Input → Option (List ℕ × Input)
getline size s = gets 0 size (10 ∷ []) false true s
