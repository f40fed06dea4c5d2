-- ===== src/Condition.antt =====
-- lab/lab8/condition_sem.c: a condition variable made of semaphores, and producers and consumers that
-- share a buffer through it. A thread takes one step at a time: one call on a semaphore, one read or
-- one write of a shared variable. Which thread takes the next step is arbitrary.
pub mod Inside
pub mod Safe
pub mod Wakes
pub mod Effects
pub mod Broadcast
mod Tests
use tiny_os_qemu.Base.{
  ℕ, zero, suc, ◌+◌, ◌-◌, Bool, true, false, Option, none, some, List, [], ◌∷◌, ltb, if◌then◌else◌,
  update,
}

-- The semaphores by their values, the variables, and how many '(' and ')' have been printed.
pub record Shared : Type 0 where
  pub mutex : ℕ
  pub lock : ℕ
  pub sleep : ℕ
  pub handshake : ℕ
  pub nwait : ℕ
  pub cnt : ℕ
  pub opened : ℕ
  pub closed : ℕ

-- Where a thread stands in `my_cv_wait`.
pub data Wait : Type 0 where
  lock_cv read unlock_cv unlock_mutex sleep shake lock_mutex : Wait
  write : ℕ → Wait

-- Where a thread stands in `my_cv_broadcast`, with the loop's `i`.
pub data Cast : Type 0 where
  lock_cv reset unlock_cv : Cast
  loop wake shake : ℕ → Cast

pub data Role : Type 0 where
  producer consumer : Role

-- Where a thread stands in `producer` or `consumer`. `store` has read `cnt`; a thread has `failed` at an
-- assert.
pub data Pc : Type 0 where
  lock test check print load unlock failed : Pc
  wait : Wait → Pc
  store : ℕ → Pc
  broadcast : Cast → Pc

-- PRODUCER_COND and CONSUMER_COND
abbrev pub cond : ℕ → Role → ℕ → Bool
cond buf_size Role.producer cnt = ltb cnt buf_size
cond buf_size Role.consumer cnt = ltb 0 cnt

-- What a blocked call of `sem_wait` comes to is `none`.
abbrev pub sem_wait : ℕ → Option ℕ
sem_wait zero = none
sem_wait (suc n) = some n

-- A step of `my_cv_wait`; it returns where it has no next place.
unfoldable pub my_cv_wait : Wait → Shared → Option (Shared × Option Wait)
my_cv_wait Wait.lock_cv s = elim (sem_wait s.lock) [
  | none ↦ none
  | some n ↦ some (record s { lock = n }, some Wait.read)
]
my_cv_wait Wait.read s = some (s, some (Wait.write s.nwait))
my_cv_wait (Wait.write n) s = some (record s { nwait = suc n }, some Wait.unlock_cv)
my_cv_wait Wait.unlock_cv s = some (record s { lock = suc s.lock }, some Wait.unlock_mutex)
my_cv_wait Wait.unlock_mutex s = some (record s { mutex = suc s.mutex }, some Wait.sleep)
my_cv_wait Wait.sleep s = elim (sem_wait s.sleep) [
  | none ↦ none
  | some n ↦ some (record s { sleep = n }, some Wait.shake)
]
my_cv_wait Wait.shake s = some (record s { handshake = suc s.handshake }, some Wait.lock_mutex)
my_cv_wait Wait.lock_mutex s = elim (sem_wait s.mutex) [
  | none ↦ none
  | some n ↦ some (record s { mutex = n }, none)
]

unfoldable pub my_cv_broadcast : Cast → Shared → Option (Shared × Option Cast)
my_cv_broadcast Cast.lock_cv s = elim (sem_wait s.lock) [
  | none ↦ none
  | some n ↦ some (record s { lock = n }, some (Cast.loop 0))
]
my_cv_broadcast (Cast.loop i) s =
    if ltb i s.nwait then some (s, some (Cast.wake i)) else some (s, some Cast.reset)
my_cv_broadcast (Cast.wake i) s = some (record s { sleep = suc s.sleep }, some (Cast.shake i))
my_cv_broadcast (Cast.shake i) s = elim (sem_wait s.handshake) [
  | none ↦ none
  | some n ↦ some (record s { handshake = n }, some (Cast.loop (suc i)))
]
my_cv_broadcast Cast.reset s = some (record s { nwait = 0 }, some Cast.unlock_cv)
my_cv_broadcast Cast.unlock_cv s = some (record s { lock = suc s.lock }, none)

-- printf("(") or printf(")")
abbrev pub put : Role → Shared → Shared
put Role.producer s = record s { opened = suc s.opened }
put Role.consumer s = record s { closed = suc s.closed }

-- cnt++ or cnt--
abbrev pub next_cnt : Role → ℕ → ℕ
next_cnt Role.producer n = suc n
next_cnt Role.consumer n = n - 1

abbrev pub after_wait : Option (Shared × Option Wait) → Option (Shared × Pc)
after_wait none = none
after_wait (some (s, none)) = some (s, Pc.test)
after_wait (some (s, some w)) = some (s, Pc.wait w)

abbrev pub after_broadcast : Option (Shared × Option Cast) → Option (Shared × Pc)
after_broadcast none = none
after_broadcast (some (s, none)) = some (s, Pc.unlock)
after_broadcast (some (s, some c)) = some (s, Pc.broadcast c)

-- A step of `producer` or `consumer`.
unfoldable pub step : ℕ → Role → Pc → Shared → Option (Shared × Pc)
step buf_size r Pc.lock s = elim (sem_wait s.mutex) [
  | none ↦ none
  | some n ↦ some (record s { mutex = n }, Pc.test)
]
step buf_size r Pc.test s =
    if cond buf_size r s.cnt then some (s, Pc.check) else some (s, Pc.wait Wait.lock_cv)
step buf_size r (Pc.wait w) s = after_wait (my_cv_wait w s)
step buf_size r Pc.check s =
    if cond buf_size r s.cnt then some (s, Pc.print) else some (s, Pc.failed)
step buf_size r Pc.print s = some (put r s, Pc.load)
step buf_size r Pc.load s = some (s, Pc.store s.cnt)
step buf_size r (Pc.store n) s = some (record s { cnt = next_cnt r n }, Pc.broadcast Cast.lock_cv)
step buf_size r (Pc.broadcast c) s = after_broadcast (my_cv_broadcast c s)
step buf_size r Pc.unlock s = some (record s { mutex = suc s.mutex }, Pc.lock)
step buf_size r Pc.failed s = none

pub record Threads : Type 0 where
  pub pc : ℕ → Pc
  pub shared : Shared

-- Thread `i` is given the processor for a step; a blocked one does nothing.
unfoldable pub turn : ℕ → (ℕ → Role) → ℕ → Threads → Threads
turn buf_size role i t = elim (step buf_size (role i) (t.pc i) t.shared) [
  | none ↦ t
  | some (s, p) ↦ record { pc = update t.pc i p; shared = s }
]

-- The threads of a schedule, one step each.
unfoldable pub run : ℕ → (ℕ → Role) → List ℕ → Threads → Threads
run buf_size role [] t = t
run buf_size role (i ∷ is) t = run buf_size role is (turn buf_size role i t)

-- `my_mutex_init`, `my_cv_init` and `main`.
abbrev pub started : Threads
started = record {
  pc = λ _. Pc.lock;
  shared = record {
    mutex = 1;
    lock = 1;
    sleep = 0;
    handshake = 0;
    nwait = 0;
    cnt = 0;
    opened = 0;
    closed = 0;
  };
}
