-- ===== src/Base/Tally.antt =====
-- How many of the first `n` indices pass a test.
use Prim.Native.Nat.{ℕ, zero, suc, ◌+◌, ◌<◌, ◌≤◌}
use mathlib.Core.Path.{◌≡◌, refl}
use mathlib.Core.Logic.{◌≢◌}
use mathlib.Core.Bool.{Bool, true, false}
use native.Mathlib.Omega.{arith}
use native.Mathlib.Decide.{ℕ_discrete}

abbrev pub one_if : Bool → ℕ
one_if true = 1
one_if false = 0

unfoldable pub tally : ℕ → (ℕ → Bool) → ℕ
tally zero f = 0
tally (suc n) f = tally n f + one_if (f n)

pub tally-le : (n : ℕ) (f : ℕ → Bool) → tally n f ≤ n
unfolding tally
tally-le zero f = omega arith
tally-le (suc n) f = ground (arith, tally-le n f)

pub tally_ext : (n : ℕ) (f g : ℕ → Bool) → ((i : ℕ) → i < n → f i ≡ g i) → tally n f ≡ tally n g
unfolding tally
tally_ext zero f g h = refl
tally_ext (suc n) f g h =
    ground (arith, tally_ext n f g (λ i hi. h i (omega arith)), h n (omega arith))

-- Tests that differ at one index only.
pub tally_change :
    (n : ℕ) (f g : ℕ → Bool) (i : ℕ)
    → i < n
    → ((j : ℕ) → j < n → j ≢ i → f j ≡ g j)
    → tally n f + one_if (g i) ≡ tally n g + one_if (f i)
unfolding tally
tally_change zero f g i hi h = absurd (omega arith)
tally_change (suc n) f g i hi h = elim (ℕ_discrete i n) [
  | yes e ↦ ground (arith, tally_ext n f g (λ j hj. h j (omega arith) (omega arith)))
  | no e ↦ ground (
    arith,
    tally_change n f g i (omega arith) (λ j hj. h j (omega arith)),
    h n (omega arith) (λ q. e (omega arith)),
  )
]

pub tally-zero : (n : ℕ) (f : ℕ → Bool) → ((i : ℕ) → i < n → f i ≡ false) → tally n f ≡ 0
unfolding tally
tally-zero zero f h = refl
tally-zero (suc n) f h =
    ground (arith, tally-zero n f (λ i hi. h i (omega arith)), h n (omega arith))
