-- ===== src/Base/Loops.antt =====
-- The search loop `for (i = 0; i < n; i++) if (test(i)) …`: the first index that passes.
use native.Mathlib.Decide.{dec_lt}
use Prim.Native.Nat.{ℕ, zero, suc, ◌+◌, ◌≤◌, ◌<◌}
use mathlib.Core.Path.{◌≡◌}
use mathlib.Core.Bool.{Bool, true, false}
use mathlib.Core.Logic.{inl, inr}
use mathlib.Core.Option.{Option, none, some}
use native.Mathlib.Omega.{arith}
use ssuos_mminos.Base.Tests.{if◌then◌else◌, Option-cases}

unfoldable pub find_from : (ℕ → Bool) → (rounds i : ℕ) → Option ℕ
find_from test zero i = none
find_from test (suc n) i = let rest = find_from test n (i + 1) in if test i then some i else rest

-- The first index below `n` that passes.
unfoldable pub find_below : (ℕ → Bool) → ℕ → Option ℕ
unfolding find_from
find_below test n = find_from test n 0

find_from-some :
    (test : ℕ → Bool) (n i k : ℕ)
    → find_from test n i ≡ some k
    → (i ≤ k) × (k < i + n) × (test k ≡ true)
unfolding find_from
find_from-some test zero i k e = absurd (ground arith)
find_from-some test (suc n) i k e = ground (arith, find_from-some test n (i + 1) k)

find_from-least :
    (test : ℕ → Bool) (n i k j : ℕ) → find_from test n i ≡ some k → i ≤ j → j < k → test j ≡ false
unfolding find_from
find_from-least test zero i k j e lo hi = absurd (ground arith)
find_from-least test (suc n) i k j e lo hi = elim (dec_lt i j) [
  | yes lt ↦ ground (arith, find_from-least test n (i + 1) k j)
  | no last ↦ let e' : i ≡ j = omega arith in ground arith
]

find_from-none :
    (test : ℕ → Bool) (n i j : ℕ) → find_from test n i ≡ none → i ≤ j → j < i + n → test j ≡ false
unfolding find_from
find_from-none test zero i j e lo hi = absurd (omega arith)
find_from-none test (suc n) i j e lo hi = elim (dec_lt i j) [
  | yes lt ↦ ground (arith, find_from-none test n (i + 1) j)
  | no last ↦ let e' : i ≡ j = omega arith in ground arith
]

pub find_below-some :
    (test : ℕ → Bool) (n k : ℕ) → find_below test n ≡ some k → (k < n) × (test k ≡ true)
unfolding find_below
find_below-some test n k e = ground (arith, find_from-some test n 0 k e)

pub find_below-least :
    (test : ℕ → Bool) (n k j : ℕ) → find_below test n ≡ some k → j < k → test j ≡ false
unfolding find_below
find_below-least test n k j e lt = find_from-least test n 0 k j e (omega arith) lt

pub find_below-none :
    (test : ℕ → Bool) (n j : ℕ) → find_below test n ≡ none → j < n → test j ≡ false
unfolding find_below
find_below-none test n j e lt = find_from-none test n 0 j e (omega arith) (omega arith)

-- An index that passes is found, if it is the only one below `n`.
pub find_below_unique :
    (test : ℕ → Bool) (n k : ℕ)
    → k < n
    → test k ≡ true
    → ((j : ℕ) → j < n → test j ≡ true → j ≡ k)
    → find_below test n ≡ some k
find_below_unique test n k lt on only = elim (Option-cases (find_below test n)) [
  | inl e ↦ absurd (ground (arith, find_below-none test n k e lt))
  | inr (j, e) ↦ let (j_lt, j_on) = find_below-some test n j e in ground (arith, only j j_lt j_on)
]
