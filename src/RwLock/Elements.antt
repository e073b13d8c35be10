-- ===== src/RwLock/Elements.antt =====
-- 설계 4/2/rw_lock.c: the greatest and the least of an array of `long`s. A pointer into the array is its
-- index, and `n` is `end - start`.
use ssuos_mminos.Base.{
  ℤ, pos, negsuc, ltb, if◌then◌else◌, Bool-cases, ℕ, zero, suc, ◌+◌, ◌-◌, ◌<◌, ◌≡◌, refl, ap, ◌∙◌,
  inl, inr, Bool, true, false, arith,
}
use native.Mathlib.Decide.{ℕ_discrete}
use mathlib.Core.Path.{subst}

unfoldable pub less : ℤ → ℤ → Bool
less (pos a) (pos b) = ltb a b
less (pos a) (negsuc b) = false
less (negsuc a) (pos b) = true
less (negsuc a) (negsuc b) = ltb b a

-- The loop with a test whether the element at `i` is to be taken in place of the one so far.
abbrev pub pick_from : (better : ℤ → ℤ → Bool) (start : ℕ → ℤ) (rounds i best : ℕ) → ℕ
pick_from better start zero i best = best
pick_from better start (suc n) i best =
    pick_from better start n (i + 1) (if better (start best) (start i) then i else best)

unfoldable pub max_element : (start : ℕ → ℤ) (n : ℕ) → ℕ
max_element start n = pick_from (λ x y. less x y) start (n - 1) 1 0

unfoldable pub min_element : (start : ℕ → ℤ) (n : ℕ) → ℕ
min_element start n = pick_from (λ x y. less y x) start (n - 1) 1 0

-- What is picked is in the array, and nothing there is better.
pick_from-best :
    (better : ℤ → ℤ → Bool) (start : ℕ → ℤ) (rounds i best j : ℕ)
    → ((x y z : ℤ) → better x y ≡ true → better x z ≡ false → better y z ≡ false)
    → ((x : ℤ) → better x x ≡ false)
    → best < i
    → ((k : ℕ) → k < i → better (start best) (start k) ≡ false)
    → j < i + rounds
    → (pick_from better start rounds i best < i + rounds)
      × (better (start (pick_from better start rounds i best)) (start j) ≡ false)
pick_from-best better start zero i best j trans self lt none_better below =
    (omega arith, none_better j (omega arith))
pick_from-best better start (suc n) i best j trans self lt none_better below =
    elim (Bool-cases (better (start best) (start i))) [
      | inl yes_better ↦
          let (inside, last) =
            pick_from-best better start n (i + 1) i j trans self (omega arith)
              (λ k hk. elim (ℕ_discrete k i) [
                | yes same ↦ ap (λ x. better (start i) (start x)) same ∙ self (start i)
                | no before ↦
                    trans (start best) (start i) (start k) yes_better (none_better k (omega arith))
              ])
              (omega arith) in
          rw yes_better (omega (arith, inside), last)
      | inr no_better ↦
          let (inside, last) =
            pick_from-best better start n (i + 1) best j trans self (omega arith)
              (λ k hk. elim (ℕ_discrete k i) [
                | yes same ↦ ap (λ x. better (start best) (start x)) same ∙ no_better
                | no before ↦ none_better k (omega arith)
              ])
              (omega arith) in
          rw no_better (omega (arith, inside), last)
    ]

less_trans : (x y z : ℤ) → less x y ≡ true → less x z ≡ false → less y z ≡ false
unfolding less
less_trans (pos a) (pos b) (pos c) e f = ground (arith, e, f)
less_trans (pos a) (pos b) (negsuc c) e f = refl
less_trans (pos a) (negsuc b) z e f = absurd (ground (arith, e))
less_trans (negsuc a) (pos b) (pos c) e f = absurd (ground (arith, f))
less_trans (negsuc a) (pos b) (negsuc c) e f = refl
less_trans (negsuc a) (negsuc b) (pos c) e f = absurd (ground (arith, f))
less_trans (negsuc a) (negsuc b) (negsuc c) e f = ground (arith, e, f)

greater_trans : (x y z : ℤ) → less y x ≡ true → less z x ≡ false → less z y ≡ false
unfolding less
greater_trans (pos a) (pos b) (pos c) e f = ground (arith, e, f)
greater_trans (pos a) y (negsuc c) e f = absurd (ground (arith, f))
greater_trans (pos a) (negsuc b) (pos c) e f = refl
greater_trans (negsuc a) (pos b) z e f = absurd (ground (arith, e))
greater_trans (negsuc a) (negsuc b) (pos c) e f = refl
greater_trans (negsuc a) (negsuc b) (negsuc c) e f = ground (arith, e, f)

less_self : (x : ℤ) → less x x ≡ false
unfolding less
less_self (pos a) = ground arith
less_self (negsuc a) = ground arith

-- In an array that is not empty, no element is greater than the one of `max_element`, and none less
-- than the one of `min_element`; both are in the array.
pub elements-best :
    (start : ℕ → ℤ) (n i : ℕ)
    → i < n
    → (max_element start n < n)
      × (less (start (max_element start n)) (start i) ≡ false)
      × (min_element start n < n)
      × (less (start i) (start (min_element start n)) ≡ false)
unfolding max_element min_element
elements-best start n i lt =
    let (max_in, max_last) =
      pick_from-best (λ x y. less x y) start (n - 1) 1 0 i less_trans less_self (omega arith)
        (λ k hk. at_zero (λ x. less (start 0) (start x) ≡ false) k hk (less_self (start 0)))
        (omega arith) in
    let (min_in, min_last) =
      pick_from-best (λ x y. less y x) start (n - 1) 1 0 i greater_trans less_self (omega arith)
        (λ k hk. at_zero (λ x. less (start x) (start 0) ≡ false) k hk (less_self (start 0)))
        (omega arith) in
    (omega (arith, max_in), max_last, omega (arith, min_in), min_last)
  where
    at_zero : (P : ℕ → Type 0) (k : ℕ) → k < 1 → P 0 → P k
    at_zero P k hk v = subst P (omega (arith, hk)) v
