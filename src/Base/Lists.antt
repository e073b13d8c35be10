-- ===== src/Base/Lists.antt =====
-- Lists measured and indexed by native numbers, under the library's names.
use ssuos_mminos.Base.{}
use Prim.Native.Nat.{ℕ, zero, suc, ◌+◌, ◌-◌, ◌≤◌, ◌<◌, min}
use mathlib.Core.Path.{◌≡◌, refl, ap}
use mathlib.Core.Logic.{◌≢◌}
use mathlib.Core.Bool.{Bool, true, false, ◌||◌}
use mathlib.Core.List.{List, [], ◌∷◌, ◌++◌}
use native.Mathlib.Omega.{arith}
use ssuos_mminos.Base.Tests.{◌==◌, if◌then◌else◌}

module _ {ℓ} {A : Type ℓ} where
  abbrev pub length : List A → ℕ
  length [] = 0
  length (x ∷ xs) = suc (length xs)

  abbrev pub get_or : List A → ℕ → A → A
  get_or [] i d = d
  get_or (x ∷ xs) zero d = x
  get_or (x ∷ xs) (suc i) d = get_or xs i d

  -- A write out of bounds changes nothing.
  abbrev pub set : List A → ℕ → A → List A
  set [] i v = []
  set (x ∷ xs) zero v = v ∷ xs
  set (x ∷ xs) (suc i) v = x ∷ set xs i v

  abbrev pub take : ℕ → List A → List A
  take zero xs = []
  take (suc n) [] = []
  take (suc n) (x ∷ xs) = x ∷ take n xs

  abbrev pub drop : ℕ → List A → List A
  drop zero xs = xs
  drop (suc n) [] = []
  drop (suc n) (x ∷ xs) = drop n xs

  abbrev pub replicate : ℕ → A → List A
  replicate zero a = []
  replicate (suc n) a = a ∷ replicate n a

  abbrev pub reverse : List A → List A
  reverse [] = []
  reverse (x ∷ xs) = reverse xs ++ x ∷ []

  pub length-append : (xs ys : List A) → length (xs ++ ys) ≡ length xs + length ys
  length-append [] ys = omega arith
  length-append (x ∷ xs) ys = omega (arith, length-append xs ys)

module _ {ℓ} {A : Type ℓ} where
  pub length-reverse : (xs : List A) → length (reverse xs) ≡ length xs
  length-reverse [] = refl
  length-reverse (x ∷ xs) = omega (arith, length-append (reverse xs) (x ∷ []), length-reverse xs)

  pub length-set : (xs : List A) (i : ℕ) (v : A) → length (set xs i v) ≡ length xs
  length-set [] i v = refl
  length-set (x ∷ xs) zero v = refl
  length-set (x ∷ xs) (suc i) v = ap suc (length-set xs i v)

  pub length-take : (n : ℕ) (xs : List A) → length (take n xs) ≡ min n (length xs)
  length-take zero xs = omega arith
  length-take (suc n) [] = omega arith
  length-take (suc n) (x ∷ xs) = omega (arith, length-take n xs)

  pub length-drop : (n : ℕ) (xs : List A) → length (drop n xs) ≡ length xs - n
  length-drop zero xs = omega arith
  length-drop (suc n) [] = omega arith
  length-drop (suc n) (x ∷ xs) = omega (arith, length-drop n xs)

  pub length-replicate : (n : ℕ) (a : A) → length (replicate n a) ≡ n
  length-replicate zero a = refl
  length-replicate (suc n) a = ap suc (length-replicate n a)

  pub get_or-set_self :
      (xs : List A) (i : ℕ) (v d : A) → i < length xs → get_or (set xs i v) i d ≡ v
  get_or-set_self [] i v d h = absurd (omega arith)
  get_or-set_self (x ∷ xs) zero v d h = refl
  get_or-set_self (x ∷ xs) (suc i) v d h = get_or-set_self xs i v d (omega arith)

  pub get_or-set_ne :
      (xs : List A) {i j : ℕ} (v d : A) → i ≢ j → get_or (set xs i v) j d ≡ get_or xs j d
  get_or-set_ne [] v d h = refl
  get_or-set_ne (x ∷ xs) {i = zero} {j = zero} v d h = absurd (h refl)
  get_or-set_ne (x ∷ xs) {i = zero} {j = suc j} v d h = refl
  get_or-set_ne (x ∷ xs) {i = suc i} {j = zero} v d h = refl
  get_or-set_ne (x ∷ xs) {i = suc i} {j = suc j} v d h = get_or-set_ne xs v d (λ e. h (ap suc e))

-- Membership and removal of numbers, as computed tests.
abbrev pub has : ℕ → List ℕ → Bool
has i [] = false
has i (x ∷ xs) = (i == x) || has i xs

abbrev pub remove : ℕ → List ℕ → List ℕ
remove i [] = []
remove i (x ∷ xs) = if i == x then xs else x ∷ remove i xs

pub has-append : (x : ℕ) (xs ys : List ℕ) → has x (xs ++ ys) ≡ (has x xs || has x ys)
has-append x [] ys = refl
has-append x (y ∷ xs) ys = ground (arith, has-append x xs ys)

length-remove : (i : ℕ) (xs : List ℕ) → has i xs ≡ true → length xs ≡ suc (length (remove i xs))
length-remove i [] h = absurd (ground arith)
length-remove i (x ∷ xs) h = ground (arith, length-remove i xs)

has-remove : (i j : ℕ) (xs : List ℕ) → i ≢ j → has j xs ≡ true → has j (remove i xs) ≡ true
has-remove i j [] ne h = h
has-remove i j (x ∷ xs) ne h = ground (arith, has-remove i j xs)

-- A list that holds all numbers below `m` has at least `m` entries.
pub le-length_of_has : (m : ℕ) (xs : List ℕ) → ((i : ℕ) → i < m → has i xs ≡ true) → m ≤ length xs
le-length_of_has zero xs h = omega arith
le-length_of_has (suc m) xs h = omega (
  arith,
  length-remove m xs (h m (omega arith)),
  le-length_of_has m (remove m xs) (λ i lt. has-remove m i xs (omega arith) (h i (omega arith))),
)
