-- ===== src/Bio/Ring.antt =====
-- The links of the list as a list of buffers.
use ssuos_mminos.Base.{
  if◌then◌else◌, length, has, ℕ, zero, suc, ◌<◌, ◌≡◌, ◌∙◌, Bool, true, false, Option, none, some,
  List, [], ◌∷◌, ◌++◌, arith, reverse,
}
use Prim.{Unit}
use ssuos_mminos.Bio.{head, walk}

-- From `a` through `xs` to `e`, and back.
unfoldable pub Links : (next prev : ℕ → ℕ) → ℕ → List ℕ → ℕ → Type 0
Links next prev a [] e = (next a ≡ e) × (prev e ≡ a)
Links next prev a (x ∷ xs) e = (next a ≡ x) × (prev x ≡ a) × Links next prev x xs e

-- No number stands twice in the list.
abbrev pub Distinct : List ℕ → Type 0
Distinct [] = Unit {0}
Distinct (x ∷ xs) = (has x xs ≡ false) × Distinct xs

-- Links stay where the new functions agree with the old ones on what they read.
pub Links-frame :
    (n p n' p' : ℕ → ℕ) (a e : ℕ) (xs : List ℕ)
    → ((x : ℕ) → has x (a ∷ xs) ≡ true → n' x ≡ n x)
    → ((x : ℕ) → has x (xs ++ e ∷ []) ≡ true → p' x ≡ p x)
    → Links n p a xs e
    → Links n' p' a xs e
unfolding Links
Links-frame n p n' p' a e [] same_n same_p (to, back) =
    (same_n a (ground arith) ∙ to, same_p e (ground arith) ∙ back)
Links-frame n p n' p' a e (x ∷ xs) same_n same_p (to, back, rest) = (
  same_n a (ground arith) ∙ to,
  same_p x (ground arith) ∙ back,
  Links-frame n p n' p' x e xs (λ y is. same_n y (ground (arith, is)))
      (λ y is. same_p y (ground (arith, is))) rest,
)

pub Links-split :
    (n p : ℕ → ℕ) (a b e : ℕ) (xs ys : List ℕ)
    → Links n p a (xs ++ b ∷ ys) e
    → Links n p a xs b × Links n p b ys e
unfolding Links
Links-split n p a b e [] ys (to, back, rest) = ((to, back), rest)
Links-split n p a b e (x ∷ xs) ys (to, back, rest) =
    let (left, right) = Links-split n p x b e xs ys rest in ((to, back, left), right)

pub Links-join :
    (n p : ℕ → ℕ) (a b e : ℕ) (xs ys : List ℕ)
    → Links n p a xs b
    → Links n p b ys e
    → Links n p a (xs ++ b ∷ ys) e
unfolding Links
Links-join n p a b e [] ys (to, back) right = (to, back, right)
Links-join n p a b e (x ∷ xs) ys (to, back, rest) right =
    (to, back, Links-join n p x b e xs ys rest right)

-- The list can be walked from either end.
pub Links-reverse :
    (n p : ℕ → ℕ) (a e : ℕ) (xs : List ℕ) → Links n p a xs e → Links p n e (reverse xs) a
unfolding Links
Links-reverse n p a e [] (to, back) = (back, to)
Links-reverse n p a e (x ∷ xs) (to, back, rest) =
    Links-join p n e x a (reverse xs) [] (Links-reverse n p x e xs rest) (back, to)

-- The first buffer of the list that passes.
abbrev pub first : (ℕ → Bool) → List ℕ → Option ℕ
first test [] = none
first test (x ∷ xs) = if test x then some x else first test xs

pub walk-first :
    (fuel a : ℕ) (n p : ℕ → ℕ) (test : ℕ → Bool) (xs : List ℕ)
    → has head xs ≡ false
    → length xs < fuel
    → Links n p a xs head
    → walk fuel n test (n a) ≡ some (first test xs)
unfolding walk Links
walk-first zero a n p test xs off enough l = absurd (omega (arith, enough))
walk-first (suc fuel) a n p test [] off enough (to, back) = ground (arith, to)
walk-first (suc fuel) a n p test (x ∷ xs) off enough (to, back, rest) =
    let later = walk-first fuel x n p test xs (ground (arith, off)) (omega (arith, enough)) rest in
    rw to (ground (arith, later, off))
