-- ===== src/Console/Cells.antt =====
-- The cells of the ring as two lists: what has been handed over, and the line that is being edited.
use ssuos_mminos.Base.{
  length, get_or, ℕ, zero, suc, ◌+◌, ◌-◌, ◌%◌, ◌≤◌, ◌<◌, ◌≡◌, refl, List, [], ◌∷◌, ◌++◌, arith,
}
use ssuos_mminos.Console.{Input}

pub record Holds (c : Input) (q l : List ℕ) : Type 0 where
  pub r_fits : c.r < 4294967296
  pub w_at : c.w ≡ (c.r + length q) % 4294967296
  pub e_at : c.e ≡ (c.r + (length q + length l)) % 4294967296
  pub room : length q + length l ≤ 128
  pub cells : (i : ℕ) → i < length q + length l → c.buf ((c.r + i) % 128) ≡ get_or (q ++ l) i 0

-- The list but for its last element.
abbrev pub init : List ℕ → List ℕ
init [] = []
init (x ∷ []) = []
init (x ∷ y ∷ xs) = x ∷ init (y ∷ xs)

pub length-init : (xs : List ℕ) → length (init xs) ≡ length xs - 1
length-init [] = refl
length-init (x ∷ []) = refl
length-init (x ∷ y ∷ xs) = omega (arith, length-init (y ∷ xs))

get_or-init : (xs : List ℕ) (i : ℕ) → i < length (init xs) → get_or (init xs) i 0 ≡ get_or xs i 0
get_or-init [] i lt = absurd (omega (arith, lt))
get_or-init (x ∷ []) i lt = absurd (omega (arith, lt))
get_or-init (x ∷ y ∷ xs) zero lt = refl
get_or-init (x ∷ y ∷ xs) (suc i) lt = get_or-init (y ∷ xs) i (omega (arith, lt))

pub get_or-append_left :
    (xs ys : List ℕ) (i : ℕ) → i < length xs → get_or (xs ++ ys) i 0 ≡ get_or xs i 0
get_or-append_left [] ys i lt = absurd (omega (arith, lt))
get_or-append_left (x ∷ xs) ys zero lt = refl
get_or-append_left (x ∷ xs) ys (suc i) lt = get_or-append_left xs ys i (omega (arith, lt))

pub get_or-append_right :
    (xs ys : List ℕ) (i : ℕ) → get_or (xs ++ ys) (length xs + i) 0 ≡ get_or ys i 0
get_or-append_right [] ys i = let e : 0 + i ≡ i = omega arith in rw e refl
get_or-append_right (x ∷ xs) ys i =
    let e : suc (length xs) + i ≡ suc (length xs + i) = omega arith in
    rw e (get_or-append_right xs ys i)

-- Behind `q`, the list but for its last element is a part of the whole.
pub get_or-append-init :
    (q l : List ℕ) (i : ℕ)
    → i < length q + length (init l)
    → get_or (q ++ init l) i 0 ≡ get_or (q ++ l) i 0
get_or-append-init [] l i lt = get_or-init l i (omega (arith, lt))
get_or-append-init (x ∷ q) l zero lt = refl
get_or-append-init (x ∷ q) l (suc i) lt = get_or-append-init q l i (omega (arith, lt))
