-- ===== src/Printf/Numbers.antt =====
-- Numbers are printed so that they can be read again, and `buf` has room for them.
use Prim.{Unit}
use ssuos_mminos.Base.{
  leb, ◌==◌, Bool-cases, length, length-append, ℕ, zero, suc, ◌+◌, ◌-◌, ◌*◌, ◌/◌, ◌%◌, ◌≤◌, ◌<◌,
  ◌≡◌, refl, ap, ◌∙◌, ◌⊎◌, inl, inr, Bool, false, ◌&&◌, List, [], ◌∷◌, ◌++◌, map, arith, minus,
  reverse, append_assoc,
}
use ssuos_mminos.Printf.{upper, digits, buffer, printint, atoi_from, atoi}

-- The text does not go on with a digit.
abbrev pub NoDigit : List ℕ → Type 0
NoDigit [] = Unit {0}
NoDigit (c ∷ cs) = (leb 48 c && leb c 57) ≡ false

abbrev pub pow : ℕ → ℕ → ℕ
pow b zero = 1
pow b (suc k) = b * pow b k

atoi_from-stop : (n : ℕ) (rest : List ℕ) → NoDigit rest → atoi_from n rest ≡ n
unfolding atoi_from
atoi_from-stop n [] stop = refl
atoi_from-stop n (c ∷ cs) stop = ground (arith, stop)

atoi_from-digit :
    (n d : ℕ) (rest : List ℕ) → d < 10 → atoi_from n (upper d ∷ rest) ≡ atoi_from (n * 10 + d) rest
unfolding atoi_from
atoi_from-digit n d rest lt =
    let next : n * 10 + (48 + d - 48) ≡ n * 10 + d = omega arith in ground (arith, lt, next)

map-append : (f : ℕ → ℕ) (xs ys : List ℕ) → map f (xs ++ ys) ≡ map f xs ++ map f ys
map-append f [] ys = refl
map-append f (x ∷ xs) ys = ap (λ l. f x ∷ l) (map-append f xs ys)

atoi_from-digits :
    (n x : ℕ) (rest : List ℕ)
    → x < pow 2 n
    → 0 < n
    → atoi_from 0 (reverse (map upper (digits n 10 x)) ++ rest) ≡ atoi_from x rest
unfolding digits
atoi_from-digits zero x rest lt go = absurd (omega (arith, go))
atoi_from-digits (suc n) x rest lt go = elim (Bool-cases (x / 10 == 0)) [
  | inl last ↦
      let small : 0 * 10 + x % 10 ≡ x = ground (arith, last) in
      rw last (atoi_from-digit 0 (x % 10) rest (omega arith) ∙ ap (λ y. atoi_from y rest) small)
  | inr more ↦
      let left : 0 < n = left_rounds n more lt in
      let shorter : x / 10 < pow 2 n = omega (arith, lt) in
      let front = reverse (map upper (digits n 10 (x / 10))) in
      let whole : x / 10 * 10 + x % 10 ≡ x = omega arith in
      rw more (
        ap (atoi_from 0) (append_assoc front (upper (x % 10) ∷ []) rest)
        ∙ atoi_from-digits n (x / 10) (upper (x % 10) ∷ rest) shorter left
        ∙ atoi_from-digit (x / 10) (x % 10) rest (omega arith)
        ∙ ap (λ y. atoi_from y rest) whole)
]
  where
    left_rounds : (n : ℕ) → (x / 10 == 0) ≡ false → x < 2 * pow 2 n → 0 < n
    left_rounds zero more lt = absurd (ground (arith, more, lt))
    left_rounds (suc n) more lt = omega arith

-- `atoi` reads a number below 2 ^ 31 that `printint` has printed in base 10, signed or not, when no digit
-- follows it.
pub atoi-printint :
    (x : ℕ) (sgn : Bool) (rest : List ℕ)
    → x < 2147483648
    → NoDigit rest
    → atoi (printint upper x 10 sgn ++ rest) ≡ x
unfolding atoi printint buffer
atoi-printint x sgn rest lt stop =
    let positive : (sgn && leb 2147483648 x) ≡ false = ground (arith, lt) in
    rw positive
      (atoi_from-digits 32 x rest (omega (arith, lt)) (omega arith) ∙ atoi_from-stop x rest stop)

pub length-map : (f : ℕ → ℕ) (xs : List ℕ) → length (map f xs) ≡ length xs
length-map f [] = refl
length-map f (x ∷ xs) = ap suc (length-map f xs)

pub length-digits_ten : (n k x : ℕ) → x < pow 10 (suc k) → length (digits n 10 x) ≤ suc k
unfolding digits
length-digits_ten zero k x lt = omega arith
length-digits_ten (suc n) zero x lt = ground (arith, lt)
length-digits_ten (suc n) (suc k) x lt = ground (arith, lt, length-digits_ten n k (x / 10))

length-digits_sixteen : (n k x : ℕ) → x < pow 16 (suc k) → length (digits n 16 x) ≤ suc k
unfolding digits
length-digits_sixteen zero k x lt = omega arith
length-digits_sixteen (suc n) zero x lt = ground (arith, lt)
length-digits_sixteen (suc n) (suc k) x lt = ground (arith, lt, length-digits_sixteen n k (x / 16))

digits-short :
    (x base : ℕ) → x ≤ 4294967296 → (base ≡ 10) ⊎ (base ≡ 16) → length (digits 32 base x) ≤ 10
digits-short x base le (inl ten) = rw ten (length-digits_ten 32 9 x (omega (arith, le)))
digits-short x base le (inr sixteen) = rw sixteen (length-digits_sixteen 32 9 x (omega (arith, le)))

-- Whatever the word, the digits in base 10 or 16 and the sign fit into the 16 bytes of `buf`.
pub buffer-fits :
    (digit : ℕ → ℕ) (xx base : ℕ) (sgn : Bool)
    → xx < 4294967296
    → (base ≡ 10) ⊎ (base ≡ 16)
    → length (buffer digit xx base sgn) ≤ 16
unfolding buffer
buffer-fits digit xx base sgn lt is = elim (Bool-cases (sgn && leb 2147483648 xx)) [
  | inl minus ↦
      let number = map digit (digits 32 base (4294967296 - xx)) in
      rw minus (
        omega (
          arith,
          length-append {0} number (b'-' ∷ []),
          length-map digit (digits 32 base (4294967296 - xx)),
          digits-short (4294967296 - xx) base (omega arith) is,
        ))
  | inr plain ↦ rw plain (
      omega
        (arith, length-map digit (digits 32 base xx), digits-short xx base (omega (arith, lt)) is))
]
