-- ===== src/Bio/Order.antt =====
-- What `unlink`, `push_front` and `binit` make of the list.
use Prim.{tt}
use ssuos_mminos.Base.{
  ◌==◌, Bool-cases, update, has, ℕ, zero, suc, ◌+◌, ◌≤◌, ◌<◌, ◌≡◌, sym, ◌↔◌, inl, inr, true, false,
  List, [], ◌∷◌, ◌++◌, arith, append-nil, has-append,
}
use mathlib.Core.Path.{subst}
use ssuos_mminos.Bio.{head, Cache, push_front, unlink, init_loop}
use ssuos_mminos.Bio.Ring.{Links, Distinct, Links-frame, Links-split, Links-join}

Distinct-left : (xs ys : List ℕ) → Distinct (xs ++ ys) → Distinct xs
Distinct-left [] ys d = tt
Distinct-left (x ∷ xs) ys (new, d) =
    (ground (arith, new, has-append x xs ys), Distinct-left xs ys d)

Distinct-right : (xs ys : List ℕ) → Distinct (xs ++ ys) → Distinct ys
Distinct-right [] ys d = d
Distinct-right (x ∷ xs) ys (new, d) = Distinct-right xs ys d

Distinct-apart : (x : ℕ) (xs ys : List ℕ) → Distinct (xs ++ ys) → has x xs ≡ true → has x ys ≡ false
Distinct-apart x [] ys d is = absurd (ground (arith, is))
Distinct-apart x (y ∷ xs) ys (new, d) is = elim (Bool-cases (x == y)) [
  | inl e ↦ ground (arith, e, new, has-append y xs ys)
  | inr ne ↦ ground (arith, ne, is, Distinct-apart x xs ys d)
]

-- The end is linked back to a buffer of the list, or to its start.
Links-last : (n p : ℕ → ℕ) (a e : ℕ) (xs : List ℕ) → Links n p a xs e → has (p e) (a ∷ xs) ≡ true
unfolding Links
Links-last n p a e [] (to, back) = ground (arith, back)
Links-last n p a e (x ∷ xs) (to, back, rest) = ground (arith, Links-last n p x e xs rest)

Links-next :
    (n p : ℕ → ℕ) (a e : ℕ) (xs : List ℕ) → Links n p a xs e → has (n a) (xs ++ e ∷ []) ≡ true
unfolding Links
Links-next n p a e [] (to, back) = ground (arith, to)
Links-next n p a e (x ∷ xs) (to, back, rest) = ground (arith, to)

-- The end `e` becomes the end `e'`.
relink_end :
    (n p : ℕ → ℕ) (a e e' : ℕ) (xs : List ℕ)
    → Distinct (a ∷ xs)
    → has e' xs ≡ false
    → Links n p a xs e
    → Links (update n (p e) e') (update p e' (p e)) a xs e'
unfolding Links
relink_end n p a e e' [] d off (to, back) = (ground (arith, back), ground (arith, back))
relink_end n p a e e' (x ∷ xs) (new, d) off (to, back, rest) = (
  ground (arith, to, new, Links-last n p x e xs rest),
  ground (arith, back, off),
  relink_end n p x e e' xs d (ground (arith, off)) rest,
)

relinked :
    (n p : ℕ → ℕ) (b : ℕ) (xs ys : List ℕ)
    → Distinct (head ∷ xs ++ b ∷ ys)
    → Links n p head (xs ++ b ∷ ys) head
    → Links (update n (p b) (n b)) (update p (n b) (p b)) head (xs ++ ys) head
unfolding Links
relinked n p b xs [] d l =
    let (left, (to, back)) = Links-split n p head b head xs [] l in
    let d' : Distinct (head ∷ xs) = Distinct-left (head ∷ xs) (b ∷ []) d in
    rw (append-nil xs, to) (relink_end n p head b head xs d' d'.0 left)
relinked n p b xs (y ∷ ys) d l =
    let (left, (to, back, right)) = Links-split n p head b head xs (y ∷ ys) l in
    let d' : Distinct (head ∷ xs) = Distinct-left (head ∷ xs) (b ∷ y ∷ ys) d in
    let (b_new, (y_new, d'')) = Distinct-right (head ∷ xs) (b ∷ y ∷ ys) d in
    let apart = λ (x : ℕ). Distinct-apart x (head ∷ xs) (b ∷ y ∷ ys) d in
    let last = Links-last n p head b xs left in
    let y_off : has y xs ≡ false = ground (arith, apart y) in
    let head_off : has head (y ∷ ys) ≡ false = ground (arith, apart head) in
    rw to (
      Links-join (update n (p b) y) (update p y (p b)) head y head xs ys
        (relink_end n p head b y xs d' y_off left)
        (Links-frame n p (update n (p b) y) (update p y (p b)) y head ys
          (λ x is. ground (arith, is, last, apart (p b)))
          (λ x is. ground (arith, is, y_new, head_off, has-append x ys (head ∷ []))) right))

pub unlink-Links :
    (b : ℕ) (c : Cache) (xs ys : List ℕ)
    → Distinct (head ∷ xs ++ b ∷ ys)
    → Links c.next c.prev head (xs ++ b ∷ ys) head
    → Links (unlink b c).next (unlink b c).prev head (xs ++ ys) head
unfolding unlink
unlink-Links b c xs ys d l =
    let same : update c.prev (c.next b) (c.prev b) b ≡ c.prev b = ground arith in
    rw same (relinked c.next c.prev b xs ys d l)

pub push_front-Links :
    (b : ℕ) (c : Cache) (zs : List ℕ)
    → Distinct (head ∷ b ∷ zs)
    → Links c.next c.prev head zs head
    → Links (push_front b c).next (push_front b c).prev head (b ∷ zs) head
unfolding push_front Links
push_front-Links b c zs d l =
    let same : update c.next b (c.next head) head ≡ c.next head = ground arith in
    subst
      (λ q.
        Links (update (update c.next b (c.next head)) head b) (update (update c.prev b head) q b)
          head (b ∷ zs) head)
      (sym same) (pushed c.next c.prev b zs d l)
  where
    pushed :
        (n p : ℕ → ℕ) (b : ℕ) (zs : List ℕ)
        → Distinct (head ∷ b ∷ zs)
        → Links n p head zs head
        → Links
            (update (update n b (n head)) head b)
            (update (update p b head) (n head) b)
            head
            (b ∷ zs)
            head
    pushed n p b [] (off, (new, d)) (to, back) = ground (arith, off, to)
    pushed n p b (z ∷ zs) (off, (new, d)) (to, back, rest) = (
      ground arith,
      ground (arith, to, new),
      (
        ground (arith, to, off),
        ground (arith, to),
        Links-frame n p (update (update n b (n head)) head b) (update (update p b head) (n head) b)
            z head zs (λ x is. ground (arith, is, off, new))
            (λ x is. ground (arith, is, off, new, d, to, has-append x zs (head ∷ []))) rest,
      ),
    )

-- The buffers below `n`, the last one first.
abbrev pub down : ℕ → List ℕ
down zero = []
down (suc n) = n ∷ down n

pub has-down : (x n : ℕ) → (has x (down n) ≡ true) ↔ (x < n)
has-down x n = (to x n, from x n)
  where
    to : (x n : ℕ) → has x (down n) ≡ true → x < n
    to x zero is = absurd (ground (arith, is))
    to x (suc n) is = ground (arith, is, to x n)

    from : (x n : ℕ) → x < n → has x (down n) ≡ true
    from x zero lt = absurd (omega (arith, lt))
    from x (suc n) lt = ground (arith, lt, from x n)

pub down-Distinct : (n : ℕ) → Distinct (down n)
down-Distinct zero = tt
down-Distinct (suc n) = (ground (arith, (has-down n n).0), down-Distinct n)

pub init_loop-Links :
    (k b : ℕ) (c : Cache)
    → b + k ≤ head
    → Links c.next c.prev head (down b) head
    → Links (init_loop k b c).next (init_loop k b c).prev head (down (b + k)) head
unfolding init_loop
init_loop-Links zero b c le l = let e : b + 0 ≡ b = omega arith in rw e l
init_loop-Links (suc k) b c le l =
    let d : Distinct (head ∷ b ∷ down b) =
      (ground (arith, le, (has-down head b).0), down-Distinct (suc b)) in
    let e : suc b + k ≡ b + suc k = omega arith in
    let e' : b + 1 ≡ suc b = omega arith in
    subst
      (λ m.
        Links (init_loop k m (push_front b c)).next (init_loop k m (push_front b c)).prev head
          (down (b + suc k)) head)
      (sym e')
      (rw (← e) (
        init_loop-Links k (suc b) (push_front b c) (omega (arith, le))
          (push_front-Links b c (down b) d l)))
