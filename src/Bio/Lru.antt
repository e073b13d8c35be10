-- ===== src/Bio/Lru.antt =====
-- The cache as a list of buffers: what `bget` and `brelse` do in terms of it.
use ssuos_mminos.Base.{
  ◌==◌, if◌then◌else◌, Bool-cases, update, length, length-append, has, ℕ, zero, suc, ◌+◌, ◌-◌, ◌<◌,
  ◌≡◌, refl, sym, ap, ◌∙◌, ◌↔◌, inl, inr, Bool, true, false, not, ◌&&◌, Option, none, some, List,
  [], ◌∷◌, ◌++◌, arith, reverse, length-reverse, has-append,
}
use mathlib.Core.Path.{subst}
use ssuos_mminos.Bio.{head, nbuf, Cache, binit, push_front, unlink, caches, unused, bget, brelse}
use ssuos_mminos.Bio.Ring.{Links, Distinct, first, Links-reverse, walk-first}
use ssuos_mminos.Bio.Order.{
  unlink-Links, push_front-Links, down, has-down, down-Distinct, init_loop-Links,
}

-- The list of the cache is `xs`, and has each buffer once.
pub record Ring (c : Cache) (xs : List ℕ) : Type 0 where
  pub links : Links c.next c.prev head xs head
  pub distinct : Distinct (head ∷ xs)
  pub all : (b : ℕ) → (has b xs ≡ true) ↔ (b < nbuf)
  pub size : length xs ≡ nbuf

length-down : (n : ℕ) → length (down n) ≡ n
length-down zero = refl
length-down (suc n) = ap suc (length-down n)

pub binit-Ring : (c : Cache) → Ring (binit c) (down nbuf)
unfolding binit Links
binit-Ring c = record {
  links =
      init_loop-Links nbuf 0
        (record c { next = update c.next head head; prev = update c.prev head head }) (omega arith)
        (ground arith, ground arith);
  distinct = down-Distinct (suc nbuf);
  all = λ b. has-down b nbuf;
  size = length-down nbuf;
}

pub first-some :
    (test : ℕ → Bool) (xs : List ℕ) (b : ℕ)
    → first test xs ≡ some b
    → (has b xs ≡ true) × (test b ≡ true)
first-some test [] b e = absurd (ground (arith, e))
first-some test (x ∷ xs) b e = elim (Bool-cases (test x)) [
  | inl on ↦ ground (arith, e, on)
  | inr off ↦ ground (arith, e, off, first-some test xs b)
]

pub first-none :
    (test : ℕ → Bool) (xs : List ℕ) (b : ℕ)
    → first test xs ≡ none
    → has b xs ≡ true
    → test b ≡ false
first-none test [] b e is = absurd (ground (arith, is))
first-none test (x ∷ xs) b e is = elim (Bool-cases (b == x)) [
  | inl same ↦ let at : b ≡ x = ground (arith, same) in rw at (ground (arith, e))
  | inr other ↦ ground (arith, e, is, other, first-none test xs b)
]

pub has-reverse : (x : ℕ) (xs : List ℕ) → has x (reverse xs) ≡ has x xs
has-reverse x [] = refl
has-reverse x (y ∷ xs) = ground (arith, has-append x (reverse xs) (y ∷ []), has-reverse x xs)

-- What `bget` is to do, for a cache in the order `xs`: a buffer with the block gets one reference more; a
-- buffer that is neither referenced nor dirty gets the block, one reference, and no valid contents.
abbrev pub bget_in : List ℕ → (dev blockno : ℕ) → Cache → Option (ℕ × Cache)
bget_in xs dev blockno c = elim (first (λ b. (c.dev b == dev) && (c.blockno b == blockno)) xs) [
  | some b ↦ some (b, record c { refcnt = λ i. if b == i then c.refcnt b + 1 else c.refcnt i })
  | none ↦ elim (first (λ b. (c.refcnt b == 0) && not (c.dirty b)) (reverse xs)) [
    | none ↦ none
    | some b ↦ some (
      b,
      record c {
        dev = λ i. if b == i then dev else c.dev i;
        blockno = λ i. if b == i then blockno else c.blockno i;
        valid = λ i. if b == i then false else c.valid i;
        dirty = λ i. if b == i then false else c.dirty i;
        refcnt = λ i. if b == i then 1 else c.refcnt i;
      },
    )
  ]
]

pub bget-bget_in :
    (c : Cache) (xs : List ℕ) (dev blockno : ℕ)
    → Ring c xs
    → bget dev blockno c ≡ bget_in xs dev blockno c
unfolding bget
bget-bget_in c xs dev blockno r =
    let forth =
      walk-first 31 head c.next c.prev (caches c dev blockno) xs r.distinct.0
        (omega (arith, r.size)) r.links in
    let back =
      walk-first 31 head c.prev c.next (unused c) (reverse xs) (has-reverse head xs ∙ r.distinct.0)
        (omega (arith, r.size, length-reverse {0} xs))
        (Links-reverse c.next c.prev head head xs r.links) in
    ground (arith, forth, back)

split : (b : ℕ) (xs : List ℕ) → has b xs ≡ true → (us vs : List ℕ) × (xs ≡ us ++ b ∷ vs)
split b [] is = absurd (ground (arith, is))
split b (x ∷ xs) is = elim (Bool-cases (b == x)) [
  | inl same ↦ ([], xs, ground (arith, same))
  | inr other ↦
      let (us, vs, e) = split b xs (ground (arith, is, other)) in (x ∷ us, vs, ap (λ ys. x ∷ ys) e)
]

Distinct-front : (b : ℕ) (us vs : List ℕ) → Distinct (us ++ b ∷ vs) → Distinct (b ∷ us ++ vs)
Distinct-front b [] vs d = d
Distinct-front b (u ∷ us) vs (new, d) =
    let (b_new, d') = Distinct-front b us vs d in
    (
      ground (arith, b_new, new, has-append u us (b ∷ vs)),
      (ground (arith, new, has-append u us (b ∷ vs), has-append u us vs), d'),
    )

-- The front of the list gets the buffer that is moved there.
moved-Ring :
    (b : ℕ) (c : Cache) (us vs : List ℕ)
    → Ring c (us ++ b ∷ vs)
    → Ring (push_front b (unlink b c)) (b ∷ us ++ vs)
moved-Ring b c us vs r =
    let off : has head (b ∷ us ++ vs) ≡ false =
      ground (arith, r.distinct.0, has-append head us (b ∷ vs), has-append head us vs) in
    let d : Distinct (head ∷ b ∷ us ++ vs) = (off, Distinct-front b us vs r.distinct.1) in
    record {
      links =
          push_front-Links b (unlink b c) (us ++ vs) d (unlink-Links b c us vs r.distinct r.links);
      distinct = d;
      all = λ x.
          let same : has x (b ∷ us ++ vs) ≡ has x (us ++ b ∷ vs) =
            ground (arith, has-append x us (b ∷ vs), has-append x us vs) in
          subst (λ (t : Bool). (t ≡ true) ↔ (x < nbuf)) (sym same) (r.all x);
      size = omega (arith, r.size, length-append {0} us (b ∷ vs), length-append {0} us vs);
    }

-- In a cache whose links stand for the list `xs`, `bget` gives the first buffer of `xs` with the block, with
-- one reference more; if there is none, it recycles the last buffer of `xs` that is neither referenced nor
-- dirty; and only if there is none either, it panics. A `brelse` of the last reference to a buffer moves
-- this buffer to the front of the list.
pub bget-lru :
    (c : Cache) (xs : List ℕ) (dev blockno : ℕ)
    → Ring c xs
    → (bget dev blockno c ≡ bget_in xs dev blockno c)
      × ((b : ℕ) (us vs : List ℕ)
          → xs ≡ us ++ b ∷ vs
          → c.locked b ≡ true
          → c.refcnt b ≡ 1
          → (c' : Cache) × (brelse b c ≡ some c') × (c'.refcnt b ≡ 0) × Ring c' (b ∷ us ++ vs))
unfolding brelse push_front unlink
bget-lru c xs dev blockno r = (
  bget-bget_in c xs dev blockno r,
  λ b us vs at held one.
      let c₁ = record c {
        locked = update c.locked b false;
        refcnt = update c.refcnt b (c.refcnt b - 1);
      } in
      let r₁ : Ring c₁ (us ++ b ∷ vs) =
        subst (Ring c₁) at
          (record { links = r.links; distinct = r.distinct; all = r.all; size = r.size }) in
      let zero_left : c₁.refcnt b ≡ 0 = ground (arith, one) in
      let last : (c₁.refcnt b == 0) ≡ true = ground (arith, zero_left) in
      (push_front b (unlink b c₁), rw (held, last) refl, zero_left, moved-Ring b c₁ us vs r₁),
)

-- `brelse` keeps the order, or moves the buffer to the front.
pub brelse-Ring :
    (b : ℕ) (c c' : Cache) (xs : List ℕ)
    → Ring c xs
    → b < nbuf
    → brelse b c ≡ some c'
    → (ys : List ℕ) × Ring c' ys
unfolding brelse
brelse-Ring b c c' xs r lt e =
    let c₁ = record c {
      locked = update c.locked b false;
      refcnt = update c.refcnt b (c.refcnt b - 1);
    } in
    let r₁ : Ring c₁ xs = record {
      links = r.links;
      distinct = r.distinct;
      all = r.all;
      size = r.size;
    } in
    elim (Bool-cases (c.locked b)) [
      | inr free ↦ absurd (ground (arith, e, free))
      | inl held ↦
          let ends : (if c₁.refcnt b == 0 then push_front b (unlink b c₁) else c₁) ≡ c' =
            ground (arith, e, held) in
          elim (Bool-cases (c₁.refcnt b == 0)) [
            | inr referenced ↦
                let same : c₁ ≡ c' = ground (arith, ends, referenced) in
                (xs, subst (λ (x : Cache). Ring x xs) same r₁)
            | inl last ↦
                let same : push_front b (unlink b c₁) ≡ c' = ground (arith, ends, last) in
                let (us, vs, at) = split b xs ((r.all b).1 lt) in
                let r₂ : Ring c₁ (us ++ b ∷ vs) = subst (Ring c₁) at r₁ in
                (
                  b ∷ us ++ vs,
                  subst (λ (x : Cache). Ring x (b ∷ us ++ vs)) same (moved-Ring b c₁ us vs r₂),
                )
          ]
    ]
