-- ===== src/Page/SpecLaws.antt =====
-- Laws of the abstract allocator: freeing undoes first fit, and what first fit hands out overlaps
-- no busy block.
use ssuos_mminos.Base.{
  ◌==◌, Bool-cases, Option-cases, ℕ, ◌+◌, ◌-◌, ◌≤◌, ◌<◌, ◌≡◌, refl, sym, ap, ◌∙◌, ◌≢◌, ◌⊎◌, inl,
  inr, true, false, some, List, [], ◌∷◌, arith,
}
use ssuos_mminos.Page.Spec.{
  Block, block, carve, fits, first_fit, free_at, join, coalesce, coalesce-merge,
}

-- Blocks of positive size that follow one another from `a` to `e`.
abbrev pub Tiled : ℕ → List Block → ℕ → Type 0
Tiled a [] e = a ≡ e
Tiled a (b ∷ bs) e = (b.addr ≡ a) × (0 < b.size) × Tiled (a + b.size) bs e

-- every busy block lies before `a` or from `a + n` on
abbrev pub Clear : ℕ → ℕ → List Block → Type 0
Clear a n [] = Unit {0}
Clear a n (b ∷ bs) = (b.busy ≡ true → (b.addr + b.size ≤ a) ⊎ (a + n ≤ b.addr)) × Clear a n bs

Tiled-le : (at : ℕ) (bs : List Block) (e : ℕ) → Tiled at bs e → at ≤ e
Tiled-le at [] e t = omega arith
Tiled-le at (b ∷ bs) e (_, _, t) = omega (arith, Tiled-le (at + b.size) bs e t)

not-first_fit-nil : (n a : ℕ) (bs' : List Block) → ¬ (first_fit n [] ≡ some (a, bs'))
unfolding first_fit
not-first_fit-nil n a bs' h = cc

-- Where a first fit was found.
first_fit-inv :
    (n : ℕ) (b : Block) (bs : List Block) (a : ℕ) (bs' : List Block)
    → first_fit n (b ∷ bs) ≡ some (a, bs')
    → ((fits n b ≡ true) × (a ≡ b.addr) × (bs' ≡ carve n b bs))
      ⊎ ((rest : List Block) × (first_fit n bs ≡ some (a, rest)) × (bs' ≡ b ∷ rest))
unfolding first_fit
first_fit-inv n b bs a bs' h = elim (Bool-cases (fits n b)) [
  | inl fit ↦ inl (fit, ground arith, ground arith)
  | inr unfit ↦ elim (Option-cases (first_fit n bs)) [
    | inl miss ↦ absurd (ground arith)
    | inr ((a', rest), found) ↦ inr (rest, ground arith, ground arith)
  ]
]

-- The bytes handed out lie in the page.
pub first_fit-range :
    (n at : ℕ) (bs : List Block) (e a : ℕ) (bs' : List Block)
    → Tiled at bs e
    → first_fit n bs ≡ some (a, bs')
    → (at ≤ a) × (a + n ≤ e)
first_fit-range n at [] e a bs' t h = absurd (not-first_fit-nil n a bs' h)
first_fit-range n at (b ∷ bs) e a bs' (at_b, pos, t) h = elim (first_fit-inv n b bs a bs' h) [
  | inl (fit, here, _) ↦ ground (arith, Tiled-le (at + b.size) bs e t)
  | inr (rest, later, _) ↦ omega (arith, first_fit-range n (at + b.size) bs e a rest t later)
]

Clear-after : (n a at : ℕ) (bs : List Block) (e : ℕ) → Tiled at bs e → a + n ≤ at → Clear a n bs
Clear-after n a at [] e t le = tt
Clear-after n a at (b ∷ bs) e (at_b, pos, t) le =
    (λ busy. ground arith, Clear-after n a (at + b.size) bs e t (omega arith))

-- The bytes handed out overlap no busy block.
pub first_fit-Clear :
    (n at : ℕ) (bs : List Block) (e a : ℕ) (bs' : List Block)
    → Tiled at bs e
    → first_fit n bs ≡ some (a, bs')
    → Clear a n bs
first_fit-Clear n at [] e a bs' t h = absurd (not-first_fit-nil n a bs' h)
first_fit-Clear n at (b ∷ bs) e a bs' (at_b, pos, t) h = elim (first_fit-inv n b bs a bs' h) [
  | inl (fit, here, _) ↦ (λ busy. ground arith, Clear-after n a (at + b.size) bs e t (ground arith))
  | inr (rest, later, _) ↦ (
    λ busy. inl (omega (arith, first_fit-range n (at + b.size) bs e a rest t later)),
    first_fit-Clear n (at + b.size) bs e a rest t later,
  )
]

free_at-head :
    (a : ℕ) (b : Block) (bs : List Block)
    → b.addr ≡ a
    → free_at a (b ∷ bs) ≡ block b.addr b.size false ∷ bs
unfolding free_at
free_at-head a b bs e = ground arith

free_at-tail :
    (a : ℕ) (b : Block) (bs : List Block) → b.addr ≢ a → free_at a (b ∷ bs) ≡ b ∷ free_at a bs
unfolding free_at
free_at-tail a b bs e = ground arith

coalesce-cons :
    (b : Block) (bs bs' : List Block)
    → coalesce bs ≡ coalesce bs'
    → coalesce (b ∷ bs) ≡ coalesce (b ∷ bs')
unfolding coalesce
coalesce-cons b bs bs' e = ap (join b) e

-- Freeing what first fit handed out gives the blocks from before, coalesced.
pub free_at-first_fit :
    (n at : ℕ) (bs : List Block) (e a : ℕ) (bs' : List Block)
    → Tiled at bs e
    → first_fit n bs ≡ some (a, bs')
    → coalesce (free_at a bs') ≡ coalesce bs
free_at-first_fit n at [] e a bs' t h = absurd (not-first_fit-nil n a bs' h)
free_at-first_fit n at (b ∷ bs) e a bs' (at_b, pos, t) h = elim (first_fit-inv n b bs a bs' h) [
  | inl (fit, here, out) ↦ elim (Bool-cases (b.size == n)) [
    | inl exact ↦
        let free : block b.addr n false ≡ b = ground arith in
        rw (out, exact, here)
          (rw (free_at-head b.addr (block b.addr n true) bs refl)
            (ap (λ x. coalesce (x ∷ bs)) free))
    | inr larger ↦
        let whole : block b.addr (n + (b.size - n)) false ≡ b = ground arith in
        rw (out, larger, here)
          (rw
            (free_at-head b.addr (block b.addr n true) (block (b.addr + n) (b.size - n) false ∷ bs)
              refl)
            (sym (
                coalesce-merge (block b.addr n false) (block (b.addr + n) (b.size - n) false) bs
                  refl refl)
              ∙ ap (λ x. coalesce (x ∷ bs)) whole))
  ]
  | inr (rest, later, out) ↦
      let beyond = first_fit-range n (at + b.size) bs e a rest t later in
      rw (out, free_at-tail a b rest (omega arith))
        (coalesce-cons b (free_at a rest) bs
          (free_at-first_fit n (at + b.size) bs e a rest t later))
]
