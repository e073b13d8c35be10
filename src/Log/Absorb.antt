-- ===== src/Log/Absorb.antt =====
-- The header that `log_write` makes: the blocks in it are different, and are the old ones and the new.
use ssuos_mminos.Base.{
  ◌==◌, Option-cases, ℕ, ◌+◌, ◌≤◌, ◌<◌, ◌≡◌, sym, ap, ◌∙◌, ◌≢◌, ◌⊎◌, inl, inr, none, some, arith,
}
use native.Mathlib.Decide.{ℕ_discrete}
use mathlib.Core.Path.{subst}
use ssuos_mminos.Base.Loops.{find_below, find_below-some, find_below-none}
use ssuos_mminos.Log.{LogHeader, place_of, absorb}
use ssuos_mminos.Log.Patch.{Distinct}

-- The block is in the header already, or it is new.
Absorbs : LogHeader → ℕ → Type 0
Absorbs lh b =
    (((absorb lh b).n ≡ lh.n)
      × ((j : ℕ) → (absorb lh b).block j ≡ lh.block j)
      × ((i : ℕ) × (i < lh.n) × (lh.block i ≡ b)))
    ⊎ (((absorb lh b).n ≡ lh.n + 1)
        × ((absorb lh b).block lh.n ≡ b)
        × ((j : ℕ) → j < lh.n → ((absorb lh b).block j ≡ lh.block j) × (lh.block j ≢ b)))

absorb-cases : (lh : LogHeader) (b : ℕ) → Absorbs lh b
unfolding Absorbs
absorb-cases lh b = elim (Option-cases (find_below (λ i. lh.block i == b) lh.n)) [
  | inl new ↦
      let at : place_of lh b ≡ lh.n = ap (λ o. elim o [ none ↦ lh.n | some i ↦ i ]) new in
      inr (
        ground (arith, at),
        ground (arith, at),
        λ j hj. (
          ground (arith, at, hj),
          λ e. ground (arith, find_below-none (λ i. lh.block i == b) lh.n j new hj, e),
        ),
      )
  | inr (i, found) ↦
      let at : place_of lh b ≡ i = ap (λ o. elim o [ none ↦ lh.n | some i ↦ i ]) found in
      let (hi, is_b) = find_below-some (λ i. lh.block i == b) lh.n i found in
      inl (ground (arith, at, hi), λ j. ground (arith, at, is_b), (i, hi, ground (arith, is_b)))
]

module _ (lh : LogHeader) (b : ℕ) where
  pub absorb-n : (absorb lh b).n ≤ lh.n + 1
  unfolding Absorbs
  absorb-n = elim (absorb-cases lh b) [
    | inl (e, _, _) ↦ omega (arith, e)
    | inr (e, _, _) ↦ omega (arith, e)
  ]

  pub absorb-each :
      (P : ℕ → Type 0)
      → P b
      → ((i : ℕ) → i < lh.n → P (lh.block i))
      → (i : ℕ) → i < (absorb lh b).n
      → P ((absorb lh b).block i)
  unfolding Absorbs
  absorb-each P new old i hi = elim (absorb-cases lh b) [
    | inl (e, same, _) ↦ subst P (sym (same i)) (old i (omega (arith, e)))
    | inr (e, last, others) ↦ elim (ℕ_discrete i lh.n) [
      | yes at_end ↦ subst P (sym (ap (absorb lh b).block at_end ∙ last)) new
      | no before ↦
          subst P (sym (others i (omega (arith, e, before))).0) (old i (omega (arith, e, before)))
    ]
  ]

  pub absorb-out :
      (x : ℕ)
      → ((i : ℕ) → i < (absorb lh b).n → (absorb lh b).block i ≢ x)
      → ((i : ℕ) → i < lh.n → lh.block i ≢ x) × (b ≢ x)
  unfolding Absorbs
  absorb-out x out = elim (absorb-cases lh b) [
    | inl (e, same, (i, hi, at)) ↦ (
      λ j hj eq. out j (omega (arith, e)) (same j ∙ eq),
      λ eq. out i (omega (arith, e)) (same i ∙ at ∙ eq),
    )
    | inr (e, last, others) ↦ (
      λ j hj eq. out j (omega (arith, e)) ((others j hj).0 ∙ eq),
      λ eq. out lh.n (omega (arith, e)) (last ∙ eq),
    )
  ]

  pub absorb-Distinct : Distinct lh.n lh.block → Distinct (absorb lh b).n (absorb lh b).block
  unfolding Absorbs Distinct
  absorb-Distinct apart i j hi hj eq = elim (absorb-cases lh b) [
    | inl (e, same, _) ↦
        apart i j (omega (arith, e)) (omega (arith, e)) (sym (same i) ∙ eq ∙ same j)
    | inr (e, last, others) ↦ elim (ℕ_discrete i lh.n) [
      | yes i_end ↦ elim (ℕ_discrete j lh.n) [
        | yes j_end ↦ i_end ∙ sym j_end
        | no j_before ↦ absurd (
            (others j (omega (arith, e, j_before))).1 (
              sym (others j (omega (arith, e, j_before))).0
              ∙ sym eq
              ∙ ap (absorb lh b).block i_end
              ∙ last))
      ]
      | no i_before ↦ elim (ℕ_discrete j lh.n) [
        | yes j_end ↦ absurd (
            (others i (omega (arith, e, i_before))).1 (
              sym (others i (omega (arith, e, i_before))).0
              ∙ eq
              ∙ ap (absorb lh b).block j_end
              ∙ last))
        | no j_before ↦ apart i j (omega (arith, e, i_before)) (omega (arith, e, j_before)) (
            sym (others i (omega (arith, e, i_before))).0
            ∙ eq
            ∙ (others j (omega (arith, e, j_before))).0)
      ]
    ]
  ]
