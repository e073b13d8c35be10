-- ===== src/RwLock/Count.antt =====
-- The number of threads that a test picks.
use ssuos_mminos.Base.{
  update-ne, if◌then◌else◌, update, ℕ, zero, suc, ◌+◌, ◌≤◌, ◌<◌, ◌≡◌, refl, sym, ap, ◌∙◌, ◌≢◌, Bool,
  true, false, arith,
}
use native.Mathlib.Decide.{ℕ_discrete}

abbrev pub bit : Bool → ℕ
bit b = if b then 1 else 0

module _ {ℓ} {A : Type ℓ} (test : A → Bool) where
  -- among the threads below `n`
  abbrev pub count : (ℕ → A) → ℕ → ℕ
  count f zero = 0
  count f (suc n) = count f n + bit (test (f n))

  count-above : (f : ℕ → A) (n i : ℕ) (a : A) → n ≤ i → count (update f i a) n ≡ count f n
  count-above f zero i a le = refl
  count-above f (suc n) i a le = ground (arith, count-above f n i a, update-ne f i n a)

  -- A thread that moves is counted where it stands now, and not where it stood.
  pub count-update :
      (f : ℕ → A) (n i : ℕ) (a : A)
      → i < n
      → count (update f i a) n + bit (test (f i)) ≡ count f n + bit (test a)
  count-update f zero i a lt = absurd (omega arith)
  count-update f (suc n) i a lt = elim (ℕ_discrete i n) [
    | yes last ↦
        let new : update f i a n ≡ a = ground (arith, last) in
        omega (
          arith,
          count-above f n i a (omega arith),
          ap (λ x. bit (test x)) new,
          ap (λ j. bit (test (f j))) last,
        )
    | no before ↦ omega (
      arith,
      count-update f n i a (omega arith),
      ap (λ x. bit (test x)) (update-ne f i n a before),
    )
  ]

  pub count-zero : (f : ℕ → A) (n : ℕ) → ((i : ℕ) → test (f i) ≡ false) → count f n ≡ 0
  count-zero f zero none_is = refl
  count-zero f (suc n) none_is = ground (arith, count-zero f n none_is, none_is n)

  pub count-pos : (f : ℕ → A) (n i : ℕ) → i < n → test (f i) ≡ true → 0 < count f n
  count-pos f zero i lt on = absurd (omega arith)
  count-pos f (suc n) i lt on = elim (ℕ_discrete i n) [
    | yes last ↦ let at : test (f n) ≡ true = ap (λ j. test (f j)) (sym last) ∙ on in ground arith
    | no before ↦ omega (arith, count-pos f n i (omega arith) on)
  ]

  pub count-two :
      (f : ℕ → A) (n i j : ℕ)
      → i < n
      → j < n
      → i ≢ j
      → test (f i) ≡ true
      → test (f j) ≡ true
      → 2 ≤ count f n
  count-two f zero i j hi hj ne p q = absurd (omega arith)
  count-two f (suc n) i j hi hj ne p q = elim (ℕ_discrete i n) [
    | yes last ↦
        omega (arith, count-pos f n j (omega arith) q, ap (λ k. bit (test (f k))) last, ap bit p)
    | no before ↦ elim (ℕ_discrete j n) [
      | yes last ↦
          omega (arith, count-pos f n i (omega arith) p, ap (λ k. bit (test (f k))) last, ap bit q)
      | no before' ↦ omega (arith, count-two f n i j (omega arith) (omega arith) ne p q)
    ]
  ]
