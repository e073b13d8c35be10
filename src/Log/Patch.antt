-- ===== src/Log/Patch.antt =====
-- Several writes to an array in a row: entry `f i` gets `c i`, for the `i` below `n`.
use ssuos_mminos.Base.{
  update_self, update-ne, update, ℕ, zero, suc, ◌≤◌, ◌<◌, ◌≡◌, refl, sym, ap, ◌∙◌, ◌≢◌, ◌⊎◌, inl,
  inr, arith,
}
use native.Mathlib.Decide.{ℕ_discrete}
use mathlib.Core.Path.{subst}
use ssuos_mminos.Log.{loop}

-- No two of the entries below `n` are the same.
unfoldable pub Distinct : ℕ → (ℕ → ℕ) → Type 0
Distinct n f = (i j : ℕ) → i < n → j < n → f i ≡ f j → i ≡ j

-- Whether an entry is written.
pub find_entry :
    (n : ℕ) (f : ℕ → ℕ) (b : ℕ) → ((i : ℕ) × (i < n) × (f i ≡ b)) ⊎ ((i : ℕ) → i < n → f i ≢ b)
find_entry zero f b = inr (λ i lt. absurd (omega arith))
find_entry (suc n) f b = elim (find_entry n f b) [
  | inl (i, lt, e) ↦ inl (i, omega arith, e)
  | inr out ↦ elim (ℕ_discrete (f n) b) [
    | yes e ↦ inl (n, omega arith, e)
    | no ne ↦ inr (λ i lt. elim (ℕ_discrete i n) [
      | yes e ↦ subst (λ k. f k ≢ b) (sym e) ne
      | no k ↦ out i (omega arith)
    ])
  ]
]

module _ {ℓ} {A : Type ℓ} where
  abbrev pub patch : ℕ → (ℕ → ℕ) → (ℕ → A) → (ℕ → A) → ℕ → A
  patch n f c d = loop n (λ i d'. update d' (f i) (c i)) d

  pub patch-outside :
      (n : ℕ) (f : ℕ → ℕ) (c : ℕ → A) (d : ℕ → A) (b : ℕ)
      → ((i : ℕ) → i < n → f i ≢ b)
      → patch n f c d b ≡ d b
  patch-outside zero f c d b out = refl
  patch-outside (suc n) f c d b out =
      update-ne (patch n f c d) (f n) b (c n) (out n (omega arith))
      ∙ patch-outside n f c d b (λ i lt. out i (omega arith))

  pub patch-at :
      (n : ℕ) (f : ℕ → ℕ) (c : ℕ → A) (d : ℕ → A) (i : ℕ)
      → Distinct n f
      → i < n
      → patch n f c d (f i) ≡ c i
  unfolding Distinct
  patch-at zero f c d i apart lt = absurd (omega arith)
  patch-at (suc n) f c d i apart lt = elim (ℕ_discrete i n) [
    | yes e ↦
        ap (patch (suc n) f c d) (ap f e) ∙ update_self (patch n f c d) (f n) (c n) ∙ ap c (sym e)
    | no ne ↦
        update-ne (patch n f c d) (f n) (f i) (c n) (λ e. ne (apart i n lt (omega arith) (sym e)))
        ∙ patch-at n f c d i (λ j k hj hk. apart j k (omega arith) (omega arith)) (omega arith)
  ]

  pub patch-ext :
      (n : ℕ) (f g : ℕ → ℕ) (c e d d' : ℕ → A) (b : ℕ)
      → ((i : ℕ) → i < n → f i ≡ g i)
      → ((i : ℕ) → i < n → c i ≡ e i)
      → d b ≡ d' b
      → patch n f c d b ≡ patch n g e d' b
  patch-ext zero f g c e d d' b hf hc hd = hd
  patch-ext (suc n) f g c e d d' b hf hc hd =
      let rest =
        patch-ext n f g c e d d' b (λ i lt. hf i (omega arith)) (λ i lt. hc i (omega arith)) hd in
      let same_place = hf n (omega arith) in
      let same_value = hc n (omega arith) in ground (arith, rest, same_place, same_value)

  -- To start with the first `j` of the writes and to carry them all out then is to carry them out.
  pub patch-again :
      (n j : ℕ) (f : ℕ → ℕ) (c : ℕ → A) (d : ℕ → A) (b : ℕ)
      → Distinct n f
      → j ≤ n
      → patch n f c (patch j f c d) b ≡ patch n f c d b
  patch-again n j f c d b apart le = elim (find_entry n f b) [
    | inl (i, lt, e) ↦
        subst (λ x. patch n f c (patch j f c d) x ≡ patch n f c d x) e
          (patch-at n f c (patch j f c d) i apart lt ∙ sym (patch-at n f c d i apart lt))
    | inr out ↦
        patch-outside n f c (patch j f c d) b out
        ∙ patch-outside j f c d b (λ i lt. out i (omega arith))
        ∙ sym (patch-outside n f c d b out)
  ]
