-- ===== src/String/Compare.antt =====
-- `memcmp` and `strncmp` give 0 just for equal bytes.
use ssuos_mminos.Base.{
  pos, ◌==◌, Bool-cases, ℕ, zero, suc, ◌+◌, ◌<◌, ◌≡◌, refl, ap, ◌∙◌, ◌≢◌, ◌↔◌, inl, inr, false,
  arith, minus,
}
use mathlib.Core.Path.{subst}
use ssuos_mminos.String.{memcmp, strncmp}

minus-zero : (a b : ℕ) → minus a b ≡ pos 0 → a ≡ b
minus-zero a b e = ground (arith, e)

-- A property of the places from the first on, as one of the first and of the later ones.
split_first :
    (P : ℕ → ℕ → Type 0) (a b n : ℕ)
    → P (a + 0) (b + 0)
    → ((i : ℕ) → i < n → P (a + 1 + i) (b + 1 + i))
    → (i : ℕ) → i < suc n
    → P (a + i) (b + i)
split_first P a b n first later zero lt = first
split_first P a b n first later (suc i) lt =
    let here_a : a + 1 + i ≡ a + suc i = omega arith in
    let here_b : b + 1 + i ≡ b + suc i = omega arith in
    subst (λ x. P x (b + suc i)) here_a (subst (P (a + 1 + i)) here_b (later i (omega arith)))

-- `memcmp` gives 0 just when the `n` bytes at the two places are the same.
pub memcmp-same :
    (v1 v2 n : ℕ) (m : ℕ → ℕ)
    → (memcmp v1 v2 n m ≡ pos 0) ↔ ((i : ℕ) → i < n → m (v1 + i) ≡ m (v2 + i))
unfolding memcmp
memcmp-same v1 v2 zero m = (λ e i lt. absurd (omega arith), λ same. refl)
memcmp-same v1 v2 (suc n) m =
    let start_1 : m (v1 + 0) ≡ m v1 = ap m (omega arith) in
    let start_2 : m (v2 + 0) ≡ m v2 = ap m (omega arith) in
    let (to, from) = memcmp-same (v1 + 1) (v2 + 1) n m in
    elim (Bool-cases (m v1 == m v2)) [
      | inl eq ↦
          let first : m (v1 + 0) ≡ m (v2 + 0) = ground (arith, eq, start_1, start_2) in
          rw eq (
            λ e. split_first (λ x y. m x ≡ m y) v1 v2 n first (to e),
            λ same.
                from (λ i lt. ap m (omega arith) ∙ same (suc i) (omega arith) ∙ ap m (omega arith)),
          )
      | inr ne ↦ rw ne (
        λ e. absurd (ground (arith, minus-zero (m v1) (m v2) e, ne)),
        λ same. absurd (ground (arith, same 0 (omega arith), start_1, start_2, ne)),
      )
    ]

-- When `strncmp` gives 0, the strings agree byte by byte up to their ends or `n`.
pub strncmp-same :
    (p q n i : ℕ) (m : ℕ → ℕ)
    → strncmp p q n m ≡ pos 0
    → i < n
    → ((j : ℕ) → j < i → m (p + j) ≢ 0)
    → m (p + i) ≡ m (q + i)
unfolding strncmp
strncmp-same p q zero i m e lt some_byte = absurd (omega arith)
strncmp-same p q (suc n) zero m e lt some_byte =
    let here : m p ≡ m q = elim (Bool-cases (m p == m q)) [
      | inl eq ↦ ground (arith, eq)
      | inr ne ↦ minus-zero (m p) (m q) (ground (arith, e, ne))
    ] in
    ap m (omega arith) ∙ here ∙ ap m (omega arith)
strncmp-same p q (suc n) (suc i) m e lt some_byte =
    let start : m (p + 0) ≡ m p = ap m (omega arith) in
    let more : (m p == 0) ≡ false = ground (arith, some_byte 0 (omega arith), start) in
    elim (Bool-cases (m p == m q)) [
      | inl eq ↦
          let rest =
            strncmp-same (p + 1) (q + 1) n i m (ground (arith, e, eq, more)) (omega arith)
              (λ j lt e'. some_byte (suc j) (omega arith) (ap m (omega arith) ∙ e')) in
          ap m (omega arith) ∙ rest ∙ ap m (omega arith)
      | inr ne ↦ absurd (ground (arith, minus-zero (m p) (m q) (ground (arith, e, ne)), ne))
    ]
