-- ===== src/Log/Replay.antt =====
-- What a disk with a log stands for: the blocks outside of the log area, with the blocks of the log
-- that its header names in their places.
use ssuos_mminos.Base.{
  update_self, ◌==◌, Bool-cases, update, ℕ, ◌+◌, ◌-◌, ◌≤◌, ◌<◌, ◌≡◌, refl, sym, ap, ◌∙◌, ◌⊎◌, inl,
  inr, true, false, arith,
}
use mathlib.Core.Path.{subst}
use ssuos_mminos.Log.{LogHeader, Log, Machine, bwrite, header_words, header_of, write_head}
use ssuos_mminos.Log.Patch.{Distinct, patch, patch-outside, patch-at, patch-ext}

-- The block is not in the log area.
unfoldable pub Home : (start size b : ℕ) → Type 0
Home start size b = (b < start) ⊎ (start + size ≤ b)

abbrev pub replayed : (start : ℕ) → (ℕ → ℕ → ℕ) → ℕ → ℕ → ℕ
replayed start d b = patch (d start 0) (λ i. d start (i + 1)) (λ i. d (start + i + 1)) d b

-- The header on the disk names different blocks outside of the log area, and not too many.
pub record Sound (start size : ℕ) (d : ℕ → ℕ → ℕ) : Type 0 where
  pub apart : Distinct (d start 0) (λ i. d start (i + 1))
  pub homes : (i : ℕ) → i < d start 0 → Home start size (d start (i + 1))
  pub fits : d start 0 < size

same-replayed :
    (start : ℕ) (d : ℕ → ℕ → ℕ) (b n : ℕ)
    → d start 0 ≡ n
    → replayed start d b ≡ patch n (λ i. d start (i + 1)) (λ i. d (start + i + 1)) d b
same-replayed start d b n e =
    ap (λ k. patch k (λ i. d start (i + 1)) (λ i. d (start + i + 1)) d b) e

-- A disk whose header names the blocks `block i` stands for these with the contents `c i`.
pub replayed-patch :
    (start : ℕ) (d : ℕ → ℕ → ℕ) (b n : ℕ) (block : ℕ → ℕ) (c : ℕ → ℕ → ℕ)
    → d start 0 ≡ n
    → ((i : ℕ) → i < n → d start (i + 1) ≡ block i)
    → ((i : ℕ) → i < n → d (start + i + 1) ≡ c i)
    → replayed start d b ≡ patch n block c d b
replayed-patch start d b n block c e same_block same_data =
    same-replayed start d b n e
    ∙ patch-ext n (λ i. d start (i + 1)) block (λ i. d (start + i + 1)) c d d b same_block same_data
        refl

pub replayed-empty : (start : ℕ) (d : ℕ → ℕ → ℕ) (b : ℕ) → d start 0 ≡ 0 → replayed start d b ≡ d b
replayed-empty start d b e = same-replayed start d b 0 e

pub empty-Sound : (start size : ℕ) (d : ℕ → ℕ → ℕ) → d start 0 ≡ 0 → 0 < size → Sound start size d
unfolding Distinct
empty-Sound start size d e lt = record {
  apart = λ i j hi hj same. absurd (omega (arith, e, hi));
  homes = λ i hi. absurd (omega (arith, e, hi));
  fits = omega (arith, e, lt);
}

pub header_words-n : (lh : LogHeader) (old : ℕ → ℕ) → header_words lh old 0 ≡ lh.n
header_words-n lh old =
    patch-outside lh.n (λ i. i + 1) lh.block (update old 0 lh.n) 0 (λ i lt e. omega (arith, e))
    ∙ update_self old 0 lh.n

pub header_words-block :
    (lh : LogHeader) (old : ℕ → ℕ) (i : ℕ) → i < lh.n → header_words lh old (i + 1) ≡ lh.block i
unfolding Distinct
header_words-block lh old i lt =
    patch-at lh.n (λ i. i + 1) lh.block (update old 0 lh.n) i (λ j k hj hk e. omega (arith, e)) lt

-- Reading a header back.
pub header_of-block : (w old : ℕ → ℕ) (i : ℕ) → i < w 0 → (header_of w old).block i ≡ w (i + 1)
unfolding Distinct
header_of-block w old i lt = patch-at (w 0) (λ i. i) (λ i. w (i + 1)) old i (λ j k hj hk e. e) lt

module _ (l : Log) (m : Machine) where
  pub write_head-on :
      (b : ℕ)
      → 0 < m.power
      → (write_head l m).disk b ≡ update m.disk l.start (header_words l.lh (m.data_of l.start)) b
  unfolding write_head bwrite
  write_head-on b lt =
      let on : (m.power == 0) ≡ false = ground (arith, lt) in
      rw on (
        ap (λ x. update m.disk l.start x b)
          (update_self m.data_of l.start (header_words l.lh (m.data_of l.start))))

  pub write_head-off : (b : ℕ) → m.power ≡ 0 → (write_head l m).disk b ≡ m.disk b
  unfolding write_head bwrite
  write_head-off b e = let off : (m.power == 0) ≡ true = ground (arith, e) in rw off refl

  pub write_head-power : (write_head l m).power ≡ m.power - 1
  unfolding write_head bwrite
  write_head-power = ground arith

  pub write_head-data_of :
      (b : ℕ)
      → (write_head l m).data_of b
        ≡ update m.data_of l.start (header_words l.lh (m.data_of l.start)) b
  unfolding write_head bwrite
  write_head-data_of b = elim (Bool-cases (m.power == 0)) [
    | inl off ↦ rw off refl
    | inr on ↦ rw on refl
  ]

pub make-Sound :
    (start size : ℕ) (d : ℕ → ℕ → ℕ) (lh : LogHeader)
    → d start 0 ≡ lh.n
    → ((i : ℕ) → i < lh.n → d start (i + 1) ≡ lh.block i)
    → Distinct lh.n lh.block
    → ((i : ℕ) → i < lh.n → Home start size (lh.block i))
    → lh.n < size
    → Sound start size d
unfolding Distinct
make-Sound start size d lh e same apart homes fits = record {
  apart = λ i j hi hj eq.
      apart i j (omega (arith, e)) (omega (arith, e))
        (sym (same i (omega (arith, e))) ∙ eq ∙ same j (omega (arith, e)));
  homes = λ i hi.
      subst (Home start size) (sym (same i (omega (arith, e)))) (homes i (omega (arith, e)));
  fits = omega (arith, e, fits);
}
