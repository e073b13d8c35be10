-- ===== src/Ssufs/Contents.antt =====
-- The bytes of a file: what the last loop of `ssufs_write` puts into its blocks, the loop of
-- `ssufs_read` takes out of them.
use ssuos_mminos.Base.{
  ltb, leb, if◌then◌else◌, Option-cases, ℕ, zero, suc, ◌+◌, ◌-◌, ◌*◌, ◌≤◌, ◌<◌, ◌≡◌, refl, ap, ◌∙◌,
  ◌≢◌, inl, inr, true, false, ◌&&◌, Option, none, some, arith,
}
use native.Mathlib.Decide.{dec_lt}
use ssuos_mminos.Ssufs.{block_size, Disk, write_data_block}
use ssuos_mminos.Ssufs.Ops.{load, store}

-- No block stands at two places from `i` to `i + n`.
abbrev pub Apart : (ℕ → Option ℕ) → (n i : ℕ) → Type 0
Apart blocks n i =
    (j l b : ℕ)
    → i ≤ j
    → j < i + n
    → i ≤ l
    → l < i + n
    → blocks j ≡ some b
    → blocks l ≡ some b
    → j ≡ l

pub load-some :
    (n i b : ℕ) (blocks : ℕ → Option ℕ) (d : Disk) (buf : ℕ → ℕ) (k : ℕ)
    → blocks i ≡ some b
    → load (suc n) i blocks d buf k
      ≡ load n
          (i + 1)
          blocks
          d
          (λ j.
            if leb (block_size * i) j && ltb j (block_size * i + block_size)
            then d.contents b (j - block_size * i)
            else buf j)
          k
unfolding load
load-some n i b blocks d buf k e = rw (e, load)

pub load-none :
    (n i : ℕ) (blocks : ℕ → Option ℕ) (d : Disk) (buf : ℕ → ℕ) (k : ℕ)
    → blocks i ≡ none
    → load (suc n) i blocks d buf k ≡ buf k
unfolding load
load-none n i blocks d buf k e = rw (e, load)

load-below :
    (n i : ℕ) (blocks : ℕ → Option ℕ) (d : Disk) (buf : ℕ → ℕ) (k : ℕ)
    → k < block_size * i
    → load n i blocks d buf k ≡ buf k
unfolding load
load-below zero i blocks d buf k lt = refl
load-below (suc n) i blocks d buf k lt = elim (Option-cases (blocks i)) [
  | inl e ↦ load-none n i blocks d buf k e
  | inr (b, e) ↦
      let buf' = λ (j : ℕ).
        if leb (block_size * i) j && ltb j (block_size * i + block_size)
        then d.contents b (j - block_size * i)
        else buf j in
      let off : leb (block_size * i) k ≡ false = ground arith in
      let outside : buf' k ≡ buf k = rw off refl in
      load-some n i b blocks d buf k e
      ∙ load-below n (i + 1) blocks d buf' k (omega arith)
      ∙ outside
]

store-some :
    (n i b : ℕ) (blocks : ℕ → Option ℕ) (buf : ℕ → ℕ) (d : Disk)
    → blocks i ≡ some b
    → store (suc n) i blocks buf d
      ≡ store n (i + 1) blocks buf (write_data_block b (λ j. buf (block_size * i + j)) d)
unfolding store
store-some n i b blocks buf d e = rw (e, store)

-- A block that stands at no place from `i` on keeps its bytes.
store-other :
    (n i c : ℕ) (blocks : ℕ → Option ℕ) (buf : ℕ → ℕ) (d : Disk) (k : ℕ)
    → ((j : ℕ) → i ≤ j → j < i + n → blocks j ≢ some c)
    → (store n i blocks buf d).contents c k ≡ d.contents c k
unfolding store write_data_block
store-other zero i c blocks buf d k none_is = refl
store-other (suc n) i c blocks buf d k none_is = elim (Option-cases (blocks i)) [
  | inl e ↦ rw (e, store)
  | inr (b, e) ↦
      let differ : b ≢ c = λ same. none_is i (omega arith) (omega arith) (e ∙ ap some same) in
      let rest =
        store-other n (i + 1) c blocks buf (write_data_block b (λ j. buf (block_size * i + j)) d) k
          (λ j lo hi. none_is j (omega arith) (omega arith)) in
      rw (e, store) (ground (arith, rest, differ))
]

written :
    (b : ℕ) (bytes : ℕ → ℕ) (d : Disk) (k : ℕ) → (write_data_block b bytes d).contents b k ≡ bytes k
unfolding write_data_block
written b bytes d k = ground arith

-- The bytes that `ssufs_write` writes back to the blocks of a file, no two of which are the same, are
-- those that `ssufs_read` loads from them, up to the first place without a block.
pub load-store :
    (n i : ℕ) (blocks : ℕ → Option ℕ) (buf : ℕ → ℕ) (d : Disk) (before : ℕ → ℕ) (k : ℕ)
    → Apart blocks n i
    → ((j : ℕ) → i ≤ j → block_size * j ≤ k → blocks j ≢ none)
    → block_size * i ≤ k
    → k < block_size * (i + n)
    → load n i blocks (store n i blocks buf d) before k ≡ buf k
load-store zero i blocks buf d before k apart whole lo hi = absurd (omega arith)
load-store (suc n) i blocks buf d before k apart whole lo hi = elim (Option-cases (blocks i)) [
  | inl e ↦ absurd (whole i (omega arith) lo e)
  | inr (b, e) ↦
      let d' = write_data_block b (λ j. buf (block_size * i + j)) d in
      let after = store n (i + 1) blocks buf d' in
      let buf' = λ (j : ℕ).
        if leb (block_size * i) j && ltb j (block_size * i + block_size)
        then after.contents b (j - block_size * i)
        else before j in
      let alone : (j : ℕ) → i + 1 ≤ j → j < i + 1 + n → blocks j ≢ some b = λ j lo' hi' e'.
        absurd (
          omega
            (arith, apart j i b (omega arith) (omega arith) (omega arith) (omega arith) e' e)) in
      let step =
        ap (λ x. load (suc n) i blocks x before k) (store-some n i b blocks buf d e)
        ∙ load-some n i b blocks after before k e in
      elim (dec_lt k (block_size * (i + 1))) [
        | yes here ↦
            let inside : (leb (block_size * i) k && ltb k (block_size * i + block_size)) ≡ true =
              ground arith in
            let at : buf' k ≡ after.contents b (k - block_size * i) = rw inside refl in
            let place : block_size * i + (k - block_size * i) ≡ k = omega arith in
            step
            ∙ load-below n (i + 1) blocks after buf' k here
            ∙ at
            ∙ store-other n (i + 1) b blocks buf d' (k - block_size * i) alone
            ∙ written b (λ j. buf (block_size * i + j)) d (k - block_size * i)
            ∙ ap buf place
        | no later ↦
            step
            ∙ load-store n (i + 1) blocks buf d' buf' k
                (λ j l b' a a' c c'.
                  apart j l b' (omega arith) (omega arith) (omega arith) (omega arith))
                (λ j lo'. whole j (omega arith)) (omega arith) (omega arith)
      ]
]
