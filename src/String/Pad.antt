-- ===== src/String/Pad.antt =====
-- `strncpy` copies a string and fills the rest of the destination with NULs.
use ssuos_mminos.Base.{
  update_self, update-ne, ltb, leb, ◌==◌, if◌then◌else◌, update, ℕ, zero, suc, ◌+◌, ◌≤◌, ◌<◌, ◌≡◌,
  refl, sym, ap, ◌∙◌, ◌≢◌, ◌⊎◌, inl, inr, true, false, ◌&&◌, arith,
}
use native.Mathlib.Decide.{dec_lt}
use ssuos_mminos.String.{strncpy, fill_zero}
use ssuos_mminos.String.Copy.{later_prefix}

pub record Padded (s t k n : ℕ) (m m' : ℕ → ℕ) : Type 0 where
  pub prefix : (i : ℕ) → i < k → m' (s + i) ≡ m (t + i)
  pub zeros : (i : ℕ) → k ≤ i → i < n → m' (s + i) ≡ 0
  pub outside : (a : ℕ) → (a < s) ⊎ (s + n ≤ a) → m' a ≡ m a

fill_zero-at :
    (n s : ℕ) (m : ℕ → ℕ) (a : ℕ)
    → fill_zero n s m a ≡ (if leb s a && ltb a (s + n) then 0 else m a)
unfolding fill_zero
fill_zero-at zero s m a = ground arith
fill_zero-at (suc n) s m a = ground (arith, fill_zero-at n (s + 1) (update m s 0) a)

-- For a source apart from the destination, where `k` is the length of the string at `t`, or `n` if that
-- is less, `strncpy` copies `k` bytes, makes the other ones of the `n` bytes NULs, and changes nothing
-- else.
pub strncpy-Padded :
    (k n s t : ℕ) (m : ℕ → ℕ)
    → k ≤ n
    → ((i : ℕ) → i < k → m (t + i) ≢ 0)
    → (k ≡ n) ⊎ (m (t + k) ≡ 0)
    → (s + n ≤ t) ⊎ (t + n ≤ s)
    → Padded s t k n m (strncpy s t n m)
unfolding strncpy
strncpy-Padded zero zero s t m le some_byte ends apart = record {
  prefix = λ i lt. absurd (omega arith);
  zeros = λ i lo hi. absurd (omega arith);
  outside = λ a out. refl;
}
strncpy-Padded zero (suc n) s t m le some_byte ends apart =
    let no_offset : m (t + 0) ≡ m t = ap m (omega arith) in
    let at_end : m t ≡ 0 = ground (arith, ends, no_offset) in
    let stops : (m t == 0) ≡ true = ground (arith, at_end) in
    rw stops (record {
      prefix = λ i lt. absurd (omega arith);
      zeros = λ i lo hi. ground (arith, fill_zero-at n (s + 1) (update m s (m t)) (s + i), at_end);
      outside = λ a out. ground (arith, fill_zero-at n (s + 1) (update m s (m t)) a, out);
    })
strncpy-Padded (suc k) zero s t m le some_byte ends apart = absurd (omega arith)
strncpy-Padded (suc k) (suc n) s t m le some_byte ends apart =
    let m' = update m s (m t) in
    let no_offset : m (t + 0) ≡ m t = ap m (omega arith) in
    let here : (m t == 0) ≡ false = ground (arith, some_byte 0 (omega arith), no_offset) in
    let same : (i : ℕ) → i < n → m' (t + 1 + i) ≡ m (t + suc i) = λ i lt.
      update-ne m s (t + 1 + i) (m t) (λ e. ground (arith, apart, e, lt)) ∙ ap m (omega arith) in
    let more : (i : ℕ) → i < k → m' (t + 1 + i) ≢ 0 =
      λ i lt e. some_byte (suc i) (omega arith) (sym (same i (omega arith)) ∙ e) in
    let stop : (k ≡ n) ⊎ (m' (t + 1 + k) ≡ 0) = ends_there k n m' m t ends (same k) (omega arith) in
    let rest =
      strncpy-Padded k n (s + 1) (t + 1) m' (omega arith) more stop (ground (arith, apart)) in
    rw here (record {
      prefix =
          later_prefix k n s t m (strncpy (s + 1) (t + 1) n m') m' same (omega arith) rest.prefix
            (rest.outside s (inl (omega arith)) ∙ update_self m s (m t));
      zeros = later_zeros k n s (strncpy (s + 1) (t + 1) n m') rest.zeros;
      outside = λ a out.
          rest.outside a (ground (arith, out))
          ∙ update-ne m s a (m t) (λ e. ground (arith, out, e));
    })
  where
    ends_there :
        (k n : ℕ) (m' m : ℕ → ℕ) (t : ℕ)
        → (suc k ≡ suc n) ⊎ (m (t + suc k) ≡ 0)
        → (k < n → m' (t + 1 + k) ≡ m (t + suc k))
        → k ≤ n
        → (k ≡ n) ⊎ (m' (t + 1 + k) ≡ 0)
    ends_there k n m' m t (inl e) same le = inl (omega (arith, e))
    ends_there k n m' m t (inr e) same le = elim (dec_lt k n) [
      | yes lt ↦ inr (same lt ∙ e)
      | no full ↦ inl (omega (arith, full, le))
    ]

    later_zeros :
        (k n s : ℕ) (m : ℕ → ℕ)
        → ((i : ℕ) → k ≤ i → i < n → m (s + 1 + i) ≡ 0)
        → (i : ℕ) → suc k ≤ i
        → i < suc n
        → m (s + i) ≡ 0
    later_zeros k n s m zeros zero lo hi = absurd (omega arith)
    later_zeros k n s m zeros (suc i) lo hi =
        ap m (omega arith) ∙ zeros i (omega arith) (omega arith)
