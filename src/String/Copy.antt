-- ===== src/String/Copy.antt =====
-- `safestrcpy` and `strlen`.
use ssuos_mminos.Base.{
  update_self, update-ne, ◌==◌, update, ℕ, zero, suc, ◌+◌, ◌≤◌, ◌<◌, ◌≡◌, refl, sym, ap, ◌∙◌, ◌≢◌,
  ◌⊎◌, inl, inr, true, false, some, arith,
}
use mathlib.Core.Option
use ssuos_mminos.String.{strlen, safe_loop, safestrcpy}

-- The `k` bytes at `t` are a string at `s` now, and nothing else has changed than the `n` bytes at `s`.
pub record Copied (s t k n : ℕ) (m m' : ℕ → ℕ) : Type 0 where
  pub prefix : (i : ℕ) → i < k → m' (s + i) ≡ m (t + i)
  pub nul : m' (s + k) ≡ 0
  pub outside : (a : ℕ) → (a < s) ⊎ (s + n ≤ a) → m' a ≡ m a

-- The end of the string, seen from the next byte.
ends_later :
    (k r : ℕ) (m' m : ℕ → ℕ) (t : ℕ)
    → (suc k ≡ suc r) ⊎ (m (t + suc k) ≡ 0)
    → (k < suc r → m' (t + 1 + k) ≡ m (t + suc k))
    → k ≤ r
    → (k ≡ r) ⊎ (m' (t + 1 + k) ≡ 0)
ends_later k r m' m t (inl e) same le = inl (omega (arith, e))
ends_later k r m' m t (inr e) same le = inr (same (omega (arith, le)) ∙ e)

pub later_prefix :
    (k r s t : ℕ) (m m' old : ℕ → ℕ)
    → ((i : ℕ) → i < r → old (t + 1 + i) ≡ m (t + suc i))
    → k ≤ r
    → ((i : ℕ) → i < k → m' (s + 1 + i) ≡ old (t + 1 + i))
    → m' s ≡ m t
    → (i : ℕ) → i < suc k
    → m' (s + i) ≡ m (t + i)
later_prefix k r s t m m' old same le prefix first zero lt =
    ap m' (omega arith) ∙ first ∙ ap m (omega arith)
later_prefix k r s t m m' old same le prefix first (suc i) lt =
    ap m' (omega arith) ∙ prefix i (omega arith) ∙ same i (omega arith)

safe_loop-Copied :
    (k r s t : ℕ) (m : ℕ → ℕ)
    → k ≤ r
    → ((i : ℕ) → i < k → m (t + i) ≢ 0)
    → (k ≡ r) ⊎ (m (t + k) ≡ 0)
    → (s + suc r ≤ t) ⊎ (t + suc r ≤ s)
    → Copied s t k (suc r) m (safe_loop r s t m)
unfolding safe_loop
safe_loop-Copied zero zero s t m le some_byte ends apart = record {
  prefix = λ i lt. absurd (omega arith);
  nul = ground arith;
  outside = λ a out. ground (arith, out);
}
safe_loop-Copied zero (suc r) s t m le some_byte ends apart =
    let no_offset : m (t + 0) ≡ m t = ap m (omega arith) in
    let at_end : (m t == 0) ≡ true = ground (arith, ends, no_offset) in
    rw at_end (record {
      prefix = λ i lt. absurd (omega arith);
      nul = ground (arith, at_end);
      outside = λ a out. ground (arith, out);
    })
safe_loop-Copied (suc k) zero s t m le some_byte ends apart = absurd (omega arith)
safe_loop-Copied (suc k) (suc r) s t m le some_byte ends apart =
    let m' = update m s (m t) in
    let no_offset : m (t + 0) ≡ m t = ap m (omega arith) in
    let here : (m t == 0) ≡ false = ground (arith, some_byte 0 (omega arith), no_offset) in
    let same : (i : ℕ) → i < suc r → m' (t + 1 + i) ≡ m (t + suc i) = λ i lt.
      update-ne m s (t + 1 + i) (m t) (λ e. ground (arith, apart, e, lt)) ∙ ap m (omega arith) in
    let more : (i : ℕ) → i < k → m' (t + 1 + i) ≢ 0 =
      λ i lt e. some_byte (suc i) (omega arith) (sym (same i (omega arith)) ∙ e) in
    let stop : (k ≡ r) ⊎ (m' (t + 1 + k) ≡ 0) =
      ends_later k r m' m t ends (λ lt. same k lt) (omega arith) in
    let rest =
      safe_loop-Copied k r (s + 1) (t + 1) m' (omega arith) more stop (ground (arith, apart)) in
    rw here (record {
      prefix =
          later_prefix k r s t m (safe_loop r (s + 1) (t + 1) m') m' (λ i lt. same i (omega arith))
            (omega arith) rest.prefix (rest.outside s (inl (omega arith)) ∙ update_self m s (m t));
      nul = ap (safe_loop r (s + 1) (t + 1) m') (omega arith) ∙ rest.nul;
      outside = λ a out.
          rest.outside a (ground (arith, out))
          ∙ update-ne m s a (m t) (λ e. ground (arith, out, e));
    })

strlen-string :
    (k rounds s : ℕ) (m : ℕ → ℕ)
    → k < rounds
    → ((i : ℕ) → i < k → m (s + i) ≢ 0)
    → m (s + k) ≡ 0
    → strlen rounds s m ≡ some k
unfolding strlen
strlen-string k zero s m lt some_byte nul = absurd (omega arith)
strlen-string zero (suc rounds) s m lt some_byte nul =
    let no_offset : m s ≡ 0 = ap m (omega arith) ∙ nul in
    let at_end : (m s == 0) ≡ true = ground (arith, no_offset) in rw at_end refl
strlen-string (suc k) (suc rounds) s m lt some_byte nul =
    let no_offset : m (s + 0) ≡ m s = ap m (omega arith) in
    let here : (m s == 0) ≡ false = ground (arith, some_byte 0 (omega arith), no_offset) in
    let rest =
      strlen-string k rounds (s + 1) m (omega arith)
        (λ i lt e. some_byte (suc i) (omega arith) (ap m (omega arith) ∙ e))
        (ap m (omega arith) ∙ nul) in
    rw here (ap (Option.map (λ n. n + 1)) rest ∙ ap some (omega arith))

-- For `n > 0` and a source apart from the destination, where `k` is the length of the string at `t` or
-- `n - 1` if that is less: `safestrcpy` copies `k` bytes, puts a NUL behind them, and changes nothing
-- but the `n` bytes of the destination; and `strlen` ends on the result within `n` rounds and gives `k`.
pub strlen-safestrcpy :
    (s t n k : ℕ) (m : ℕ → ℕ)
    → k < n
    → ((i : ℕ) → i < k → m (t + i) ≢ 0)
    → (k + 1 ≡ n) ⊎ (m (t + k) ≡ 0)
    → (s + n ≤ t) ⊎ (t + n ≤ s)
    → Copied s t k n m (safestrcpy s t n m) × (strlen n s (safestrcpy s t n m) ≡ some k)
unfolding safestrcpy
strlen-safestrcpy s t zero k m lt some_byte ends apart = absurd (omega arith)
strlen-safestrcpy s t (suc r) k m lt some_byte ends apart =
    let copied = safe_loop-Copied k r s t m (omega arith) some_byte (ground (arith, ends)) apart in
    (
      copied,
      strlen-string k (suc r) s (safe_loop r s t m) lt
          (λ i hi e. some_byte i hi (sym (copied.prefix i hi) ∙ e)) copied.nul,
    )
