-- ===== src/Log/Copies.antt =====
-- The loops of `write_log` and `install_trans`: which blocks are written before the power fails.
use ssuos_mminos.Base.{
  update_self, ◌==◌, Bool-cases, update, ℕ, zero, suc, ◌-◌, ◌≤◌, ◌<◌, ◌≡◌, refl, ap, ◌∙◌, ◌≢◌, inl,
  inr, true, false, arith,
}
use native.Mathlib.Decide.{dec_le}
use ssuos_mminos.Log.{Machine, loop, bwrite, copy}
use ssuos_mminos.Log.Patch.{patch, patch-outside}

abbrev pub copies : ℕ → (to from : ℕ → ℕ) → Machine → Machine
copies n to from m = loop n (λ i. copy (to i) (from i)) m

-- No block is read after it has been written.
unfoldable pub Apart : ℕ → (to from : ℕ → ℕ) → Type 0
Apart n to from = (i j : ℕ) → i < n → j < n → to i ≢ from j

module _ (t f : ℕ) (m : Machine) where
  copy-power : (copy t f m).power ≡ m.power - 1
  unfolding copy bwrite
  copy-power = ground arith

  copy-data_of : (b : ℕ) → (copy t f m).data_of b ≡ update m.data_of t (m.data_of f) b
  unfolding copy bwrite
  copy-data_of b = elim (Bool-cases (m.power == 0)) [ inl off ↦ rw off refl | inr on ↦ rw on refl ]

  copy-disk_on : (b : ℕ) → 0 < m.power → (copy t f m).disk b ≡ update m.disk t (m.data_of f) b
  unfolding copy bwrite
  copy-disk_on b lt =
      let on : (m.power == 0) ≡ false = ground (arith, lt) in
      rw on (ap (λ x. update m.disk t x b) (update_self m.data_of t (m.data_of f)))

  copy-disk_off : (b : ℕ) → m.power ≡ 0 → (copy t f m).disk b ≡ m.disk b
  unfolding copy bwrite
  copy-disk_off b e = let off : (m.power == 0) ≡ true = ground (arith, e) in rw off refl

module _ (to from : ℕ → ℕ) (m : Machine) where
  abbrev writes : ℕ → (ℕ → ℕ → ℕ) → ℕ → ℕ → ℕ
  writes n d = patch n to (λ i. m.data_of (from i)) d

  pub copies-power : (n : ℕ) → (copies n to from m).power ≡ m.power - n
  copies-power zero = omega arith
  copies-power (suc n) =
      omega (arith, copies-power n, copy-power (to n) (from n) (copies n to from m))

  pub copies-data_of :
      (n : ℕ) (b : ℕ) → Apart n to from → (copies n to from m).data_of b ≡ writes n m.data_of b
  unfolding Apart
  copies-data_of zero b apart = refl
  copies-data_of (suc n) b apart =
      let old : (x : ℕ) → (copies n to from m).data_of x ≡ writes n m.data_of x =
        λ x. copies-data_of n x (λ i j hi hj. apart i j (omega arith) (omega arith)) in
      let source =
        old (from n)
        ∙ patch-outside n to (λ i. m.data_of (from i)) m.data_of (from n)
            (λ i lt. apart i n (omega arith) (omega arith)) in
      copy-data_of (to n) (from n) (copies n to from m) b ∙ ground (arith, source, old b)

  pub copies-disk_full :
      (n : ℕ) (b : ℕ)
      → Apart n to from
      → n ≤ m.power
      → (copies n to from m).disk b ≡ writes n m.disk b
  unfolding Apart
  copies-disk_full zero b apart le = refl
  copies-disk_full (suc n) b apart le =
      let sooner : Apart n to from = λ i j hi hj. apart i j (omega arith) (omega arith) in
      let source =
        copies-data_of n (from n) sooner
        ∙ patch-outside n to (λ i. m.data_of (from i)) m.data_of (from n)
            (λ i lt. apart i n (omega arith) (omega arith)) in
      let old = copies-disk_full n b sooner (omega arith) in
      copy-disk_on (to n) (from n) (copies n to from m) b (omega (arith, copies-power n))
      ∙ ground (arith, source, old)

  same_count : (b j k : ℕ) → j ≡ k → writes j m.disk b ≡ writes k m.disk b
  same_count b j k e = ap (λ i. writes i m.disk b) e

  -- The power fails before the last of the writes.
  pub copies-disk_cut :
      (n : ℕ) (b : ℕ)
      → Apart n to from
      → m.power ≤ n
      → (copies n to from m).disk b ≡ writes m.power m.disk b
  unfolding Apart
  copies-disk_cut zero b apart le = same_count b zero m.power (omega arith)
  copies-disk_cut (suc n) b apart le = elim (dec_le m.power n) [
    | yes early ↦
        copy-disk_off (to n) (from n) (copies n to from m) b (omega (arith, copies-power n))
        ∙ copies-disk_cut n b (λ i j hi hj. apart i j (omega arith) (omega arith)) early
    | no late ↦
        copies-disk_full (suc n) b apart (omega arith) ∙ same_count b (suc n) m.power (omega arith)
  ]
