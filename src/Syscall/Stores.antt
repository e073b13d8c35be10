-- ===== src/Syscall/Stores.antt =====
-- A word that is stored is loaded again, and no other byte changes.
use ssuos_mminos.Base.{ℕ, ◌+◌, ◌≤◌, ◌<◌, ◌≡◌, ◌∙◌, ◌⊎◌, inl, inr, arith}
use ssuos_mminos.Proc.Query.{ProcessInfo}
use ssuos_mminos.Syscall.{load_word, store_word, store_info}

store-load : (a w : ℕ) (m : ℕ → ℕ) → w < 4294967296 → load_word (store_word a w m) a ≡ w
store-load a w m lt = ground (arith, lt)

store-outside : (a w b : ℕ) (m : ℕ → ℕ) → (b < a) ⊎ (a + 4 ≤ b) → store_word a w m b ≡ m b
store-outside a w b m far = ground (arith, far)

load-store_apart :
    (a w b : ℕ) (m : ℕ → ℕ)
    → (b + 4 ≤ a) ⊎ (a + 4 ≤ b)
    → load_word (store_word a w m) b ≡ load_word m b
load-store_apart a w b m far = omega (
  arith,
  store-outside a w b m (elim far [
    | inl below ↦ inl (omega (arith, below))
    | inr above ↦ inr (omega (arith, above))
  ]),
  store-outside a w (b + 1) m (out 1 (omega arith)),
  store-outside a w (b + 2) m (out 2 (omega arith)),
  store-outside a w (b + 3) m (out 3 (omega arith)),
)
  where
    out : (k : ℕ) → k < 4 → (b + k < a) ⊎ (a + 4 ≤ b + k)
    out k lt = elim far [
      | inl below ↦ inl (omega (arith, below))
      | inr above ↦ inr (omega (arith, above))
    ]

-- What the four words hold.
pub record Holds (a : ℕ) (info : ProcessInfo) (m : ℕ → ℕ) : Type 0 where
  pub pid_at : load_word m a ≡ info.pid
  pub ppid_at : load_word m (a + 4) ≡ info.ppid
  pub psize_at : load_word m (a + 8) ≡ info.psize
  pub nswitch_at : load_word m (a + 12) ≡ info.nswitch

pub record IsInfo (info : ProcessInfo) : Type 0 where
  pub pid_fits : info.pid < 4294967296
  pub ppid_fits : info.ppid < 4294967296
  pub psize_fits : info.psize < 4294967296
  pub nswitch_fits : info.nswitch < 4294967296

pub store_info-outside :
    (a b : ℕ) (info : ProcessInfo) (m : ℕ → ℕ)
    → (b < a) ⊎ (a + 16 ≤ b)
    → store_info a info m b ≡ m b
unfolding store_info
store_info-outside a b info m far = ground (arith, far)

pub store_info-Holds :
    (a : ℕ) (info : ProcessInfo) (m : ℕ → ℕ) → IsInfo info → Holds a info (store_info a info m)
unfolding store_info
store_info-Holds a info m fits =
    let m₁ = store_word a info.pid m in
    let m₂ = store_word (a + 4) info.ppid m₁ in
    let m₃ = store_word (a + 8) info.psize m₂ in
    record {
      pid_at =
          load-store_apart (a + 12) info.nswitch a m₃ (inl (omega arith))
          ∙ load-store_apart (a + 8) info.psize a m₂ (inl (omega arith))
          ∙ load-store_apart (a + 4) info.ppid a m₁ (inl (omega arith))
          ∙ store-load a info.pid m fits.pid_fits;
      ppid_at =
          load-store_apart (a + 12) info.nswitch (a + 4) m₃ (inl (omega arith))
          ∙ load-store_apart (a + 8) info.psize (a + 4) m₂ (inl (omega arith))
          ∙ store-load (a + 4) info.ppid m₁ fits.ppid_fits;
      psize_at =
          load-store_apart (a + 12) info.nswitch (a + 8) m₃ (inl (omega arith))
          ∙ store-load (a + 8) info.psize m₂ fits.psize_fits;
      nswitch_at = store-load (a + 12) info.nswitch m₃ fits.nswitch_fits;
    }
