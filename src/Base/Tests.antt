-- ===== src/Base/Tests.antt =====
-- Boolean tests on the native numbers, the conditional, and case lemmas.
use Prim.Native.Nat.{ℕ, compare, Ordering}
use mathlib.Core.Path.{◌≡◌, refl, sym, subst}
use native.Mathlib.Decide.{ℕ_discrete}
use mathlib.Core.Logic.{◌≢◌, ◌↔◌, ◌⊎◌, inl, inr}
use mathlib.Core.Bool.{Bool, true, false}
use mathlib.Core.Option.{Option, none, some}
use native.Mathlib.Omega.{arith}

-- These compute to `compare`, which `ground` and `grind` read with no lemma listed.
abbrev pub ltb : ℕ → ℕ → Bool
ltb a b = elim (compare a b) [ Ordering.lt ↦ true | _ ↦ false ]

abbrev pub leb : ℕ → ℕ → Bool
leb a b = elim (compare a b) [ Ordering.gt ↦ false | _ ↦ true ]

infix 50 ◌==◌
abbrev pub ◌==◌ : ℕ → ℕ → Bool
a == b = elim (compare a b) [ Ordering.eq ↦ true | _ ↦ false ]

infix 1 if◌then◌else◌
abbrev pub if◌then◌else◌ {ℓ} : {A : Type ℓ} → Bool → A → A → A
if true then x else y = x
if false then x else y = y

pub ==_iff : (a b : ℕ) → ((a == b) ≡ true) ↔ (a ≡ b)
==_iff a b = ground arith

-- To split on a computed value and keep the equation.
pub Bool-cases : (b : Bool) → (b ≡ true) ⊎ (b ≡ false)
Bool-cases true = inl refl
Bool-cases false = inr refl

pub Option-cases {ℓ} : {A : Type ℓ} (o : Option A) → (o ≡ none) ⊎ ((a : A) × (o ≡ some a))
Option-cases none = inl refl
Option-cases (some a) = inr (a, refl)

abbrev pub is_none {ℓ} : {A : Type ℓ} → Option A → Bool
is_none none = true
is_none (some a) = false

-- A C array or table as a function of the index, and a write to it.
abbrev pub update {ℓ} : {A : Type ℓ} → (ℕ → A) → ℕ → A → ℕ → A
update f i a j = if i == j then a else f j

pub update_self {ℓ} : {A : Type ℓ} (f : ℕ → A) (i : ℕ) (a : A) → update f i a i ≡ a
update_self f i a = ground arith

pub update-ne {ℓ} : {A : Type ℓ} (f : ℕ → A) (i j : ℕ) (a : A) → i ≢ j → update f i a j ≡ f j
update-ne f i j a ne = ground arith

pub not-some {ℓ} : {A : Type ℓ} {a : A} → ¬ (some a ≡ none)
not-some e = cc

-- What holds of the new value at `i` and of the old ones elsewhere holds of all values after a write.
pub update_each {ℓ κ} :
    {A : Type ℓ} (P : ℕ → A → Type κ) (f : ℕ → A) (i : ℕ) (a : A)
    → P i a
    → ((j : ℕ) → i ≢ j → P j (f j))
    → (j : ℕ) → P j (update f i a j)
update_each P f i a new old j = elim (ℕ_discrete i j) [
  | yes same ↦ subst (λ k. P k (update f i a k)) same (subst (P i) (sym (update_self f i a)) new)
  | no other ↦ subst (P j) (sym (update-ne f i j a other)) (old j other)
]
