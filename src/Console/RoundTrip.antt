-- ===== src/Console/RoundTrip.antt =====
-- A line that is typed is read.
use Prim.{Unit}
use ssuos_mminos.Base.{
  ◌==◌, Bool-cases, length, length-append, has, ℕ, suc, ◌+◌, ◌<◌, ◌≡◌, refl, ap, ◌∙◌, inl, inr,
  Bool, true, false, not, ◌||◌, List, [], ◌∷◌, ◌++◌, arith, append_assoc,
}
use mathlib.Core.Path.{subst}
use ssuos_mminos.Console.{Input, consoleintr, returns, consoleread}
use ssuos_mminos.Console.Cells.{Holds}
use ssuos_mminos.Console.Typing.{typed, Held, consoleintr-typed}
use ssuos_mminos.Console.Lines.{consoleread_lem}

-- Characters with no meaning of their own.
abbrev pub ordinary : ℕ → Bool
ordinary k = not (
    k == 0
    || (k == 4)
    || (k == 8)
    || (k == 10)
    || (k == 13)
    || (k == 16)
    || (k == 21)
    || (k == 127))

abbrev pub IsText : List ℕ → Type 0
IsText [] = Unit {0}
IsText (k ∷ ks) = (ordinary k ≡ true) × IsText ks

abbrev pub type_all : List ℕ → Input → Input
type_all [] c = c
type_all (k ∷ ks) c = type_all ks (consoleintr k c)

abbrev typed_all : List ℕ → List ℕ × List ℕ → List ℕ × List ℕ
typed_all [] s = s
typed_all (k ∷ ks) s = typed_all ks (typed k s)

type_all-Held :
    (ks : List ℕ) (c : Input) (s : List ℕ × List ℕ)
    → Held c s
    → Held (type_all ks c) (typed_all ks s)
type_all-Held [] c s h = h
type_all-Held (k ∷ ks) c (q, l) h =
    type_all-Held ks (consoleintr k c) (typed k (q, l)) (consoleintr-typed k c q l h)

typed-ordinary :
    (k : ℕ) (l : List ℕ) → ordinary k ≡ true → length l < 127 → typed k ([], l) ≡ ([], l ++ k ∷ [])
unfolding typed
typed-ordinary k l ok lt = ground (arith, ok, lt)

typed-enter : (l : List ℕ) → length l < 128 → typed 13 ([], l) ≡ (l ++ 10 ∷ [], [])
unfolding typed
typed-enter l lt = ground (arith, lt)

typed_all-line :
    (ks l : List ℕ)
    → IsText ks
    → length l + length ks < 127
    → typed_all (ks ++ 13 ∷ []) ([], l) ≡ (l ++ (ks ++ 10 ∷ []), [])
typed_all-line [] l ok lt = typed-enter l (omega (arith, lt))
typed_all-line (k ∷ ks) l (is, ok) lt =
    ap (typed_all (ks ++ 13 ∷ [])) (typed-ordinary k l is (omega (arith, lt)))
    ∙ typed_all-line ks (l ++ k ∷ []) ok (omega (arith, lt, length-append {0} l (k ∷ [])))
    ∙ ap (λ xs. (xs, [])) (append_assoc l (k ∷ []) (ks ++ 10 ∷ []))

text-has : (x : ℕ) (ks : List ℕ) → IsText ks → ordinary x ≡ false → has x ks ≡ false
text-has x [] ok special = refl
text-has x (k ∷ ks) (is, ok) special = elim (Bool-cases (x == k)) [
  | inl same ↦ absurd (ground (arith, same, is, special))
  | inr other ↦ ground (arith, other, text-has x ks ok special)
]

-- When fewer than 127 ordinary characters and `\r` are typed at a console with nothing in it, wherever its
-- indices stand, `consoleread` with room for them returns the characters and `\n`, and the console has
-- nothing in it again.
pub consoleread-type_all :
    (killed : Bool) (n : ℕ) (text : List ℕ) (c : Input)
    → Holds c [] []
    → IsText text
    → length text < 127
    → (c' : Input) × Holds c' [] []
      × (consoleread killed false (length text + suc n) (type_all (text ++ 13 ∷ []) c)
          ≡ returns (text ++ 10 ∷ []) c')
consoleread-type_all killed n text c h ok lt =
    let line : Held (type_all (text ++ 13 ∷ []) c) (text ++ 10 ∷ [], []) =
      subst (Held (type_all (text ++ 13 ∷ []) c)) (typed_all-line text [] ok (omega (arith, lt)))
        (type_all-Held (text ++ 13 ∷ []) c ([], []) (h, refl)) in
    let (c', h', all, ends, eof, rest) =
      consoleread_lem text (10 ∷ []) [] (type_all (text ++ 13 ∷ []) c) (text-has 10 text ok refl)
        (text-has 4 text ok refl) line.0 in
    ends killed n [] refl
