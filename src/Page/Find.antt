-- ===== src/Page/Find.antt =====
-- `find_next`: what a found slot is, and why there is one while the page has room for a chunk.
use ssuos_mminos.Base.{
  ℕ, zero, suc, ◌+◌, ◌*◌, ◌≤◌, ◌<◌, ◌≡◌, true, false, none, some, List, [], ◌∷◌, arith, has, length,
  le-length_of_has, Option-cases, inl, inr,
}
use native.Mathlib.Decide.{dec_lt}
use ssuos_mminos.Page.{Mm, Page, find_from, find_next}
use ssuos_mminos.Page.Invariant.{Tiles, Wf}

find_from-some :
    (c : ℕ → Mm) (n i k : ℕ) → find_from c n i ≡ some k → ((c k).used ≡ false) × (k < i + n)
unfolding find_from
find_from-some c zero i k e = cc
find_from-some c (suc n) i k e = ground (arith, find_from-some c n (i + 1) k)

find_from-none :
    (c : ℕ → Mm) (n i j : ℕ) → find_from c n i ≡ none → i ≤ j → j < i + n → (c j).used ≡ true
unfolding find_from
find_from-none c zero i j e lo hi = absurd (omega arith)
find_from-none c (suc n) i j e lo hi = elim (dec_lt i j) [
  | yes lt ↦ ground (arith, find_from-none c n (i + 1) j)
  | no last ↦ let e' : i ≡ j = omega arith in ground arith
]

-- Chunks of at least a unit each: their number is bounded by the bytes that they tile.
pub length-Tiles :
    (g : ℕ) (c : ℕ → Mm) (a : ℕ) (xs : List ℕ) {e : ℕ} → Tiles g c a xs e → a + length xs * g ≤ e
length-Tiles g c a [] t = omega arith
length-Tiles g c a (i ∷ xs) (_, (zero, e, pos), t) = absurd (omega arith)
length-Tiles g c a (i ∷ xs) (_, (suc q, e, pos), t) =
    omega (arith, length-Tiles g c (a + (c i).chunk_size) xs t)

-- A found slot lies in the table and is not on the list.
pub find_next-free :
    {m g base : ℕ} {p : Page} {xs : List ℕ}
    → Wf m g base p xs
    → (k : ℕ) → find_next m p ≡ some k
    → (k < m) × (has k xs ≡ false)
unfolding find_next
find_next-free {m} {p} w k e =
    let (free, lt) = find_from-some p.chunks m 0 k e in ground (arith, w.slots k)

-- While fewer than `m` chunks are on the list, there is a free slot.
pub find_next-total :
    {m g base : ℕ} {p : Page} {xs : List ℕ}
    → Wf m g base p xs
    → length xs < m
    → (k : ℕ) × (find_next m p ≡ some k)
unfolding find_next
find_next-total {m} {p} {xs} w room = elim (Option-cases (find_next m p)) [
  | inr (k, e) ↦ (k, e)
  | inl e ↦ absurd (
      omega (
        arith,
        le-length_of_has m xs λ i lt. ground (arith, w.slots i, find_from-none p.chunks m 0 i e),
      ))
]
