-- ===== src/Page/Walk.antt =====
-- The search loop of `alloc` on a well-formed page is first fit, and the search of `dealloc` frees
-- the first block at the address.
use ssuos_mminos.Base.{
  ltb, if◌then◌else◌, Option-cases, length, ℕ, zero, suc, ◌<◌, ◌≡◌, refl, inl, inr, Option, none,
  some, List, [], ◌∷◌, arith,
}
use ssuos_mminos.Page.{Mm, Page, Outcome, too_small, fell_off, walk, place}
use ssuos_mminos.Page.Spec.{Block, first_fit}
use ssuos_mminos.Page.Invariant.{Chain, Units, Wf, blocks}
use ssuos_mminos.Page.Links.{locate}
use ssuos_mminos.Page.Place.{Placed, place-Placed}

Chain-end :
    (c : ℕ → Mm) (prev cur : Option ℕ) (xs : List ℕ) → Chain c prev cur xs → cur ≡ none → xs ≡ []
Chain-end c prev cur [] ch e = refl
Chain-end c prev cur (x ∷ xs) (e', _, _, _) e = cc

-- The loop stops at the first chunk that fits, and otherwise gives up or runs off the end.
walk-locate :
    (m f : ℕ) (p : Page) (prev cur : Option ℕ) (xs : List ℕ) (n i : ℕ)
    → Chain p.chunks prev cur xs
    → length xs < f
    → locate n p.chunks xs ≡ some i
    → walk m f p cur n ≡ place m p i n
unfolding walk
walk-locate m zero p prev cur xs n i ch lt l = absurd (omega arith)
walk-locate m (suc f) p prev cur [] n i ch lt l = cc
walk-locate m (suc f) p prev cur (x ∷ xs) n i (e, q, new, rest) lt l = rw e (
    ground (
      arith,
      Chain-end p.chunks (some x) (p.chunks x).next_idx xs rest,
      walk-locate m f p (some x) (p.chunks x).next_idx xs n i rest,
    ))

-- How the loop ends when no chunk fits: by the test on the last chunk, or past it.
abbrev pub give_up : ℕ → List Block → Outcome
give_up n [] = fell_off
give_up n (b ∷ []) = if ltb b.size n then too_small else fell_off
give_up n (b ∷ d ∷ bs) = give_up n (d ∷ bs)

walk-none :
    (m f : ℕ) (p : Page) (prev cur : Option ℕ) (xs : List ℕ) (n : ℕ)
    → Chain p.chunks prev cur xs
    → length xs < f
    → locate n p.chunks xs ≡ none
    → walk m f p cur n ≡ give_up n (blocks p.chunks xs)
unfolding walk
walk-none m zero p prev cur xs n ch lt l = absurd (omega arith)
walk-none m (suc f) p prev cur [] n ch lt l = ground arith
walk-none m (suc zero) p prev cur (x ∷ xs) n ch lt l = absurd (omega arith)
walk-none m (suc (suc f)) p prev cur (x ∷ []) n (e, q, new, rest) lt l = rw (e, rest) (ground arith)
walk-none m (suc f) p prev cur (x ∷ z ∷ xs) n (e, q, new, rest) lt l =
    rw e (ground (arith, walk-none m f p (some x) (p.chunks x).next_idx (z ∷ xs) n rest))

-- Stated for every page: the search finds what first fit finds, or nothing.
pub data Searched (m g base : ℕ) (p : Page) (xs : List ℕ) (n : ℕ) (r : Outcome) : Type 0 where
  hit : Placed m g base p xs n r → Searched m g base p xs n r
  miss :
      first_fit n (blocks p.chunks xs) ≡ none
      → r ≡ give_up n (blocks p.chunks xs)
      → Searched m g base p xs n r

locate-none :
    (n : ℕ) (c : ℕ → Mm) (xs : List ℕ) → locate n c xs ≡ none → first_fit n (blocks c xs) ≡ none
unfolding first_fit
locate-none n c [] l = refl
locate-none n c (x ∷ xs) l = ground (arith, locate-none n c xs)

pub walk-Searched :
    {m g base : ℕ} {p : Page} {xs : List ℕ} (w : Wf m g base p xs) (n f : ℕ)
    → 0 < g
    → Units g n
    → length xs < f
    → Searched m g base p xs n (walk m f p p.head_idx n)
walk-Searched {m} {g} {base} {p} {xs} w n f pos u lt = elim (Option-cases (locate n p.chunks xs)) [
  | inl none_fits ↦
      miss (locate-none n p.chunks xs none_fits)
        (walk-none m f p none p.head_idx xs n w.chain lt none_fits)
  | inr (i, l) ↦
      hit (rw (walk-locate m f p none p.head_idx xs n i w.chain lt l) (place-Placed w n i l pos u))
]
