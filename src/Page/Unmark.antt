-- ===== src/Page/Unmark.antt =====
-- The search of `dealloc` on a well-formed page frees the first block at the address.
use ssuos_mminos.Base.{
  ◌==◌, if◌then◌else◌, Bool-cases, is_none, update, length, has, ℕ, zero, suc, ◌+◌, ◌*◌, ◌<◌, ◌≡◌,
  refl, ◌∙◌, inl, inr, Bool, true, false, not, Option, none, some, List, [], ◌∷◌, arith,
}
use ssuos_mminos.Page.{Mm, Page, unmark}
use ssuos_mminos.Page.Spec.{free_at, holds}
use ssuos_mminos.Page.Invariant.{Chain, Wf, blocks}
use ssuos_mminos.Page.Links.{frame-Chain, frame-Tiles, frame-blocks}

-- `dealloc` before the merge.
pub record Unmarked (m g base : ℕ) (p : Page) (xs : List ℕ) (a : ℕ) (r : Option (Bool × Page))
    : Type 0 where
  pub hit : Bool
  pub page : Page
  pub result : r ≡ some (hit, page)
  pub wf : Wf m g base page xs
  pub freed : blocks page.chunks xs ≡ free_at a (blocks p.chunks xs)
  pub hit_lem : hit ≡ holds a (blocks p.chunks xs)

-- the first chunk at address `a`
abbrev locate_addr : ℕ → (ℕ → Mm) → List ℕ → Option ℕ
locate_addr a c [] = none
locate_addr a c (x ∷ xs) = if (c x).addr == a then some x else locate_addr a c xs

abbrev free_chunk : (ℕ → Mm) → Option ℕ → ℕ → Mm
free_chunk c none = c
free_chunk c (some i) = update c i (record (c i) { flag = false })

-- Only the flag of the located chunk changes.
free_chunk-same :
    (c : ℕ → Mm) (o : Option ℕ) (y : ℕ)
    → (((free_chunk c o) y).prev_idx ≡ (c y).prev_idx)
      × (((free_chunk c o) y).next_idx ≡ (c y).next_idx)
      × (((free_chunk c o) y).addr ≡ (c y).addr)
      × (((free_chunk c o) y).chunk_size ≡ (c y).chunk_size)
      × (((free_chunk c o) y).used ≡ (c y).used)
free_chunk-same c none y = ground arith
free_chunk-same c (some i) y = ground arith

free_chunk-other :
    (a : ℕ) (c : ℕ → Mm) (xs : List ℕ) (x : ℕ)
    → has x xs ≡ false
    → free_chunk c (locate_addr a c xs) x ≡ c x
free_chunk-other a c [] x off = refl
free_chunk-other a c (z ∷ xs) x off = ground (arith, free_chunk-other a c xs x)

unmark-locate :
    (f : ℕ) (p : Page) (prev cur : Option ℕ) (xs : List ℕ) (a : ℕ)
    → Chain p.chunks prev cur xs
    → length xs < f
    → unmark f p cur a
      ≡ some (
        not (is_none (locate_addr a p.chunks xs)),
        record p { chunks = free_chunk p.chunks (locate_addr a p.chunks xs) },
      )
unfolding unmark
unmark-locate zero p prev cur xs a ch lt = absurd (omega arith)
unmark-locate (suc f) p prev cur [] a ch lt = rw ch
unmark-locate (suc f) p prev cur (x ∷ xs) a (e, q, new, rest) lt =
    rw e (ground (arith, unmark-locate f p (some x) (p.chunks x).next_idx xs a rest))

locate_addr-free_at :
    (a : ℕ) (c : ℕ → Mm) (prev cur : Option ℕ) (xs : List ℕ)
    → Chain c prev cur xs
    → (blocks (free_chunk c (locate_addr a c xs)) xs ≡ free_at a (blocks c xs))
      × (not (is_none (locate_addr a c xs)) ≡ holds a (blocks c xs))
unfolding free_at holds
locate_addr-free_at a c prev cur [] ch = (refl, refl)
locate_addr-free_at a c prev cur (x ∷ xs) (e, q, new, rest) = elim (Bool-cases ((c x).addr == a)) [
  | inl here ↦ ground (
    arith,
    frame-blocks c (update c x (record (c x) { flag = false })) xs
        λ (y : ℕ) (h : has y xs ≡ true). ground arith,
  )
  | inr later ↦ ground (
    arith,
    locate_addr-free_at a c (some x) (c x).next_idx xs rest,
    free_chunk-other a c xs x new,
  )
]

pub unmark-Unmarked :
    {m g base : ℕ} {p : Page} {xs : List ℕ} (w : Wf m g base p xs) (a f : ℕ)
    → length xs < f
    → Unmarked m g base p xs a (unmark f p p.head_idx a)
unmark-Unmarked {m} {g} {base} {p} {xs} w a f lt = record {
  hit = not (is_none (locate_addr a p.chunks xs));
  page = record p { chunks = c };
  result = unmark-locate f p none p.head_idx xs a w.chain lt;
  wf = record {
    chain =
        frame-Chain p.chunks c none p.head_idx xs w.chain
          (λ y h. let s = free_chunk-same p.chunks (locate_addr a p.chunks xs) y in (s.0, s.1));
    tiles =
        frame-Tiles p.chunks c g base xs (base + m * g) w.tiles
          (λ y h. let s = free_chunk-same p.chunks (locate_addr a p.chunks xs) y in (s.2, s.3));
    slots = λ y h. (free_chunk-same p.chunks (locate_addr a p.chunks xs) y).4 ∙ w.slots y h;
    bound = w.bound;
  };
  freed = (locate_addr-free_at a p.chunks none p.head_idx xs w.chain).0;
  hit_lem = (locate_addr-free_at a p.chunks none p.head_idx xs w.chain).1;
}
  where
    c : ℕ → Mm
    c = free_chunk p.chunks (locate_addr a p.chunks xs)
