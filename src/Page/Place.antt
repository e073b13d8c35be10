-- ===== src/Page/Place.antt =====
-- What the body of the search loop does to a well-formed page: the chosen chunk is marked, or its
-- first bytes become a new chunk in front of it.
use ssuos_mminos.Base.{
  ℕ, zero, suc, ◌+◌, ◌-◌, ◌*◌, ◌≤◌, ◌<◌, ◌≡◌, ◌≢◌, true, false, Option, none, some, List, [], ◌∷◌,
  arith, has, length, Bool-cases, inl, inr, ◌==◌, ap, if◌then◌else◌,
}
use ssuos_mminos.Page.{
  Mm, Page, Outcome, found, take_whole, link_new, split_chunk, place, find_next,
}
use ssuos_mminos.Page.Spec.{first_fit, fits}
use ssuos_mminos.Page.Invariant.{Chain, Units, Tiles, Wf, block_of, blocks}
use ssuos_mminos.Page.Find.{length-Tiles, find_next-free, find_next-total}
use ssuos_mminos.Page.Links.{
  frame-Chain, frame-Tiles, frame-blocks, insert_before, has-insert_before, Split, locate,
  has-locate, split-Chain, split-Tiles, split-first_fit,
}

Units-split : (g q r d : ℕ) → q ≡ r + d → q * g ≡ r * g + d * g
Units-split g q r d e = rw e (omega arith)

Units-sub : (g a b : ℕ) → Units g a → Units g b → b < a → Units g (a - b)
Units-sub g a b (q, e, _) (r, f, _) lt =
    let r_q : r < q = grind arith in
    let d : q ≡ r + (q - r) = omega arith in
    let d' : q * g ≡ r * g + (q - r) * g = Units-split g q r (q - r) d in
    (q - r, omega arith, omega arith)

lt_of_units : (g a b : ℕ) → 0 < g → suc a * g ≤ b * g → a < b
lt_of_units g a b pos le = grind arith

-- A list with a chunk of two units or more leaves room for one more chunk.
room :
    (g : ℕ) (c : ℕ → Mm) (a : ℕ) (xs : List ℕ) {e i : ℕ}
    → Tiles g c a xs e
    → has i xs ≡ true
    → g + g ≤ (c i).chunk_size
    → a + suc (length xs) * g ≤ e
room g c a [] t on big = cc
room g c a (x ∷ xs) {e} {i} (_, (zero, u, pos), t) on big = absurd (omega arith)
room g c a (x ∷ xs) {e} {i} (_, (suc q, u, _), t) on big = elim (Bool-cases (i == x)) [
  | inl here ↦
      let cell : (c i) ≡ (c x) = ap c (ground arith) in
      omega (arith, ap Mm.chunk_size cell, length-Tiles g c (a + (c x).chunk_size) xs t)
  | inr later ↦ omega (arith, room g c (a + (c x).chunk_size) xs {i = i} t (ground arith) big)
]

two-Units : (g a b : ℕ) → Units g a → Units g b → b < a → g + g ≤ a
two-Units g a b u (zero, f, pos) lt = absurd (omega arith)
two-Units g a b u (suc r, f, pos) lt =
    let (q, e, pos') = Units-sub g a b u (suc r, f, pos) lt in at_least q e pos'
  where
    at_least : (q : ℕ) → a - b ≡ q * g → 0 < q → g + g ≤ a
    at_least zero e' pos' = absurd (omega arith)
    at_least (suc q) e' pos' = omega arith

Tiles-Units :
    (g : ℕ) (c : ℕ → Mm) (a : ℕ) (xs : List ℕ) (i e : ℕ)
    → Tiles g c a xs e
    → has i xs ≡ true
    → Units g (c i).chunk_size
Tiles-Units g c a [] i e t on = cc
Tiles-Units g c a (x ∷ xs) i e (_, u, t) on = elim (Bool-cases (i == x)) [
  | inl here ↦ let at : i ≡ x = ground arith in rw at u
  | inr later ↦ Tiles-Units g c (a + (c x).chunk_size) xs i e t (ground arith)
]

locate-fits :
    (n : ℕ) (c : ℕ → Mm) (xs : List ℕ) (i : ℕ)
    → locate n c xs ≡ some i
    → (n ≤ (c i).chunk_size) × ((c i).flag ≡ false)
locate-fits n c [] i e = cc
locate-fits n c (x ∷ xs) i e = ground (arith, locate-fits n c xs i)

-- An exact fit is the first fit of the blocks.
whole-first_fit :
    (c c' : ℕ → Mm) (n : ℕ) (prev cur : Option ℕ) (xs : List ℕ) (i : ℕ)
    → Chain c prev cur xs
    → locate n c xs ≡ some i
    → (c i).chunk_size ≡ n
    → (c' i ≡ record (c i) { flag = true })
    → ((y : ℕ) → y ≢ i → c' y ≡ c y)
    → first_fit n (blocks c xs) ≡ some ((c i).addr, blocks c' xs)
unfolding first_fit
whole-first_fit c c' n prev cur [] i ch l fit at others = cc
whole-first_fit c c' n prev cur (x ∷ xs) i (e, p, new, rest) l fit at others =
    elim (Bool-cases (fits n (block_of (c x)))) [
      | inl here ↦
          let at_i : x ≡ i = ground arith in
          ground (
            arith,
            frame-blocks c c' xs
                λ (y : ℕ) (h : has y xs ≡ true). ap block_of (others y (ground arith)),
          )
      | inr later ↦
          let on : has i xs ≡ true = has-locate n c xs i (ground arith) in
          ground (
            arith,
            others x (ground arith),
            whole-first_fit c c' n (some x) (c x).next_idx xs i rest (ground arith) fit at others,
          )
    ]

-- What `place` makes of the page: the blocks after it are those of the first fit.
pub record Placed (m g base : ℕ) (p : Page) (xs : List ℕ) (n : ℕ) (r : Outcome) : Type 0 where
  pub at : ℕ
  pub page : Page
  pub list : List ℕ
  pub result : r ≡ found at page
  pub wf : Wf m g base page list
  pub first : first_fit n (blocks p.chunks xs) ≡ some (at, blocks page.chunks list)

module _ {m g base : ℕ} {p : Page} {xs : List ℕ} (w : Wf m g base p xs) (n i : ℕ)
    (chosen : locate n p.chunks xs ≡ some i) where
  place-whole : (p.chunks i).chunk_size ≡ n → Placed m g base p xs n (place m p i n)
  unfolding place take_whole
  place-whole fit = record {
    at = (p.chunks i).addr;
    page = take_whole p i;
    list = xs;
    result = ground arith;
    wf = record {
      chain =
          frame-Chain p.chunks (take_whole p i).chunks none p.head_idx xs w.chain
            (λ y h. ground arith);
      tiles =
          frame-Tiles p.chunks (take_whole p i).chunks g base xs (base + m * g) w.tiles
            (λ y h. ground arith);
      slots = λ y h. ground (arith, w.slots y h);
      bound = w.bound;
    };
    first =
        whole-first_fit p.chunks (take_whole p i).chunks n none p.head_idx xs i w.chain chosen fit
          (ground arith) (λ y h. ground arith);
  }

  split_chunk-Split : (k : ℕ) → i ≢ k → Split p.chunks (split_chunk p i k n).chunks i k n
  unfolding split_chunk link_new
  split_chunk-Split k ne = record {
    new_next = ground arith;
    new_prev = ground arith;
    new_block = ground arith;
    new_size = ground arith;
    new_flag = ground arith;
    old_next = ground arith;
    old_prev = ground arith;
    old_addr = ground arith;
    old_size = ground arith;
    old_flag = ground arith;
    linked = λ y a b e. ground arith;
    kept = λ y a b e. ground arith;
    others = λ y a b. ground arith;
  }

  split-slots :
      (k : ℕ)
      → i ≢ k
      → (y : ℕ)
      → ((split_chunk p i k n).chunks y).used ≡ (if y == k then true else (p.chunks y).used)
  unfolding split_chunk link_new
  split-slots k ne y = ground arith

  split-head :
      (k : ℕ)
      → (((p.chunks i).prev_idx ≡ none) → (split_chunk p i k n).head_idx ≡ some k)
        × (((p.chunks i).prev_idx ≢ none) → (split_chunk p i k n).head_idx ≡ p.head_idx)
  unfolding split_chunk link_new
  split-head k = (λ e. ground arith, λ e. ground arith)

  place-split :
      0 < g → Units g n → n < (p.chunks i).chunk_size → Placed m g base p xs n (place m p i n)
  unfolding place
  place-split pos u big = record {
    at = (p.chunks i).addr;
    page = split_chunk p i k n;
    list = insert_before k i xs;
    result = ground (arith, found_k);
    wf = record {
      chain =
          split-Chain s ne none p.head_idx _ xs w.chain on off (λ y h. ground arith)
            (split-head k).0 (split-head k).1;
      tiles =
          split-Tiles s ne g base none p.head_idx xs (base + m * g) w.chain w.tiles on off u
            (Units-sub g _ n size u big) (omega arith);
      slots = λ y h. ground (arith, split-slots k ne y, has-insert_before k i xs y on, w.slots y h);
      bound = λ y h. ground (arith, has-insert_before k i xs y on, w.bound y, k_free);
    };
    first = split-first_fit s ne none p.head_idx xs w.chain off chosen (ground arith);
  }
    where
      on : has i xs ≡ true
      on = has-locate n p.chunks xs i chosen

      size : Units g (p.chunks i).chunk_size
      size = Tiles-Units g p.chunks base xs i (base + m * g) w.tiles on

      slot : (k : ℕ) × (find_next m p ≡ some k)
      slot = find_next-total w (
          lt_of_units g (length xs) m pos (
            omega (arith, room g p.chunks base xs {i = i} w.tiles on (two-Units g _ n size u big))))

      k : ℕ
      k = slot.0

      found_k : find_next m p ≡ some k
      found_k = slot.1

      k_free : (k < m) × (has k xs ≡ false)
      k_free = find_next-free w k found_k

      off : has k xs ≡ false
      off = k_free.1

      ne : i ≢ k
      ne e = ground (arith, on, off)

      s : Split p.chunks (split_chunk p i k n).chunks i k n
      s = split_chunk-Split k ne

  -- In either case a chosen chunk is handed out, and the page stays well formed.
  pub place-Placed : 0 < g → Units g n → Placed m g base p xs n (place m p i n)
  place-Placed pos u = elim (Bool-cases ((p.chunks i).chunk_size == n)) [
    | inl exact ↦ place-whole (ground arith)
    | inr larger ↦ place-split pos u (ground (arith, locate-fits n p.chunks xs i chosen))
  ]
