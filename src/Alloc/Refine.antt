-- ===== src/Alloc/Refine.antt =====
-- alloc.c against the abstract allocator: `alloc` is first fit, `dealloc` frees and coalesces, and
-- both keep the chunk table well formed.
use ssuos_mminos.Base.{
  ltb, if◌then◌else◌, Option-cases, length, ℕ, ◌+◌, ◌/◌, ◌%◌, ◌≤◌, ◌<◌, ◌≡◌, refl, sym, ap, ◌∙◌,
  inl, inr, false, none, some, List, [], ◌∷◌, arith,
}
use ssuos_mminos.Page.{fresh_chunk, Mm, Page, Outcome, walk, unmark}
use ssuos_mminos.Page.Spec.{last_size, Block, block, first_fit, free_at, coalesce}
use ssuos_mminos.Page.SpecLaws.{Tiled, Clear, first_fit-range, first_fit-Clear, free_at-first_fit}
use ssuos_mminos.Page.Invariant.{Units, Tiles, Wf, block_of, blocks}
use ssuos_mminos.Page.Find.{length-Tiles}
use ssuos_mminos.Page.Walk.{Searched, hit, miss, give_up, walk-Searched}
use ssuos_mminos.Page.Unmark.{Unmarked, unmark-Unmarked}
use ssuos_mminos.Page.Merge.{Merged, Merged-cast, merge-coalesce}
use ssuos_mminos.Alloc.{
  page_size, min_alloc, chunk_max, fuel, Ret, null, ptr, uninit, finish, init_alloc, alloc, dealloc,
}

-- A request that `alloc` accepts, apart from 0.
abbrev pub Request : ℕ → Type 0
Request n = (0 < n) × (n % min_alloc ≡ 0) × (n ≤ page_size)

abbrev pub WfPage : ℕ → Page → List ℕ → Type 0
WfPage = Wf chunk_max min_alloc

Request-Units : (n : ℕ) → Request n → Units min_alloc n
Request-Units n (pos, whole, le) = (n / min_alloc, omega arith, omega arith)

-- The list never outgrows the table, so the fuel is enough.
length-WfPage : {base : ℕ} {p : Page} (xs : List ℕ) → WfPage base p xs → length xs + 2 ≤ fuel
length-WfPage {base} {p} xs w = omega (arith, length-Tiles min_alloc p.chunks base xs w.tiles)

-- What a call that finds room returns and leaves behind.
pub record Granted (base : ℕ) (p : Page) (xs : List ℕ) (n a : ℕ) (bs : List Block) (r : Ret × Page)
    : Type 0 where
  pub page : Page
  pub list : List ℕ
  pub result : r ≡ (ptr a, page)
  pub wf : WfPage base page list
  pub after : blocks page.chunks list ≡ bs

alloc-accepts :
    (p : Page) (n : ℕ) → Request n → alloc n p ≡ finish (walk chunk_max fuel p p.head_idx n) p
unfolding alloc
alloc-accepts p n (pos, whole, le) = ground arith

Searched-Granted :
    {base : ℕ} {p : Page} {xs : List ℕ} {n a : ℕ} {bs : List Block} {r : Outcome}
    → Searched chunk_max min_alloc base p xs n r
    → first_fit n (blocks p.chunks xs) ≡ some (a, bs)
    → Granted base p xs n a bs (finish r p)
unfolding finish
Searched-Granted {p} {r} (hit d) f = record {
  page = d.page;
  list = d.list;
  result = rw d.result (ground (arith, d.first));
  wf = d.wf;
  after = ground (arith, d.first);
}
Searched-Granted (miss none_fits e) f = absurd (ground arith)

Searched-refused :
    {base : ℕ} {p : Page} {xs : List ℕ} {n : ℕ} {r : Outcome}
    → Searched chunk_max min_alloc base p xs n r
    → first_fit n (blocks p.chunks xs) ≡ none
    → finish r p ≡ finish (give_up n (blocks p.chunks xs)) p
Searched-refused (hit d) f = absurd (ground (arith, d.first))
Searched-refused {p} (miss none_fits e) f = ap (λ o. finish o p) e

Tiles-Tiled :
    (g : ℕ) (c : ℕ → Mm) (a : ℕ) (xs : List ℕ) (e : ℕ)
    → Tiles g c a xs e
    → 0 < g
    → Tiled a (blocks c xs) e
Tiles-Tiled g c a [] e t pos = t
Tiles-Tiled g c a (x ∷ xs) e (at, (q, size, q_pos), t) pos =
    (at, grind arith, Tiles-Tiled g c (a + (c x).chunk_size) xs e t pos)

not-granted : (bs : List Block) (n a : ℕ) (p p' : Page) → ¬ (finish (give_up n bs) p ≡ (ptr a, p'))
unfolding finish
not-granted [] n a p p' e = cc
not-granted (b ∷ []) n a p p' e = ground arith
not-granted (b ∷ d ∷ bs) n a p p' e = not-granted (d ∷ bs) n a p p' e

give_up-last_size :
    (b : Block) (bs : List Block) (n : ℕ) (p : Page)
    → finish (give_up n (b ∷ bs)) p ≡ ((if ltb (last_size (b ∷ bs)) n then null else uninit), p)
unfolding finish
give_up-last_size b [] n p = ground arith
give_up-last_size b (d ∷ bs) n p = give_up-last_size d bs n p

module _ {base : ℕ} {p : Page} {xs : List ℕ} (w : WfPage base p xs) where
  searched :
      (n : ℕ)
      → Request n
      → Searched chunk_max min_alloc base p xs n (walk chunk_max fuel p p.head_idx n)
  searched n r =
      walk-Searched w n fuel (omega arith) (Request-Units n r) (omega (arith, length-WfPage xs w))

  -- On a well-formed page, a request for a positive multiple of 8 bytes, at most 4096, for which
  -- first fit finds address `a` is answered with `a`. The page stays well formed, and its blocks
  -- are those of first fit.
  pub alloc_refines :
      (n a : ℕ) (bs : List Block)
      → Request n
      → first_fit n (blocks p.chunks xs) ≡ some (a, bs)
      → Granted base p xs n a bs (alloc n p)
  alloc_refines n a bs r f = rw (alloc-accepts p n r) (Searched-Granted (searched n r) f)

  alloc-gives_up :
      (n : ℕ)
      → Request n
      → first_fit n (blocks p.chunks xs) ≡ none
      → alloc n p ≡ finish (give_up n (blocks p.chunks xs)) p
  alloc-gives_up n r f = alloc-accepts p n r ∙ Searched-refused (searched n r) f

  -- When no free block of a well-formed page is large enough for a positive multiple of 8 bytes, at
  -- most 4096, `alloc` leaves the page as it is, and returns NULL if the
  -- last block of the page is smaller than the request, and an uninitialised pointer if not.
  pub alloc-refuses :
      (n : ℕ)
      → Request n
      → first_fit n (blocks p.chunks xs) ≡ none
      → alloc n p ≡ ((if ltb (last_size (blocks p.chunks xs)) n then null else uninit), p)
  alloc-refuses n r f = alloc-gives_up n r f ∙ last xs w
    where
      last :
          (ys : List ℕ)
          → WfPage base p ys
          → finish (give_up n (blocks p.chunks ys)) p
            ≡ ((if ltb (last_size (blocks p.chunks ys)) n then null else uninit), p)
      last [] v = absurd (omega (arith, v.tiles))
      last (y ∷ ys) v = give_up-last_size (block_of (p.chunks y)) (blocks p.chunks ys) n p

  unmarked : (a : ℕ) → Unmarked chunk_max min_alloc base p xs a (unmark fuel p p.head_idx a)
  unmarked a = unmark-Unmarked w a fuel (omega (arith, length-WfPage xs w))

  -- On a well-formed page `dealloc` ends, whatever address it is given: the first block at that address, if any, becomes
  -- free, free neighbours are coalesced, and the page stays well formed.
  pub dealloc_refines :
      (a : ℕ)
      → Merged chunk_max min_alloc base (coalesce (free_at a (blocks p.chunks xs))) (dealloc a p)
  unfolding dealloc
  dealloc_refines a =
      let u = unmarked a in
      Merged-cast (ap coalesce u.freed) (rw (u.result, dealloc))
        (merge-coalesce u.wf fuel (omega (arith, length-WfPage xs w)))

  WfPage-Tiled : Tiled base (blocks p.chunks xs) (base + page_size)
  WfPage-Tiled = Tiles-Tiled min_alloc p.chunks base xs (base + page_size) w.tiles (omega arith)

  -- On a well-formed page, the bytes of a granted request for a positive multiple of 8 lie in the
  -- page and overlap no block that was busy before.
  pub alloc-Clear :
      (n a : ℕ) (p' : Page)
      → Request n
      → alloc n p ≡ (ptr a, p')
      → (base ≤ a) × (a + n ≤ base + page_size) × Clear a n (blocks p.chunks xs)
  alloc-Clear n a p' r e = elim (Option-cases (first_fit n (blocks p.chunks xs))) [
    | inl none_fits ↦
        absurd (not-granted (blocks p.chunks xs) n a p p' (sym (alloc-gives_up n r none_fits) ∙ e))
    | inr ((a', bs), fit) ↦
        let g = alloc_refines n a' bs r fit in
        let same : a' ≡ a = ground (arith, g.result) in
        let (lo, hi) =
          first_fit-range n base (blocks p.chunks xs) (base + page_size) a' bs WfPage-Tiled fit in
        (
          omega arith,
          omega arith,
          rw (← same) (
              first_fit-Clear n base (blocks p.chunks xs) (base + page_size) a' bs WfPage-Tiled
                fit),
        )
  ]

-- If no chunk is in use, `init_alloc` makes a well-formed page of one free block of 4096 bytes at
-- the address that mmap gave.
pub init_alloc-WfPage :
    (base : ℕ) (p : Page)
    → ((i : ℕ) → (p.chunks i).used ≡ false)
    → WfPage base (init_alloc base p).1 (0 ∷ [])
      × (blocks (init_alloc base p).1.chunks (0 ∷ []) ≡ block base page_size false ∷ [])
unfolding init_alloc fresh_chunk
init_alloc-WfPage base p unused = (
  record {
    chain = (refl, refl, refl, refl);
    tiles = (refl, (512, refl, omega arith), refl);
    slots = λ i h. ground (arith, unused i);
    bound = λ i h. ground arith;
  },
  refl,
)

-- What `dealloc` makes of the block that a granted request returned.
pub record Restored (base : ℕ) (p : Page) (xs : List ℕ) (a : ℕ) (p' : Page) : Type 0 where
  pub page : Page
  pub list : List ℕ
  pub result : dealloc a p' ≡ some page
  pub wf : WfPage base page list
  pub same : blocks page.chunks list ≡ coalesce (blocks p.chunks xs)

-- When a well-formed page has granted a positive multiple of 8 bytes, `dealloc` of the address ends,
-- and the page is well formed and has the blocks from before the request, coalesced.
pub dealloc-alloc :
    {base : ℕ} {p : Page} {xs : List ℕ} (w : WfPage base p xs) (n a : ℕ) (p' : Page)
    → Request n
    → alloc n p ≡ (ptr a, p')
    → Restored base p xs a p'
dealloc-alloc {base} {p} {xs} w n a p' r e =
    elim (Option-cases (first_fit n (blocks p.chunks xs))) [
      | inl none_fits ↦
          absurd
            (not-granted (blocks p.chunks xs) n a p p' (sym (alloc-gives_up w n r none_fits) ∙ e))
      | inr ((a', bs), fit) ↦
          let g = alloc_refines w n a' bs r fit in
          let same : a' ≡ a = ground (arith, g.result) in
          let page : g.page ≡ p' = ground (arith, g.result) in
          let m = dealloc_refines g.wf a' in
          record {
            page = m.page;
            list = m.list;
            result = rw (← same, ← page) m.result;
            wf = m.wf;
            same =
                m.merged
                ∙ ap (λ b. coalesce (free_at a' b)) g.after
                ∙ free_at-first_fit n base (blocks p.chunks xs) (base + page_size) a' bs
                    (WfPage-Tiled w) fit;
          }
    ]
