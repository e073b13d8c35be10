-- ===== src/Ealloc/Search.antt =====
-- The search over the pages of ealloc.c: the first page with room serves the request by first fit.
use ssuos_mminos.Base.{
  ◌==◌, Bool-cases, update, length, ℕ, zero, suc, ◌+◌, ◌/◌, ◌%◌, ◌≤◌, ◌<◌, ◌≡◌, refl, ◌∙◌, ◌⊎◌, inl,
  inr, false, Option, none, some, List, [], ◌∷◌, arith,
}
use native.Mathlib.Decide.{dec_lt}
use ssuos_mminos.Page.{Page, found, too_small, fell_off, walk}
use ssuos_mminos.Page.Spec.{Block, first_fit}
use ssuos_mminos.Page.Invariant.{Units, Wf, blocks}
use ssuos_mminos.Page.Find.{length-Tiles}
use ssuos_mminos.Page.Walk.{Searched, hit, miss, give_up, walk-Searched}
use ssuos_mminos.Ealloc.{
  page_size, min_alloc, chunk_max, page_max, fuel, State, Ret, ptr, search_pages,
}

-- A request that `alloc` accepts, apart from 0.
abbrev pub Request : ℕ → Type 0
Request n = (0 < n) × (n % min_alloc ≡ 0) × (n ≤ page_size)

abbrev pub WfPage : ℕ → Page → List ℕ → Type 0
WfPage = Wf chunk_max min_alloc

-- The pages in use are well formed, and the tables of the others have not been used.
pub record WfState (mmap : ℕ → ℕ) (s : State) (ls : ℕ → List ℕ) : Type 0 where
  pub few : s.pagenum ≤ page_max
  pub in_use : (i : ℕ) → i < s.pagenum → WfPage (mmap i) (s.pages i) (ls i)
  pub unused : (i j : ℕ) → s.pagenum ≤ i → ((s.pages i).chunks j).used ≡ false

-- the blocks of page `i`
abbrev pub page_blocks : State → (ℕ → List ℕ) → ℕ → List Block
page_blocks s ls i = blocks (s.pages i).chunks (ls i)

-- The state after page `k` has been written back.
pub put_page-WfState :
    (mmap : ℕ → ℕ) (s : State) (ls : ℕ → List ℕ) (k : ℕ) (page : Page) (list : List ℕ)
    → WfState mmap s ls
    → k < s.pagenum
    → WfPage (mmap k) page list
    → WfState mmap (record s { pages = update s.pages k page }) (update ls k list)
put_page-WfState mmap s ls k page list w lt v = record {
  few = w.few;
  in_use = λ i h. elim (Bool-cases (k == i)) [
    | inl here ↦ rw here (let same : i ≡ k = ground arith in rw same v)
    | inr other ↦ rw other (w.in_use i h)
  ];
  unused = λ i j h. ground (arith, w.unused i j h);
}

Request-Units : (n : ℕ) → Request n → Units min_alloc n
Request-Units n (pos, whole, le) = (n / min_alloc, omega arith, omega arith)

pub length-WfPage : {base : ℕ} {p : Page} (xs : List ℕ) → WfPage base p xs → length xs + 2 ≤ fuel
length-WfPage {base} {p} xs w = omega (arith, length-Tiles min_alloc p.chunks base xs w.tiles)

-- The first page from `i` on that has room, and what the search makes of it.
pub record PageHit (mmap : ℕ → ℕ) (s : State) (ls : ℕ → List ℕ) (n i : ℕ) (r : Option (Ret × State))
    : Type 0 where
  pub k : ℕ
  pub at : ℕ
  pub page : Page
  pub list : List ℕ
  pub from : i ≤ k
  pub below : k < s.pagenum
  pub result : r ≡ some (ptr at, record s { pages = update s.pages k page })
  pub wf : WfPage (mmap k) page list
  pub first : first_fit n (page_blocks s ls k) ≡ some (at, blocks page.chunks list)
  pub earlier : (j : ℕ) → i ≤ j → j < k → first_fit n (page_blocks s ls j) ≡ none

pub data Found (mmap : ℕ → ℕ) (s : State) (ls : ℕ → List ℕ) (n i : ℕ) (r : Option (Ret × State))
    : Type 0 where
  one : PageHit mmap s ls n i r → Found mmap s ls n i r
  all_full :
      r ≡ none
      → ((j : ℕ) → i ≤ j → j < s.pagenum → first_fit n (page_blocks s ls j) ≡ none)
      → Found mmap s ls n i r

give_up-cases : (n : ℕ) (bs : List Block) → (give_up n bs ≡ too_small) ⊎ (give_up n bs ≡ fell_off)
give_up-cases n [] = inr refl
give_up-cases n (b ∷ []) = ground arith
give_up-cases n (b ∷ d ∷ bs) = give_up-cases n (d ∷ bs)

search-zero : (n i : ℕ) (s : State) → search_pages 0 i n s ≡ none
unfolding search_pages
search-zero n i s = refl

module _ {mmap : ℕ → ℕ} {s : State} {ls : ℕ → List ℕ} (w : WfState mmap s ls) (n : ℕ)
    (r : Request n) where
  searched :
      (i : ℕ)
      → i < s.pagenum
      → Searched chunk_max min_alloc
          (mmap i)
          (s.pages i)
          (ls i)
          n
          (walk chunk_max fuel (s.pages i) (s.pages i).head_idx n)
  searched i lt =
      let v = w.in_use i lt in
      walk-Searched v n fuel (omega arith) (Request-Units n r)
        (omega (arith, length-WfPage (ls i) v))

  search-hit :
      (d i : ℕ) (a : ℕ) (p : Page)
      → walk chunk_max fuel (s.pages i) (s.pages i).head_idx n ≡ found a p
      → search_pages (suc d) i n s ≡ some (ptr a, record s { pages = update s.pages i p })
  unfolding search_pages
  search-hit d i a p e = rw (e, search_pages)

  search-miss :
      (d i : ℕ)
      → walk chunk_max fuel (s.pages i) (s.pages i).head_idx n ≡ give_up n (page_blocks s ls i)
      → search_pages (suc d) i n s ≡ search_pages d (i + 1) n s
  unfolding search_pages
  search-miss d i e = elim (give_up-cases n (page_blocks s ls i)) [
    | inl small ↦ rw (e ∙ small, search_pages)
    | inr off ↦ rw (e ∙ off, search_pages)
  ]

  pub search-Found : (d i : ℕ) → i + d ≡ s.pagenum → Found mmap s ls n i (search_pages d i n s)
  search-Found zero i e = all_full nothing (λ j lo hi. absurd (omega arith))
    where
      nothing : search_pages 0 i n s ≡ none
      nothing = search-zero n i s
  search-Found (suc d) i e = step (searched i (omega arith)) (search-Found d (i + 1) (omega arith))
    where
      later :
          Found mmap s ls n (i + 1) (search_pages d (i + 1) n s)
          → walk chunk_max fuel (s.pages i) (s.pages i).head_idx n ≡ give_up n (page_blocks s ls i)
          → first_fit n (page_blocks s ls i) ≡ none
          → Found mmap s ls n i (search_pages (suc d) i n s)
      later (one h) e' no_fit = one (record {
        k = h.k;
        at = h.at;
        page = h.page;
        list = h.list;
        from = omega (arith, h.from);
        below = h.below;
        result = search-miss d i e' ∙ h.result;
        wf = h.wf;
        first = h.first;
        earlier = λ j lo hi. elim (dec_lt i j) [
          | yes lt ↦ h.earlier j (omega arith) hi
          | no ge ↦ let same : j ≡ i = omega arith in rw same no_fit
        ];
      })
      later (all_full e'' none_after) e' no_fit = all_full (search-miss d i e' ∙ e'') λ j lo hi.
          elim (dec_lt i j) [
            | yes lt ↦ none_after j (omega arith) hi
            | no ge ↦ let same : j ≡ i = omega arith in rw same no_fit
          ]

      step :
          Searched chunk_max min_alloc
            (mmap i)
            (s.pages i)
            (ls i)
            n
            (walk chunk_max fuel (s.pages i) (s.pages i).head_idx n)
          → Found mmap s ls n (i + 1) (search_pages d (i + 1) n s)
          → Found mmap s ls n i (search_pages (suc d) i n s)
      step (hit h) rest = one (record {
        k = i;
        at = h.at;
        page = h.page;
        list = h.list;
        from = omega arith;
        below = omega (arith, e);
        result = search-hit d i h.at h.page h.result;
        wf = h.wf;
        first = h.first;
        earlier = λ j lo hi. absurd (omega arith);
      })
      step (miss no_fit e') rest = later rest e' no_fit
