-- ===== src/Ealloc/Refine.antt =====
-- ealloc.c against the abstract allocator: a request is served by the first page with room, or by
-- a new page, and refused only when four pages are full.
use ssuos_mminos.Base.{
  not-some, ltb, ◌==◌, if◌then◌else◌, Bool-cases, update, ℕ, suc, ◌+◌, ◌%◌, ◌<◌, ◌≡◌, refl, sym, ap,
  ◌∙◌, ◌≢◌, inl, inr, true, false, not, ◌||◌, none, some, List, [], ◌∷◌, arith,
}
use mathlib.Core.Path.{fun_ext}
use native.Mathlib.Decide.{dec_lt}
use ssuos_mminos.Page.{fresh_chunk}
use ssuos_mminos.Page.Spec.{Block, block, first_fit}
use ssuos_mminos.Ealloc.{
  page_size, min_alloc, page_max, State, Ret, null, ptr, search_pages, add_page, alloc_rec, alloc,
}
use ssuos_mminos.Ealloc.Search.{
  Request, WfState, put_page-WfState, page_blocks, PageHit, one, all_full, search-Found,
}

-- Page `k`, whose blocks were `before`, has served the request by first fit; the other pages are
-- untouched and `count` pages are in use.
pub record Served (mmap : ℕ → ℕ) (s : State) (ls : ℕ → List ℕ) (n : ℕ) (before : List Block)
    (k count : ℕ) (r : Ret × State) : Type 0 where
  pub at : ℕ
  pub state : State
  pub list : List ℕ
  pub result : r ≡ (ptr at, state)
  pub pages_in_use : state.pagenum ≡ count
  pub wf : WfState mmap state (update ls k list)
  pub first : first_fit n before ≡ some (at, page_blocks state (update ls k list) k)
  pub others : (i : ℕ) → i ≢ k → state.pages i ≡ s.pages i

-- no page below `k` has room for `n` bytes
abbrev pub FullBelow : State → (ℕ → List ℕ) → ℕ → ℕ → Type 0
FullBelow s ls n k = (j : ℕ) → j < k → first_fit n (page_blocks s ls j) ≡ none

pub data Answer (mmap : ℕ → ℕ) (s : State) (ls : ℕ → List ℕ) (n : ℕ) (r : Ret × State)
    : Type 0 where
  old_page :
      (k : ℕ)
      → k < s.pagenum
      → FullBelow s ls n k
      → Served mmap s ls n (page_blocks s ls k) k s.pagenum r
      → Answer mmap s ls n r
  new_page :
      s.pagenum < page_max
      → FullBelow s ls n s.pagenum
      → Served mmap s ls n (block (mmap s.pagenum) page_size false ∷ []) s.pagenum (s.pagenum + 1) r
      → Answer mmap s ls n r
  refused : s.pagenum ≡ page_max → FullBelow s ls n s.pagenum → r ≡ (null, s) → Answer mmap s ls n r

pub add_page-WfState :
    (mmap : ℕ → ℕ) (s : State) (ls : ℕ → List ℕ)
    → WfState mmap s ls
    → s.pagenum < page_max
    → WfState mmap (add_page mmap s) (update ls s.pagenum (0 ∷ []))
unfolding add_page fresh_chunk
add_page-WfState mmap s ls w lt = record {
  few = omega arith;
  in_use = λ i h. elim (Bool-cases (s.pagenum == i)) [
    | inl here ↦ rw here (
        let same : i ≡ s.pagenum = ground arith in
        rw same (record {
          chain = (refl, refl, refl, refl);
          tiles = (refl, (16, refl, omega arith), refl);
          slots = λ j lt'. ground (arith, w.unused s.pagenum j (omega arith));
          bound = λ j on. ground arith;
        }))
    | inr other ↦ rw other (w.in_use i (ground arith))
  ];
  unused = λ i j h. ground (arith, w.unused i j (omega arith));
}

accepted : (n : ℕ) → Request n → (not (n % min_alloc == 0) || ltb page_size n) ≡ false
accepted n r = ground arith

-- A free page has room for every request.
fresh-fits : (n a : ℕ) → Request n → ¬ (first_fit n (block a page_size false ∷ []) ≡ none)
unfolding first_fit
fresh-fits n a r e = ground arith

module _ {mmap : ℕ → ℕ} {s : State} {ls : ℕ → List ℕ} (w : WfState mmap s ls) (n : ℕ)
    (r : Request n) where
  rec-hit :
      (d : ℕ) (x : Ret × State)
      → search_pages s.pagenum 0 n s ≡ some x
      → alloc_rec (suc d) mmap n s ≡ x
  unfolding alloc_rec
  rec-hit d x e = rw (accepted n r, e, alloc_rec)

  rec-full :
      (d : ℕ)
      → search_pages s.pagenum 0 n s ≡ none
      → alloc_rec (suc d) mmap n s
        ≡ (if s.pagenum == page_max then (null, s) else alloc_rec d mmap n (add_page mmap s))
  unfolding alloc_rec
  rec-full d e = rw (accepted n r, e, alloc_rec)

  hit-Served :
      (h : PageHit mmap s ls n 0 (search_pages s.pagenum 0 n s))
      → (d : ℕ)
      → Served mmap s ls n (page_blocks s ls h.k) h.k s.pagenum (alloc_rec (suc d) mmap n s)
  hit-Served h d = record {
    at = h.at;
    state = record s { pages = update s.pages h.k h.page };
    list = h.list;
    result = rec-hit d _ h.result;
    pages_in_use = refl;
    wf = put_page-WfState mmap s ls h.k h.page h.list w h.below h.wf;
    first = ground (arith, h.first);
    others = λ i ne. ground arith;
  }

update-update :
    {A : Type 0} (f : ℕ → A) (k : ℕ) (a b : A) → update (update f k a) k b ≡ update f k b
update-update f k a b = fun_ext (λ j. ground arith)

-- the blocks after a new page has been added
add_page-new :
    (mmap : ℕ → ℕ) (s : State) (ls : ℕ → List ℕ)
    → page_blocks (add_page mmap s) (update ls s.pagenum (0 ∷ [])) s.pagenum
      ≡ block (mmap s.pagenum) page_size false ∷ []
unfolding add_page fresh_chunk
add_page-new mmap s ls = ground arith

add_page-old :
    (mmap : ℕ → ℕ) (s : State) (ls : ℕ → List ℕ) (i : ℕ)
    → i ≢ s.pagenum
    → (page_blocks (add_page mmap s) (update ls s.pagenum (0 ∷ [])) i ≡ page_blocks s ls i)
      × ((add_page mmap s).pages i ≡ s.pages i)
unfolding add_page
add_page-old mmap s ls i ne =
    let other : (s.pagenum == i) ≡ false = ground arith in rw other (refl, refl)

add_page-count : (mmap : ℕ → ℕ) (s : State) → (add_page mmap s).pagenum ≡ s.pagenum + 1
unfolding add_page
add_page-count mmap s = refl

module _ {mmap : ℕ → ℕ} {s : State} {ls : ℕ → List ℕ} (w : WfState mmap s ls) (n : ℕ)
    (r : Request n) where
  abbrev grown : State
  grown = add_page mmap s

  abbrev lists : ℕ → List ℕ
  lists = update ls s.pagenum (0 ∷ [])

  Served-by_new :
      (k : ℕ) (x : Ret × State)
      → k ≡ s.pagenum
      → Served mmap grown lists n (page_blocks grown lists k) k grown.pagenum x
      → Served mmap s ls n (block (mmap s.pagenum) page_size false ∷ []) s.pagenum (s.pagenum + 1) x
  Served-by_new k x e h =
      let same : update lists k h.list ≡ update ls s.pagenum h.list =
        rw e (update-update ls s.pagenum (0 ∷ []) h.list) in
      record {
        at = h.at;
        state = h.state;
        list = h.list;
        result = h.result;
        pages_in_use = h.pages_in_use ∙ add_page-count mmap s;
        wf = rw (← same) h.wf;
        first =
            ap (first_fit n) (sym (add_page-new mmap s ls))
            ∙ ap (λ z. first_fit n (page_blocks grown lists z)) (sym e)
            ∙ h.first
            ∙ ap (λ z. some (h.at, page_blocks h.state z k)) same
            ∙ ap (λ z. some (h.at, page_blocks h.state (update ls s.pagenum h.list) z)) e;
        others = λ i ne. h.others i (omega arith) ∙ (add_page-old mmap s ls i ne).1;
      }

  extend :
      FullBelow s ls n s.pagenum
      → s.pagenum < page_max
      → Served mmap s ls n
          (block (mmap s.pagenum) page_size false ∷ [])
          s.pagenum
          (s.pagenum + 1)
          (alloc_rec 1 mmap n grown)
  extend full more = elim (search-Found w' n r grown.pagenum 0 (omega arith)) [
    | one h ↦ elim (dec_lt h.k s.pagenum) [
      | yes old ↦
          let kept = (add_page-old mmap s ls h.k (omega arith)).0 in
          let some_fit = sym h.first ∙ ap (first_fit n) kept ∙ full h.k old in
          absurd (not-some some_fit)
      | no new ↦
          Served-by_new h.k _ (omega (arith, h.below, add_page-count mmap s))
            (hit-Served w' n r h 0)
    ]
    | all_full e none_fit ↦ absurd (
        fresh-fits n (mmap s.pagenum) r (
          rw (add_page-new mmap s ls) at
            (none_fit s.pagenum (omega arith) (omega (arith, add_page-count mmap s)))))
  ]
    where
      w' : WfState mmap grown lists
      w' = add_page-WfState mmap s ls w more

  -- In a well-formed state a request for a positive multiple of 256 bytes, at most 4096, ends: the first page with room
  -- serves it by first fit; if none has room and fewer than four pages are in use, a new page does;
  -- with four full pages the answer is NULL. All other pages stay as they are.
  pub alloc-Answer : Answer mmap s ls n (alloc mmap n s)
  unfolding alloc
  alloc-Answer = elim (search-Found w n r s.pagenum 0 (omega arith)) [
    | one h ↦ old_page h.k h.below (λ j lt. h.earlier j (omega arith) lt) (hit-Served w n r h 1)
    | all_full e none_fit ↦
        let full = λ (j : ℕ) (lt : j < s.pagenum). none_fit j (omega arith) lt in
        elim (dec_lt s.pagenum page_max) [
          | yes more ↦
              let room : (s.pagenum == page_max) ≡ false = ground arith in
              new_page more full (rw (rec-full w n r 1 e, room) (extend full more))
          | no four ↦
              let max : s.pagenum ≡ page_max = omega (arith, w.few) in
              let last : (s.pagenum == page_max) ≡ true = ground arith in
              refused max full (rec-full w n r 1 e ∙ rw last refl)
        ]
  ]
