-- ===== src/Ealloc/Free.antt =====
-- `dealloc` of ealloc.c: the first page with a block at the address gets it back, and is coalesced.
use ssuos_mminos.Base.{
  update_self, Bool-cases, update, ℕ, zero, suc, ◌+◌, ◌≤◌, ◌<◌, ◌≡◌, refl, sym, ap, ◌∙◌, ◌≢◌, inl,
  inr, true, false, Option, some, List, arith,
}
use native.Mathlib.Decide.{dec_lt}
use ssuos_mminos.Page.{Page, unmark, merge}
use ssuos_mminos.Page.Spec.{free_at, coalesce, holds}
use ssuos_mminos.Page.Invariant.{blocks}
use ssuos_mminos.Page.Unmark.{Unmarked, unmark-Unmarked}
use ssuos_mminos.Page.Merge.{merge-coalesce}
use ssuos_mminos.Ealloc.{min_alloc, chunk_max, fuel, State, dealloc_pages, dealloc}
use ssuos_mminos.Ealloc.Search.{length-WfPage, WfState, page_blocks, put_page-WfState}

-- Page `k` had a block at `a`; it has been freed and the page coalesced.
pub record Freed (mmap : ℕ → ℕ) (s : State) (ls : ℕ → List ℕ) (a k : ℕ) (r : Option State)
    : Type 0 where
  pub state : State
  pub list : List ℕ
  pub result : r ≡ some state
  pub wf : WfState mmap state (update ls k list)
  pub same_count : state.pagenum ≡ s.pagenum
  pub freed : blocks (state.pages k).chunks list ≡ coalesce (free_at a (page_blocks s ls k))
  pub others : (i : ℕ) → i ≢ k → state.pages i ≡ s.pages i

-- no page from `i` up to `k` has a block at `a`
abbrev pub NoneAt : State → (ℕ → List ℕ) → ℕ → ℕ → ℕ → Type 0
NoneAt s ls a i k = (j : ℕ) → i ≤ j → j < k → holds a (page_blocks s ls j) ≡ false

pub data Release (mmap : ℕ → ℕ) (s : State) (ls : ℕ → List ℕ) (a i : ℕ) (r : Option State)
    : Type 0 where
  held :
      (k : ℕ)
      → k < s.pagenum
      → holds a (page_blocks s ls k) ≡ true
      → NoneAt s ls a i k
      → Freed mmap s ls a k r
      → Release mmap s ls a i r
  not_held : NoneAt s ls a i s.pagenum → r ≡ some s → Release mmap s ls a i r

pages-zero : (i a : ℕ) (s : State) → dealloc_pages 0 i a s ≡ some s
unfolding dealloc_pages
pages-zero i a s = refl

pages-hit :
    (d i a : ℕ) (s : State) (p p' : Page)
    → unmark fuel (s.pages i) (s.pages i).head_idx a ≡ some (true, p)
    → merge fuel p p.head_idx ≡ some p'
    → dealloc_pages (suc d) i a s ≡ some (record s { pages = update s.pages i p' })
unfolding dealloc_pages
pages-hit d i a s p p' e e' = rw (e, dealloc_pages) (rw e' refl)

pages-miss :
    (d i a : ℕ) (s : State) (p : Page)
    → unmark fuel (s.pages i) (s.pages i).head_idx a ≡ some (false, p)
    → dealloc_pages (suc d) i a s ≡ dealloc_pages d (i + 1) a s
unfolding dealloc_pages
pages-miss d i a s p e = rw (e, dealloc_pages)

module _ {mmap : ℕ → ℕ} {s : State} {ls : ℕ → List ℕ} (w : WfState mmap s ls) (a : ℕ) where
  later :
      (d i : ℕ) (p : Page)
      → unmark fuel (s.pages i) (s.pages i).head_idx a ≡ some (false, p)
      → holds a (page_blocks s ls i) ≡ false
      → Release mmap s ls a (i + 1) (dealloc_pages d (i + 1) a s)
      → Release mmap s ls a i (dealloc_pages (suc d) i a s)
  later d i p e off (held k lt on none_at f) =
      held k lt on
        (λ j lo hi. elim (dec_lt i j) [
          | yes above ↦ none_at j (omega arith) hi
          | no same ↦ let e' : j ≡ i = omega arith in rw e' off
        ])
        (record {
          state = f.state;
          list = f.list;
          result = pages-miss d i a s p e ∙ f.result;
          wf = f.wf;
          same_count = f.same_count;
          freed = f.freed;
          others = f.others;
        })
  later d i p e off (not_held none_at e'') =
      not_held
        (λ j lo hi. elim (dec_lt i j) [
          | yes above ↦ none_at j (omega arith) hi
          | no same ↦ let e' : j ≡ i = omega arith in rw e' off
        ])
        (pages-miss d i a s p e ∙ e'')

  here :
      (d i : ℕ)
      → i < s.pagenum
      → (u : Unmarked chunk_max min_alloc
          (mmap i)
          (s.pages i)
          (ls i)
          a
          (unmark fuel (s.pages i) (s.pages i).head_idx a))
      → u.hit ≡ true
      → Release mmap s ls a i (dealloc_pages (suc d) i a s)
  here d i lt u hit =
      let m = merge-coalesce u.wf fuel (omega (arith, length-WfPage (ls i) (w.in_use i lt))) in
      held i lt (sym u.hit_lem ∙ hit) (λ j lo hi. absurd (omega arith))
        (record {
          state = record s { pages = update s.pages i m.page };
          list = m.list;
          result =
              pages-hit d i a s u.page m.page (u.result ∙ ap (λ b. some (b, u.page)) hit) m.result;
          wf = put_page-WfState mmap s ls i m.page m.list w lt m.wf;
          same_count = refl;
          freed =
              ap (λ (q : Page). blocks q.chunks m.list) (update_self s.pages i m.page)
              ∙ m.merged
              ∙ ap coalesce u.freed;
          others = λ j ne. ground arith;
        })

  pages-Release : (d i : ℕ) → i + d ≡ s.pagenum → Release mmap s ls a i (dealloc_pages d i a s)
  pages-Release zero i e = not_held (λ j lo hi. absurd (omega arith)) (pages-zero i a s)
  pages-Release (suc d) i e =
      let lt : i < s.pagenum = omega arith in
      let u =
        unmark-Unmarked (w.in_use i lt) a fuel
          (omega (arith, length-WfPage (ls i) (w.in_use i lt))) in
      elim (Bool-cases u.hit) [
        | inl hit ↦ here d i lt u hit
        | inr miss ↦
            later d i u.page (u.result ∙ ap (λ b. some (b, u.page)) miss) (sym u.hit_lem ∙ miss)
              (pages-Release d (i + 1) (omega arith))
      ]

  -- In a well-formed state `dealloc` ends, whatever address it is given. The first page with a block at the address gets
  -- its first block there freed and is coalesced, and the other pages stay as they are; if no page
  -- has such a block, nothing changes.
  pub dealloc-Release : Release mmap s ls a 0 (dealloc a s)
  unfolding dealloc
  dealloc-Release = pages-Release s.pagenum 0 (omega arith)
