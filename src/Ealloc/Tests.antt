-- ===== src/Ealloc/Tests.antt =====
-- Runs of ealloc.c, and the theorems at concrete states.
use ssuos_mminos.Base.{update, ℕ, zero, suc, ◌+◌, ◌*◌, ◌≡◌, refl, false, none, some, [], ◌∷◌, arith}
use ssuos_mminos.Page.{Mm, walk, place, find_next, fresh_chunk}
use ssuos_mminos.Ealloc.{State, null, ptr, alloc, dealloc, alloc_rec, search_pages, add_page}
use ssuos_mminos.Ealloc.Search.{WfState}
use ssuos_mminos.Ealloc.Refine.{add_page-WfState, Answer, alloc-Answer}
use ssuos_mminos.Ealloc.Free.{Release, dealloc-Release}

abbrev unused_chunk : Mm
unused_chunk = record {
  addr = 0;
  chunk_size = 0;
  flag = false;
  used = false;
  next_idx = some 0;
  prev_idx = some 0;
}

-- the state after `init_alloc`
abbrev initial : State
initial = record {
  pagenum = 0;
  pages = λ i. record { head_idx = none; chunks = λ j. unused_chunk };
}

-- pages at 65536, 69632, …
abbrev mmap : ℕ → ℕ
mmap i = 65536 + i * 4096

abbrev requests : ℕ → State → State
unfolding alloc alloc_rec search_pages add_page fresh_chunk walk place find_next
requests zero s = s
requests (suc n) s = requests n (alloc mmap 4096 s).1

initial-WfState : WfState mmap initial (λ i. [])
initial-WfState = record {
  few = omega arith;
  in_use = λ i h. absurd (omega arith);
  unused = λ i j h. refl;
}

alloc_first : (alloc mmap 256 initial).0 ≡ ptr 65536
unfolding alloc alloc_rec search_pages add_page fresh_chunk walk place find_next
alloc_first = refl

-- The second request of a whole page opens a second page, the fifth is refused.
alloc_second : (alloc mmap 4096 (requests 1 initial)).0 ≡ ptr 69632
unfolding alloc alloc_rec search_pages add_page fresh_chunk walk place find_next
alloc_second = refl

alloc_fifth : (alloc mmap 4096 (requests 4 initial)).0 ≡ null
unfolding alloc alloc_rec search_pages add_page fresh_chunk walk place find_next
alloc_fifth = refl

alloc-Answer_example : Answer mmap initial (λ i. []) 256 (alloc mmap 256 initial)
alloc-Answer_example = alloc-Answer initial-WfState 256 (omega arith)

-- one page, still free
abbrev one_page : State
unfolding add_page fresh_chunk
one_page = add_page mmap initial

one_page-WfState : WfState mmap one_page (update (λ i. []) 0 (0 ∷ []))
unfolding add_page fresh_chunk
one_page-WfState = add_page-WfState mmap initial (λ i. []) initial-WfState (omega arith)

dealloc-Release_example :
    Release mmap one_page (update (λ i. []) 0 (0 ∷ [])) 65536 0 (dealloc 65536 one_page)
dealloc-Release_example = dealloc-Release one_page-WfState 65536
