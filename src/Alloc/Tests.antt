-- ===== src/Alloc/Tests.antt =====
-- Runs of alloc.c, and the theorems at concrete pages.
use ssuos_mminos.Base.{ℕ, ◌≡◌, refl, true, false, none, [], ◌∷◌, arith}
use ssuos_mminos.Page.{Page, walk, place, find_next, fresh_chunk}
use ssuos_mminos.Page.Spec.{block, first_fit, free_at, coalesce}
use ssuos_mminos.Page.Invariant.{blocks}
use ssuos_mminos.Page.Merge.{Merged}
use ssuos_mminos.Alloc.{null, ptr, uninit, init_alloc, alloc, dealloc, zero_chunk}
use ssuos_mminos.Alloc.Refine.{
  WfPage, Granted, Restored, init_alloc-WfPage, alloc_refines, alloc-refuses, dealloc_refines,
  dealloc-alloc,
}

abbrev globals : Page
globals = record { head_idx = none; chunks = λ i. zero_chunk }

abbrev base : ℕ
base = 65536

abbrev started : Page
unfolding init_alloc
started = (init_alloc base globals).1

-- the page with its first 64 bytes handed out
abbrev one_block : Page
unfolding init_alloc alloc walk place find_next
one_block = (alloc 64 started).1

-- the whole page handed out in one piece
abbrev full : Page
unfolding init_alloc alloc walk place find_next
full = (alloc 4096 started).1

started-WfPage : WfPage base started (0 ∷ [])
unfolding init_alloc fresh_chunk
started-WfPage = (init_alloc-WfPage base globals (λ i. refl)).0

alloc_first : (alloc 64 started).0 ≡ ptr 65536
unfolding init_alloc alloc walk place find_next fresh_chunk
alloc_first = refl

alloc_second : (alloc 8 one_block).0 ≡ ptr 65600
unfolding init_alloc alloc walk place find_next fresh_chunk
alloc_second = refl

alloc_odd : (alloc 7 started).0 ≡ null
unfolding alloc
alloc_odd = refl

-- With the page full, the next request gets an uninitialised pointer.
alloc-full : (alloc 8 full).0 ≡ uninit
unfolding init_alloc alloc walk place find_next fresh_chunk
alloc-full = refl

full-WfPage : WfPage base full (0 ∷ [])
unfolding init_alloc alloc walk place find_next fresh_chunk
full-WfPage = record {
  chain = (refl, refl, refl, refl);
  tiles = (refl, (512, refl, omega arith), refl);
  slots = λ i h. ground arith;
  bound = λ i h. ground arith;
}

alloc-refuses_example : alloc 8 full ≡ (uninit, full)
unfolding init_alloc alloc walk place find_next fresh_chunk first_fit
alloc-refuses_example = alloc-refuses full-WfPage 8 (omega arith) refl

alloc_refines_example :
    Granted base started
      (0 ∷ [])
      64
      base
      (block base 64 true ∷ block 65600 4032 false ∷ [])
      (alloc 64 started)
unfolding init_alloc first_fit fresh_chunk
alloc_refines_example = alloc_refines started-WfPage 64 base _ (omega arith) refl

dealloc_refines_example :
    Merged 512 8 base (coalesce (free_at base (blocks full.chunks (0 ∷ [])))) (dealloc base full)
dealloc_refines_example = dealloc_refines full-WfPage base

dealloc-alloc_example : Restored base started (0 ∷ []) base one_block
unfolding init_alloc alloc walk place find_next fresh_chunk
dealloc-alloc_example = dealloc-alloc started-WfPage 64 base one_block (omega arith) refl
