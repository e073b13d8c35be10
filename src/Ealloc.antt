-- ===== src/Ealloc.antt =====
-- 설계 5/project#5-code/ealloc.c: an allocator that asks for up to 4 pages, one when it needs it,
-- in units of 256. The chunk table of each page is that of `Page`.
-- `mmap i` is the address that the i-th call of mmap gives. Requests are not negative.
pub mod Search
pub mod Refine
pub mod Free
mod Tests
use ssuos_mminos.Base.{
  ltb, ◌==◌, if◌then◌else◌, update, ℕ, zero, suc, ◌+◌, ◌/◌, ◌%◌, true, false, not, ◌||◌, Option,
  none, some,
}
use mathlib.Core.Option
use ssuos_mminos.Page.{
  Mm, Page, fresh_chunk, Outcome, found, no_slot, too_small, fell_off, out_of_fuel, walk, unmark,
  merge,
}

abbrev pub page_size : ℕ
page_size = 4096

abbrev pub min_alloc : ℕ
min_alloc = 256

abbrev pub page_max : ℕ
page_max = 4

abbrev pub chunk_max : ℕ
chunk_max = page_size / min_alloc

abbrev pub fuel : ℕ
fuel = chunk_max + 2

-- `pagenum`, `head_idx[]` and `chunks[][]`
pub record State : Type 0 where
  pub pagenum : ℕ
  pub pages : ℕ → Page

-- What a call returns: `undefined` for a write to `chunks[i][-1]`, `loops` for exhausted fuel.
pub data Ret : Type 0 where
  null : Ret
  ptr : ℕ → Ret
  undefined : Ret
  loops : Ret

-- `init_alloc`
pub init_alloc : State → State
init_alloc s = record s {
  pages = λ i. if ltb i page_max then record (s.pages i) { head_idx = none } else s.pages i;
}

-- `for (int i = 0; i < pagenum; i++)` of `alloc`, from page `i` on for `rounds` pages. `none` means
-- that `check` is still 0.
pub search_pages : (rounds i : ℕ) → (size : ℕ) → State → Option (Ret × State)
search_pages zero i size s = none
search_pages (suc n) i size s = elim (walk chunk_max fuel (s.pages i) (s.pages i).head_idx size) [
  | found a p ↦ some (ptr a, record s { pages = update s.pages i p })
  | no_slot ↦ some (undefined, s)
  | out_of_fuel ↦ some (loops, s)
  | too_small ↦ search_pages n (i + 1) size s
  | fell_off ↦ search_pages n (i + 1) size s
]

-- The new page, at index `pagenum`.
pub add_page : (mmap : ℕ → ℕ) → State → State
unfolding fresh_chunk
add_page mmap s =
    let page = record (s.pages s.pagenum) {
      head_idx = some 0;
      chunks = update (s.pages s.pagenum).chunks 0 (fresh_chunk (mmap s.pagenum) page_size);
    } in
    record s { pages = update s.pages s.pagenum page; pagenum = s.pagenum + 1 }

-- `alloc`, with a bound on its recursive calls.
pub alloc_rec : (depth : ℕ) → (mmap : ℕ → ℕ) → (size : ℕ) → State → Ret × State
alloc_rec zero mmap size s = (loops, s)
alloc_rec (suc d) mmap size s =
    let again = alloc_rec d mmap size (add_page mmap s) in
    if not (size % min_alloc == 0) || ltb page_size size
    then (null, s)
    else elim (search_pages s.pagenum 0 size s) [
      | some r ↦ r
      | none ↦ if s.pagenum == page_max then (null, s) else again
    ]

-- `alloc`; the bound leaves room for one recursive call.
pub alloc : (mmap : ℕ → ℕ) → (size : ℕ) → State → Ret × State
alloc mmap size s = alloc_rec 2 mmap size s

-- `for (int i = 0; i < pagenum; i++)` of `dealloc`; `none` when a loop runs out of fuel.
pub dealloc_pages : (rounds i : ℕ) → (addr : ℕ) → State → Option State
dealloc_pages zero i addr s = some s
dealloc_pages (suc n) i addr s = elim (unmark fuel (s.pages i) (s.pages i).head_idx addr) [
  | none ↦ none
  | some (true, p) ↦
      Option.map (λ p'. record s { pages = update s.pages i p' }) (merge fuel p p.head_idx)
  | some (false, p) ↦ dealloc_pages n (i + 1) addr s
]

pub dealloc : (addr : ℕ) → State → Option State
dealloc addr s = dealloc_pages s.pagenum 0 addr s

-- `cleanup` returns at once.
pub cleanup : State → State
cleanup s = s
