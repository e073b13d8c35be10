-- ===== src/Alloc.antt =====
-- 설계 5/project#5-code/alloc.c: the allocator of one page of 4096 bytes, in units of 8.
-- The addresses that mmap hands out are an argument. A request is a number of bytes, so negative
-- sizes are left out.
pub mod Refine
mod Tests
use ssuos_mminos.Base.{
  ltb, ◌==◌, if◌then◌else◌, update, ℕ, ◌+◌, ◌/◌, ◌%◌, false, not, ◌||◌, Option, none, some,
}
use ssuos_mminos.Page.{
  Mm, Page, find_next, fresh_chunk, Outcome, found, too_small, fell_off, no_slot, out_of_fuel, walk,
  unmark, merge,
}

abbrev pub page_size : ℕ
page_size = 4096

abbrev pub min_alloc : ℕ
min_alloc = 8

abbrev pub chunk_max : ℕ
chunk_max = page_size / min_alloc

-- The loops are given one round for each slot of the table, and two more.
abbrev pub fuel : ℕ
fuel = chunk_max + 2

-- What `alloc` returns.
pub data Ret : Type 0 where
  null : Ret
  ptr : ℕ → Ret
  uninit : Ret  -- `new.addr` with `new` never written
  undefined : Ret  -- `chunks[-1]` was written
  loops : Ret

-- `init_alloc`, with the address that mmap gave. A failed mmap gives (char *)-1, and `addr < 0` is
-- false for every pointer: the return value is 0 always.
pub init_alloc : (addr : ℕ) → Page → ℕ × Page
unfolding fresh_chunk
init_alloc addr p =
    (0, record { head_idx = some 0; chunks = update p.chunks 0 (fresh_chunk addr page_size) })

abbrev pub zero_chunk : Mm
zero_chunk = record {
  addr = 0;
  chunk_size = 0;
  flag = false;
  used = false;
  next_idx = some 0;
  prev_idx = some 0;
}

-- `cleanup`: what munmap is called with, and the table after memset.
pub cleanup : Page → Option ℕ × Page
cleanup p = (
  elim p.head_idx [ none ↦ none | some i ↦ some (p.chunks i).addr ],
  record { head_idx = none; chunks = λ i. zero_chunk },
)

-- the `return new.addr` behind the loop
pub finish : Outcome → Page → Ret × Page
finish (found a p') p = (ptr a, p')
finish too_small p = (null, p)
finish fell_off p = (uninit, p)
finish no_slot p = (undefined, p)
finish out_of_fuel p = (loops, p)

pub alloc : ℕ → Page → Ret × Page
unfolding finish
alloc size p =
    if not (size % min_alloc == 0) || ltb page_size size
    then (null, p)
    else finish (walk chunk_max fuel p p.head_idx size) p

-- `none` when a loop runs out of fuel
pub dealloc : ℕ → Page → Option Page
dealloc addr p = elim (unmark fuel p p.head_idx addr) [
  | none ↦ none
  | some (hit, p') ↦ merge fuel p' p'.head_idx
]
