-- ===== src/Page.antt =====
-- 설계 5/project#5-code: the chunk table that alloc.c keeps for its page and ealloc.c for each of
-- its pages. The two files repeat the same code with another CHUNKMAX, which is `chunk_max` here.
-- An index is `none` where the code stores -1; the table is a function of the index.
pub mod Spec
pub mod SpecLaws
pub mod Invariant
pub mod Find
pub mod Links
pub mod Place
pub mod Walk
pub mod Unmark
pub mod Absorb
pub mod Merge
use ssuos_mminos.Base.{
  ℕ, zero, suc, ◌+◌, ◌-◌, Bool, true, false, not, ◌&&◌, Option, none, some, ltb, leb, ◌==◌,
  if◌then◌else◌, is_none, update,
}

-- `mm`
pub record Mm : Type 0 where
  pub addr : ℕ
  pub chunk_size : ℕ
  pub flag : Bool
  pub used : Bool  -- the field `using`
  pub next_idx : Option ℕ
  pub prev_idx : Option ℕ

-- `head_idx` and `chunks` of one page
pub record Page : Type 0 where
  pub head_idx : Option ℕ
  pub chunks : ℕ → Mm

-- `find_next`: the first slot that is not in use
pub find_from : (ℕ → Mm) → (rounds i : ℕ) → Option ℕ
find_from c zero i = none
find_from c (suc n) i = let rest = find_from c n (i + 1) in if (c i).used then rest else some i

unfoldable pub find_next : (chunk_max : ℕ) → Page → Option ℕ
unfolding find_from
find_next chunk_max p = find_from p.chunks chunk_max 0

-- The fields that `init_alloc` and `alloc` write for a fresh page at `base`.
unfoldable pub fresh_chunk : ℕ → ℕ → Mm
fresh_chunk base size = record {
  addr = base;
  chunk_size = size;
  flag = false;
  used = true;
  next_idx = none;
  prev_idx = none;
}

-- How the search loop of `alloc` ends.
pub data Outcome : Type 0 where
  found : ℕ → Page → Outcome  -- `break` with `new.addr`
  too_small : Outcome  -- the last chunk is smaller than `size`
  fell_off : Outcome  -- `tmp_idx == -1`, and `new` has not been written
  no_slot : Outcome  -- `find_next` gave -1, and `chunks[-1]` is written: undefined behaviour
  out_of_fuel : Outcome

-- The whole chunk fits exactly.
pub take_whole : Page → ℕ → Page
take_whole p i = record p { chunks = update p.chunks i (record (p.chunks i) { flag = true }) }

-- `chunks[new.prev_idx].next_idx = new_idx`, or a new head
pub link_new : Page → Option ℕ → ℕ → Page
link_new p none new_idx = record p { head_idx = some new_idx }
link_new p (some j) new_idx = record p {
  chunks = update p.chunks j (record (p.chunks j) { next_idx = some new_idx });
}

-- The first `size` bytes of chunk `i` become chunk `new_idx`, before it in the list.
pub split_chunk : Page → (i new_idx size : ℕ) → Page
unfolding link_new
split_chunk p i new_idx size =
    let tmp = p.chunks i in
    let new : Mm = record {
      addr = tmp.addr;
      chunk_size = size;
      flag = true;
      used = true;
      next_idx = some i;
      prev_idx = tmp.prev_idx;
    } in
    let rest : Mm = record tmp {
      prev_idx = some new_idx;
      addr = tmp.addr + size;
      chunk_size = tmp.chunk_size - size;
    } in
    let p' = link_new p tmp.prev_idx new_idx in
    record p' { chunks = update (update p'.chunks i rest) new_idx new }

-- The body of `if (tmp.chunk_size >= size && tmp.flag == 0)`.
unfoldable pub place : (chunk_max : ℕ) → Page → (i size : ℕ) → Outcome
unfolding take_whole split_chunk find_next
place chunk_max p i size =
    if (p.chunks i).chunk_size == size
    then found (p.chunks i).addr (take_whole p i)
    else elim (find_next chunk_max p) [
      | none ↦ no_slot
      | some k ↦ found (p.chunks i).addr (split_chunk p i k size)
    ]

-- `while (tmp_idx != -1)` of `alloc`
unfoldable pub walk : (chunk_max fuel : ℕ) → Page → Option ℕ → (size : ℕ) → Outcome
walk chunk_max zero p cur size = out_of_fuel
walk chunk_max (suc fuel) p none size = fell_off
walk chunk_max (suc fuel) p (some i) size =
    let tmp = p.chunks i in
    let rest = walk chunk_max fuel p tmp.next_idx size in
    if is_none tmp.next_idx && ltb tmp.chunk_size size
    then too_small
    else if leb size tmp.chunk_size && not tmp.flag
    then place chunk_max p i size
    else rest

-- `while (tmp_idx != -1)` of `dealloc`: the chunk at `addr` is marked free. The flag says whether
-- there was one; `none` means that the fuel ran out.
unfoldable pub unmark : (fuel : ℕ) → Page → Option ℕ → (addr : ℕ) → Option (Bool × Page)
unmark zero p cur addr = none
unmark (suc fuel) p none addr = some (false, p)
unmark (suc fuel) p (some i) addr =
    let tmp = p.chunks i in
    let rest = unmark fuel p tmp.next_idx addr in
    if tmp.addr == addr
    then some (true, record p { chunks = update p.chunks i (record tmp { flag = false }) })
    else rest

-- `chunks[del.next_idx].prev_idx = tmp_idx`
pub relink_prev : (ℕ → Mm) → Option ℕ → ℕ → ℕ → Mm
relink_prev c none i = c
relink_prev c (some l) i = update c l (record (c l) { prev_idx = some i })

-- Chunk `j`, the successor of chunk `i`, is joined to it. `tmp` and `del` are copies that are
-- written back last.
unfoldable pub absorb : Page → (i j : ℕ) → Page
unfolding relink_prev
absorb p i j =
    let tmp = p.chunks i in
    let del = p.chunks j in
    let tmp' : Mm = record tmp {
      chunk_size = tmp.chunk_size + del.chunk_size;
      next_idx = del.next_idx;
    } in
    let del' : Mm = record del { used = false } in
    let c = relink_prev p.chunks del.next_idx i in
    record p { chunks = update (update c i tmp') j del' }

-- The test of the `if` in `merge_chunk`, with the successor when it holds.
unfoldable pub mergeable : Page → ℕ → Option ℕ
mergeable p i = elim (p.chunks i).next_idx [
  | none ↦ none
  | some j ↦ if not (p.chunks i).flag && not (p.chunks j).flag then some j else none
]

-- `merge_chunk`; a merge goes on with the same index.
unfoldable pub merge : (fuel : ℕ) → Page → Option ℕ → Option Page
merge zero p cur = none
merge (suc fuel) p none = some p
merge (suc fuel) p (some i) = elim (mergeable p i) [
  | some j ↦ merge fuel (absorb p i j) (some i)
  | none ↦ merge fuel p (p.chunks i).next_idx
]
