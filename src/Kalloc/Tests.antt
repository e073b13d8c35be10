-- ===== src/Kalloc/Tests.antt =====
-- Three pages, of which two are allocated and one is freed.
use ssuos_mminos.Base.{ℕ, ◌+◌, ◌≡◌, ◌≢◌, refl, if◌then◌else◌, none, some, List, [], arith}
use ssuos_mminos.Kalloc.{Kmem, no_pages, kinit, freerange, free_pages, kfree, kalloc}
use ssuos_mminos.Kalloc.FreeList.{Chain, times, in_pages}
use ssuos_mminos.Kalloc.Runs.{
  System, allocates, writes, frees, Reach, here, later, start, Reach-once,
}

abbrev three_pages : (k : Kmem) × (kinit 2148532224 2151677953 2151694536 no_pages ≡ some k)
unfolding freerange free_pages kfree
three_pages = (_, refl)

abbrev one_held : (s : System) × Reach 2148532224 (start three_pages.0) s
unfolding three_pages kalloc kfree
one_held = (
  _,
  later
      (later (later (later here (allocates 2151690240 refl)) (allocates 2151686144 refl))
        (writes 2151690240 (some 7) (ground arith)))
      (frees 2151690240 (ground arith) refl),
)

Reach-once_example :
    (free : List ℕ) × Chain one_held.0.kmem.next one_held.0.kmem.freelist free
    × ((v : ℕ) → times v free + times v one_held.0.out ≡ (if in_pages 2151682048 3 v then 1 else 0))
    × ((k' : Kmem) → kalloc one_held.0.kmem ≡ (none, k') → free ≡ [])
    × ((v : ℕ)
        → times v one_held.0.out ≢ 0
        → (k' : Kmem) × (kfree 2148532224 v one_held.0.kmem ≡ some k'))
Reach-once_example =
    Reach-once 2148532224 2151677953 2151694536 three_pages.0 three_pages.1 one_held.1
