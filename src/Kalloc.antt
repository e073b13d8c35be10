-- ===== src/Kalloc.antt =====
-- 설계 3번/xv6/kalloc.c: the free list of pages, linked through the pages themselves. A page is its
-- address; the bytes in it are not modelled but for the link, nor is the lock, as each call is one step.
pub mod FreeList
pub mod Runs
mod Tests
use ssuos_mminos.Base.{
  ltb, leb, ◌==◌, if◌then◌else◌, update, ℕ, zero, suc, ◌+◌, ◌-◌, ◌*◌, ◌/◌, ◌%◌, Bool, not, ◌||◌,
  Option, none, some,
}

abbrev pub page_size : ℕ
page_size = 4096

-- `kmem` and the links; no `freelist` and no link are the null pointer.
pub record Kmem : Type 0 where
  pub freelist : Option ℕ
  pub next : ℕ → Option ℕ

abbrev pub no_pages : Kmem
no_pages = record { freelist = none; next = λ p. none }

-- `V2P` and the test of `kfree`, where `kernel_end` is the symbol `end`
abbrev pub bad_page : (kernel_end v : ℕ) → Bool
bad_page kernel_end v =
    not (v % page_size == 0) || ltb v kernel_end || leb 234881024 ((v + 2147483648) % 4294967296)

-- `none` is the panic.
unfoldable pub kfree : (kernel_end v : ℕ) → Kmem → Option Kmem
kfree kernel_end v k =
    if bad_page kernel_end v
    then none
    else some (record { next = update k.next v k.freelist; freelist = some v })

-- The loop of `freerange` over `n` pages from `p` on; its addresses do not pass the end of the 32 bits.
unfoldable pub free_pages : (kernel_end n p : ℕ) → Kmem → Option Kmem
unfolding kfree
free_pages kernel_end zero p k = some k
free_pages kernel_end (suc n) p k = elim (kfree kernel_end p k) [
  | none ↦ none
  | some k' ↦ free_pages kernel_end n (p + page_size) k'
]

-- `PGROUNDUP` on 32 bits
abbrev pub page_round_up : ℕ → ℕ
page_round_up a = (a + 4095) % 4294967296 / 4096 * 4096

unfoldable pub freerange : (kernel_end vstart vend : ℕ) → Kmem → Option Kmem
unfolding free_pages
freerange kernel_end vstart vend k =
    free_pages kernel_end ((vend - page_round_up vstart) / 4096) (page_round_up vstart) k

-- `kinit1` and `kinit2` but for the lock
abbrev pub kinit : (kernel_end vstart vend : ℕ) → Kmem → Option Kmem
kinit kernel_end vstart vend k = freerange kernel_end vstart vend k

unfoldable pub kalloc : Kmem → Option ℕ × Kmem
kalloc k = elim k.freelist [
  | none ↦ (none, k)
  | some r ↦ (some r, record k { freelist = k.next r })
]
