-- ===== src/Page/Invariant.antt =====
-- When a chunk table is well formed: the list from the head is doubly linked, holds exactly the
-- slots in use, and its chunks tile the page.
use ssuos_mminos.Base.{ℕ, ◌+◌, ◌*◌, ◌<◌, ◌≡◌, true, false, Option, none, some, List, [], ◌∷◌, has}
use ssuos_mminos.Page.{Mm, Page}
use ssuos_mminos.Page.Spec.{Block, block}

-- From `cur` the `next_idx` fields lead through the distinct slots `xs` to -1, and the
-- `prev_idx` fields lead back to `prev`.
abbrev pub Chain : (ℕ → Mm) → Option ℕ → Option ℕ → List ℕ → Type 0
Chain c prev cur [] = cur ≡ none
Chain c prev cur (i ∷ xs) =
    (cur ≡ some i)
    × ((c i).prev_idx ≡ prev)
    × (has i xs ≡ false)
    × Chain c (some i) (c i).next_idx xs

-- A whole positive number of units of `g` bytes.
abbrev pub Units : ℕ → ℕ → Type 0
Units g n = (q : ℕ) × (n ≡ q * g) × (0 < q)

-- The chunks of `xs` follow one another from address `a` to `e`.
abbrev pub Tiles : ℕ → (ℕ → Mm) → ℕ → List ℕ → ℕ → Type 0
Tiles g c a [] e = a ≡ e
Tiles g c a (i ∷ xs) e =
    ((c i).addr ≡ a) × Units g (c i).chunk_size × Tiles g c (a + (c i).chunk_size) xs e

abbrev pub block_of : Mm → Block
block_of m = block m.addr m.chunk_size m.flag

abbrev pub blocks : (ℕ → Mm) → List ℕ → List Block
blocks c [] = []
blocks c (i ∷ xs) = block_of (c i) ∷ blocks c xs

-- The page of `m * g` bytes at `base`, whose list runs through the slots `xs`.
pub record Wf (m g base : ℕ) (p : Page) (xs : List ℕ) : Type 0 where
  pub chain : Chain p.chunks none p.head_idx xs
  pub tiles : Tiles g p.chunks base xs (base + m * g)
  pub slots : (i : ℕ) → i < m → (p.chunks i).used ≡ has i xs
  pub bound : (i : ℕ) → has i xs ≡ true → i < m
