-- ===== src/Page/Spec.antt =====
-- What a page allocator promises, on the list of its blocks in address order: first fit with
-- splitting from the front, and freeing with coalescing of free neighbours.
use ssuos_mminos.Base.{
  leb, ◌==◌, if◌then◌else◌, ℕ, ◌+◌, ◌-◌, ◌≡◌, Bool, true, false, not, ◌&&◌, ◌||◌, Option, none,
  some, List, [], ◌∷◌, arith,
}

pub record Block : Type 0 where
  pub addr : ℕ
  pub size : ℕ
  pub busy : Bool

abbrev pub block : ℕ → ℕ → Bool → Block
block a n b = record { addr = a; size = n; busy = b }

-- The free block `b` with its first `n` bytes handed out.
abbrev pub carve : ℕ → Block → List Block → List Block
carve n b bs =
    if b.size == n
    then block b.addr n true ∷ bs
    else block b.addr n true ∷ block (b.addr + n) (b.size - n) false ∷ bs

abbrev pub fits : ℕ → Block → Bool
fits n b = leb n b.size && not b.busy

abbrev pub push_front : Block → Option (ℕ × List Block) → Option (ℕ × List Block)
push_front b none = none
push_front b (some (a, bs)) = some (a, b ∷ bs)

-- The first free block that is large enough.
unfoldable pub first_fit : ℕ → List Block → Option (ℕ × List Block)
first_fit n [] = none
first_fit n (b ∷ bs) =
    if fits n b then some (b.addr, carve n b bs) else push_front b (first_fit n bs)

abbrev pub last_size : List Block → ℕ
last_size [] = 0
last_size (b ∷ []) = b.size
last_size (b ∷ d ∷ bs) = last_size (d ∷ bs)

-- The first block at `a` becomes free.
unfoldable pub free_at : ℕ → List Block → List Block
free_at a [] = []
free_at a (b ∷ bs) = if b.addr == a then block b.addr b.size false ∷ bs else b ∷ free_at a bs

-- Whether some block starts at `a`.
unfoldable pub holds : ℕ → List Block → Bool
holds a [] = false
holds a (b ∷ bs) = (b.addr == a) || holds a bs

-- One block put in front of coalesced blocks.
abbrev pub join : Block → List Block → List Block
join b [] = b ∷ []
join b (d ∷ bs) =
    if not b.busy && not d.busy then block b.addr (b.size + d.size) false ∷ bs else b ∷ d ∷ bs

unfoldable pub coalesce : List Block → List Block
coalesce [] = []
coalesce (b ∷ bs) = join b (coalesce bs)

-- Joining two free neighbours first changes nothing, and a block that cannot be joined to its
-- neighbour stays.
pub coalesce-merge :
    (b d : Block) (bs : List Block)
    → b.busy ≡ false
    → d.busy ≡ false
    → coalesce (block b.addr (b.size + d.size) false ∷ bs) ≡ coalesce (b ∷ d ∷ bs)
unfolding coalesce
coalesce-merge b d bs fb fd = go (coalesce bs)
  where
    go : (es : List Block) → join (block b.addr (b.size + d.size) false) es ≡ join b (join d es)
    go [] = ground arith
    go (e ∷ es) = ground arith

pub coalesce-keep :
    (b d : Block) (bs : List Block)
    → (not b.busy && not d.busy) ≡ false
    → coalesce (b ∷ d ∷ bs) ≡ b ∷ coalesce (d ∷ bs)
unfolding coalesce
coalesce-keep b d bs h = go (coalesce bs)
  where
    go : (es : List Block) → join b (join d es) ≡ b ∷ join d es
    go [] = ground arith
    go (e ∷ es) = ground arith
