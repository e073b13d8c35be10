-- ===== src/Page/Absorb.antt =====
-- One merge step of `merge_chunk`: what joining a chunk to its predecessor does to the list, the
-- tiling and the blocks.
use ssuos_mminos.Base.{
  ◌==◌, if◌then◌else◌, has, ℕ, ◌+◌, ◌*◌, ◌≡◌, refl, ap, ◌∙◌, ◌≢◌, true, false, ◌||◌, Option, none,
  some, List, [], ◌∷◌, ◌++◌, arith,
}
use ssuos_mminos.Page.{Mm, Page, absorb, relink_prev}
use ssuos_mminos.Page.Spec.{Block, block}
use ssuos_mminos.Page.Invariant.{Chain, Units, Tiles, Wf, block_of, blocks}
use ssuos_mminos.Page.Links.{frame-Chain, frame-Tiles, frame-blocks}

pub has-append : (y : ℕ) (xs ys : List ℕ) → has y (xs ++ ys) ≡ (has y xs || has y ys)
has-append y [] ys = refl
has-append y (x ∷ xs) ys = ground (arith, has-append y xs ys)

pub blocks-append : (c : ℕ → Mm) (xs ys : List ℕ) → blocks c (xs ++ ys) ≡ blocks c xs ++ blocks c ys
blocks-append c [] ys = refl
blocks-append c (x ∷ xs) ys = rw (blocks-append c xs ys)

-- What a list says about the chunks from the middle on.
pub Chain-suffix :
    (c : ℕ → Mm) (prev cur : Option ℕ) (ys xs : List ℕ)
    → Chain c prev cur (ys ++ xs)
    → (q r : Option ℕ) × Chain c q r xs
Chain-suffix c prev cur [] xs ch = (prev, cur, ch)
Chain-suffix c prev cur (y ∷ ys) xs (e, p, new, rest) =
    Chain-suffix c (some y) (c y).next_idx ys xs rest

Chain-apart :
    (c : ℕ → Mm) (prev cur : Option ℕ) (ys xs : List ℕ) (y : ℕ)
    → Chain c prev cur (ys ++ xs)
    → has y xs ≡ true
    → has y ys ≡ false
Chain-apart c prev cur [] xs y ch on = refl
Chain-apart c prev cur (z ∷ ys) xs y (e, p, new, rest) on =
    ground (arith, has-append z ys xs, Chain-apart c (some z) (c z).next_idx ys xs y rest on)

on_of_next :
    (c : ℕ → Mm) (prev cur : Option ℕ) (xs : List ℕ) (y : ℕ)
    → Chain c prev cur xs
    → cur ≡ some y
    → has y xs ≡ true
on_of_next c prev cur [] y ch e = cc
on_of_next c prev cur (x ∷ xs) y (e', p, new, rest) e = ground arith

Tiles-shift :
    (g : ℕ) (c : ℕ → Mm) (a b : ℕ) (xs : List ℕ) (e : ℕ)
    → a ≡ b
    → Tiles g c b xs e
    → Tiles g c a xs e
Tiles-shift g c a b xs e h t = rw h t

Units-add : (g a b : ℕ) → Units g a → Units g b → Units g (a + b)
Units-add g a b (q, e, pos) (r, f, _) = (q + r, omega arith, omega arith)

-- The chunk tables before and after chunk `j` is joined to chunk `i` in front of it.
record Absorbed (c c' : ℕ → Mm) (i j : ℕ) : Type 0 where
  next : (c' i).next_idx ≡ (c j).next_idx
  prev : (c' i).prev_idx ≡ (c i).prev_idx
  addr : (c' i).addr ≡ (c i).addr
  size : (c' i).chunk_size ≡ (c i).chunk_size + (c j).chunk_size
  flag : (c' i).flag ≡ (c i).flag
  after : (l : ℕ) → l ≢ i → l ≢ j → (c j).next_idx ≡ some l → (c' l).prev_idx ≡ some i
  kept : (y : ℕ) → y ≢ i → y ≢ j → (c j).next_idx ≢ some y → (c' y).prev_idx ≡ (c y).prev_idx
  others :
      (y : ℕ)
      → y ≢ i
      → y ≢ j
      → ((c' y).next_idx ≡ (c y).next_idx) × (block_of (c' y) ≡ block_of (c y))
  used : (y : ℕ) → (c' y).used ≡ (if y == j then false else (c y).used)

absorb-Absorbed : (p : Page) (i j : ℕ) → i ≢ j → Absorbed p.chunks (absorb p i j).chunks i j
unfolding absorb relink_prev
absorb-Absorbed p i j ne = record {
  next = ground arith;
  prev = ground arith;
  addr = ground arith;
  size = ground arith;
  flag = ground arith;
  after = λ l a b e. ground arith;
  kept = λ y a b e. ground arith;
  others = λ y a b. ground arith;
  used = λ y. ground arith;
}

module _ {c c' : ℕ → Mm} {i j : ℕ} (a : Absorbed c c' i j) (ne : i ≢ j) where
  -- What stands behind the two chunks.
  absorb-rest :
      (zs : List ℕ)
      → Chain c (some j) (c j).next_idx zs
      → has i zs ≡ false
      → has j zs ≡ false
      → Chain c' (some i) (c' i).next_idx zs
  absorb-rest [] ch i_off j_off = a.next ∙ ch
  absorb-rest (l ∷ zs) (e, p, new, rest) i_off j_off =
      let l_i : l ≢ i = ground arith in
      let l_j : l ≢ j = ground arith in
      let next = (a.others l l_i l_j).0 in
      let same = λ (y : ℕ) (h : has y zs ≡ true).
        let y_i : y ≢ i = ground arith in
        let y_j : y ≢ j = ground arith in
        let other : (c j).next_idx ≢ some y = ground arith in
        let r : ((c' y).prev_idx ≡ (c y).prev_idx) × ((c' y).next_idx ≡ (c y).next_idx) =
          (a.kept y y_i y_j other, (a.others y y_i y_j).0) in
        r in
      (
        a.next ∙ e,
        a.after l l_i l_j e,
        new,
        rw next (frame-Chain c c' (some l) (c l).next_idx zs rest same),
      )

  absorb-Chain :
      (prev cur : Option ℕ) (ys zs : List ℕ)
      → Chain c prev cur (ys ++ i ∷ j ∷ zs)
      → Chain c' prev cur (ys ++ i ∷ zs)
  absorb-Chain prev cur [] zs (e, p, new, (e', p', new', rest)) =
      (e, a.prev ∙ p, ground arith, absorb-rest zs rest (ground arith) new')
  absorb-Chain prev cur (y ∷ ys) zs (e, p, new, rest) =
      let y_i : y ≢ i = ground (arith, has-append y ys (i ∷ j ∷ zs)) in
      let y_j : y ≢ j = ground (arith, has-append y ys (i ∷ j ∷ zs)) in
      let y_zs : has y zs ≡ false = ground (arith, has-append y ys (i ∷ j ∷ zs)) in
      let (q, r, (_, _, _, (_, _, _, behind))) =
        Chain-suffix c (some y) (c y).next_idx ys (i ∷ j ∷ zs) rest in
      let other : (c j).next_idx ≢ some y =
        λ n. ground (arith, on_of_next c (some j) (c j).next_idx zs y behind n) in
      let next = (a.others y y_i y_j).0 in
      (
        e,
        a.kept y y_i y_j other ∙ p,
        ground (arith, has-append y ys (i ∷ j ∷ zs), has-append y ys (i ∷ zs)),
        rw next (absorb-Chain (some y) (c y).next_idx ys zs rest),
      )

  absorb-blocks-rest :
      (zs : List ℕ) → has i zs ≡ false → has j zs ≡ false → blocks c' zs ≡ blocks c zs
  absorb-blocks-rest zs i_off j_off =
      frame-blocks c c' zs λ y h. (a.others y (ground arith) (ground arith)).1

  absorb-Tiles :
      (g at : ℕ) (ys zs : List ℕ) (e : ℕ)
      → has i ys ≡ false
      → has j ys ≡ false
      → has i zs ≡ false
      → has j zs ≡ false
      → Tiles g c at (ys ++ i ∷ j ∷ zs) e
      → Tiles g c' at (ys ++ i ∷ zs) e
  absorb-Tiles g at [] zs e i_ys j_ys i_zs j_zs (here, u, (next, v, t)) =
      let rest = frame-Tiles c c' g _ zs e t λ y h.
        let same = (a.others y (ground arith) (ground arith)).1 in
        (ap Block.addr same, ap Block.size same) in
      let sum = a.size in
      (
        a.addr ∙ here,
        rw sum (Units-add g _ _ u v),
        Tiles-shift g c' _ _ zs e (omega (arith, sum)) rest,
      )
  absorb-Tiles g at (y ∷ ys) zs e i_ys j_ys i_zs j_zs (here, u, t) =
      let same = (a.others y (ground arith) (ground arith)).1 in
      let size = ap Block.size same in
      (
        ap Block.addr same ∙ here,
        rw size u,
        rw size (
            absorb-Tiles g (at + (c y).chunk_size) ys zs e (ground arith) (ground arith) i_zs j_zs
              t),
      )

-- Two neighbours on the list.
pub Chain-pair :
    (c : ℕ → Mm) (prev cur : Option ℕ) (ys : List ℕ) (i j : ℕ) (zs : List ℕ)
    → Chain c prev cur (ys ++ i ∷ j ∷ zs)
    → ((c i).next_idx ≡ some j) × (i ≢ j) × (has i zs ≡ false) × (has j zs ≡ false)
Chain-pair c prev cur ys i j zs ch =
    let (q, r, (_, _, new, (e, _, new', _))) = Chain-suffix c prev cur ys (i ∷ j ∷ zs) ch in
    (e, ground arith, ground arith, new')

module _ {m g base : ℕ} {p : Page} (ys : List ℕ) (i j : ℕ) (zs : List ℕ)
    (w : Wf m g base p (ys ++ i ∷ j ∷ zs)) where
  pair : ((p.chunks i).next_idx ≡ some j) × (i ≢ j) × (has i zs ≡ false) × (has j zs ≡ false)
  pair = Chain-pair p.chunks none p.head_idx ys i j zs w.chain

  off_i : has i ys ≡ false
  off_i = Chain-apart p.chunks none p.head_idx ys (i ∷ j ∷ zs) i w.chain (ground arith)

  off_j : has j ys ≡ false
  off_j = Chain-apart p.chunks none p.head_idx ys (i ∷ j ∷ zs) j w.chain (ground arith)

  a : Absorbed p.chunks (absorb p i j).chunks i j
  a = absorb-Absorbed p i j pair.1

  facts : (y : ℕ) → has y (ys ++ i ∷ zs) ≡ (if y == j then false else has y (ys ++ i ∷ j ∷ zs))
  facts y = ground (arith, has-append y ys (i ∷ zs), has-append y ys (i ∷ j ∷ zs), off_j, pair)

  -- A merge step keeps the page well formed.
  pub absorb-Wf : Wf m g base (absorb p i j) (ys ++ i ∷ zs)
  unfolding absorb
  absorb-Wf = record {
    chain = absorb-Chain a pair.1 none p.head_idx ys zs w.chain;
    tiles = absorb-Tiles a pair.1 g base ys zs (base + m * g) off_i off_j pair.2 pair.3 w.tiles;
    slots = λ y h. ground (arith, a.used y, w.slots y h, facts y);
    bound = λ y h. w.bound y (ground (arith, facts y));
  }

  -- It joins the two blocks.
  pub absorb-blocks :
      (p.chunks i).flag ≡ false
      → blocks (absorb p i j).chunks (ys ++ i ∷ zs)
        ≡ blocks p.chunks ys
          ++ block (p.chunks i).addr ((p.chunks i).chunk_size + (p.chunks j).chunk_size) false
            ∷ blocks p.chunks zs
  absorb-blocks free =
      rw
        (
          blocks-append (absorb p i j).chunks ys (i ∷ zs),
          absorb-blocks-rest a pair.1 ys off_i off_j,
          absorb-blocks-rest a pair.1 zs pair.2 pair.3,
        )
        (ground (arith, a.addr, a.size, a.flag))

  pub absorb-front : blocks (absorb p i j).chunks ys ≡ blocks p.chunks ys
  absorb-front = absorb-blocks-rest a pair.1 ys off_i off_j

  pub absorb-tail :
      (p.chunks i).flag ≡ false
      → blocks (absorb p i j).chunks (i ∷ zs)
        ≡ block (p.chunks i).addr ((p.chunks i).chunk_size + (p.chunks j).chunk_size) false
          ∷ blocks p.chunks zs
  absorb-tail free =
      rw (absorb-blocks-rest a pair.1 zs pair.2 pair.3) (ground (arith, a.addr, a.size, a.flag))
