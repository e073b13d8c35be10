-- ===== src/Page/Links.antt =====
-- How changes of the chunk table act on the list, the tiling and the blocks: a change elsewhere
-- keeps them, and a split puts one chunk in front of another.
use ssuos_mminos.Base.{
  ℕ, ◌+◌, ◌-◌, ◌≤◌, ◌≡◌, ◌≢◌, refl, ap, true, false, Option, none, some, List, [], ◌∷◌, arith, sym,
  ◌∙◌, has, Bool-cases, inl, inr, ◌==◌, if◌then◌else◌,
}
use ssuos_mminos.Page.{Mm}
use ssuos_mminos.Page.Spec.{Block, first_fit, fits}
use ssuos_mminos.Page.Invariant.{Chain, Units, Tiles, block_of, blocks}

module _ (c c' : ℕ → Mm) where
  -- A change that keeps the links of the listed chunks keeps the list.
  pub frame-Chain :
      (prev cur : Option ℕ) (xs : List ℕ)
      → Chain c prev cur xs
      → ((y : ℕ)
          → has y xs ≡ true
          → ((c' y).prev_idx ≡ (c y).prev_idx) × ((c' y).next_idx ≡ (c y).next_idx))
      → Chain c' prev cur xs
  frame-Chain prev cur [] h same = h
  frame-Chain prev cur (x ∷ xs) (e, p, new, rest) same =
      let (p', n') = same x (ground arith) in
      (e, cc, new, rw n' (frame-Chain (some x) (c x).next_idx xs rest λ y h. same y (ground arith)))

  pub frame-Tiles :
      (g a : ℕ) (xs : List ℕ) (e : ℕ)
      → Tiles g c a xs e
      → ((y : ℕ)
          → has y xs ≡ true
          → ((c' y).addr ≡ (c y).addr) × ((c' y).chunk_size ≡ (c y).chunk_size))
      → Tiles g c' a xs e
  frame-Tiles g a [] e h same = h
  frame-Tiles g a (x ∷ xs) e (at, u, rest) same =
      let (a', s') = same x (ground arith) in
      (
        cc,
        rw s' u,
        rw s' (frame-Tiles g (a + (c x).chunk_size) xs e rest λ y h. same y (ground arith)),
      )

  pub frame-blocks :
      (xs : List ℕ)
      → ((y : ℕ) → has y xs ≡ true → block_of (c' y) ≡ block_of (c y))
      → blocks c' xs ≡ blocks c xs
  frame-blocks [] same = refl
  frame-blocks (x ∷ xs) same = ground (arith, same x, frame-blocks xs λ y h. same y (ground arith))

-- A later chunk of a list has its predecessor on the list.
pred-Chain :
    (c : ℕ → Mm) (prev cur : Option ℕ) (x : ℕ) (xs : List ℕ) (i : ℕ)
    → Chain c prev cur (x ∷ xs)
    → has i xs ≡ true
    → (y : ℕ) × (has y (x ∷ xs) ≡ true) × ((c i).prev_idx ≡ some y)
pred-Chain c prev cur x [] i h m = cc
pred-Chain c prev cur x (z ∷ xs) i (e, p, new, rest) m = elim (Bool-cases (i == z)) [
  | inl s ↦ (x, ground arith, ground arith)
  | inr d ↦
      let h : has i xs ≡ true = ground arith in
      let (y, on, eq) = pred-Chain c (some x) (c x).next_idx z xs i rest h in (y, ground arith, eq)
]

-- The first chunk of a list that a request of `n` bytes fits.
abbrev pub locate : ℕ → (ℕ → Mm) → List ℕ → Option ℕ
locate n c [] = none
locate n c (x ∷ xs) = if fits n (block_of (c x)) then some x else locate n c xs

pub has-locate :
    (n : ℕ) (c : ℕ → Mm) (xs : List ℕ) (i : ℕ) → locate n c xs ≡ some i → has i xs ≡ true
has-locate n c [] i e = cc
has-locate n c (x ∷ xs) i e = ground (arith, has-locate n c xs i)

-- `k` in front of `i`
pub insert_before : (k i : ℕ) → List ℕ → List ℕ
insert_before k i [] = []
insert_before k i (x ∷ xs) = if x == i then k ∷ x ∷ xs else x ∷ insert_before k i xs

pub has-insert_before :
    (k i : ℕ) (xs : List ℕ) (y : ℕ)
    → has i xs ≡ true
    → has y (insert_before k i xs) ≡ (if y == k then true else has y xs)
unfolding insert_before
has-insert_before k i [] y h = cc
has-insert_before k i (x ∷ xs) y h = ground (arith, has-insert_before k i xs y)

-- The chunk tables before and after a split of chunk `i` of `n` bytes or more, with `k` new.
pub record Split (c c' : ℕ → Mm) (i k n : ℕ) : Type 0 where
  pub new_next : (c' k).next_idx ≡ some i
  pub new_prev : (c' k).prev_idx ≡ (c i).prev_idx
  pub new_block : (c' k).addr ≡ (c i).addr
  pub new_size : (c' k).chunk_size ≡ n
  pub new_flag : (c' k).flag ≡ true
  pub old_next : (c' i).next_idx ≡ (c i).next_idx
  pub old_prev : (c' i).prev_idx ≡ some k
  pub old_addr : (c' i).addr ≡ (c i).addr + n
  pub old_size : (c' i).chunk_size ≡ (c i).chunk_size - n
  pub old_flag : (c' i).flag ≡ (c i).flag
  pub linked : (y : ℕ) → y ≢ i → y ≢ k → (c i).prev_idx ≡ some y → (c' y).next_idx ≡ some k
  pub kept : (y : ℕ) → y ≢ i → y ≢ k → (c i).prev_idx ≢ some y → (c' y).next_idx ≡ (c y).next_idx
  pub others :
      (y : ℕ)
      → y ≢ i
      → y ≢ k
      → ((c' y).prev_idx ≡ (c y).prev_idx) × (block_of (c' y) ≡ block_of (c y))

module _ {c c' : ℕ → Mm} {i k n : ℕ} (s : Split c c' i k n) (ne : i ≢ k) where
  -- what the links of a chunk other than `i`, `k` and the predecessor of `i` are
  spared :
      (y : ℕ)
      → y ≢ i
      → y ≢ k
      → (c i).prev_idx ≢ some y
      → ((c' y).prev_idx ≡ (c y).prev_idx) × ((c' y).next_idx ≡ (c y).next_idx)
  spared y y_i y_k no_pred = ((s.others y y_i y_k).0, s.kept y y_i y_k no_pred)

  pub split-Chain :
      (prev cur cur' : Option ℕ) (xs : List ℕ)
      → Chain c prev cur xs
      → has i xs ≡ true
      → has k xs ≡ false
      → ((y : ℕ) → has y xs ≡ true → prev ≢ some y)
      → ((c i).prev_idx ≡ prev → cur' ≡ some k)
      → ((c i).prev_idx ≢ prev → cur' ≡ cur)
      → Chain c' prev cur' (insert_before k i xs)
  unfolding insert_before
  split-Chain prev cur cur' [] h on off out e1 e2 = cc
  split-Chain prev cur cur' (x ∷ xs) (e, p, new, rest) on off out e1 e2 =
      elim (Bool-cases (x == i)) [
        | inl here ↦
            let at : x ≡ i = ground arith in
            let first : (c i).prev_idx ≡ prev = ground arith in
            let same = λ (y : ℕ) (h : has y xs ≡ true).
              spared y (ground arith) (ground arith) (λ q. out y (ground arith) (sym first ∙ q)) in
            rw here (
              e1 first,
              s.new_prev ∙ first,
              ground arith,
              (
                ground (arith, s.new_next),
                ground (arith, s.old_prev),
                new,
                let h : (c' x).next_idx ≡ (c x).next_idx = ground (arith, s.old_next) in
                    rw h (frame-Chain c c' (some x) (c x).next_idx xs rest same),
              ),
            )
        | inr later ↦
            let on' : has i xs ≡ true = ground arith in
            let (y, on_y, pred) = pred-Chain c prev cur x xs i (e, p, new, rest) on' in
            let x_ne : x ≢ i = ground arith in
            let x_ne' : x ≢ k = ground arith in
            let prev_ne : (c i).prev_idx ≢ prev = λ q. out y on_y (sym q ∙ pred) in
            rw later (
              e2 prev_ne ∙ e,
              (s.others x x_ne x_ne').0 ∙ p,
              ground (arith, has-insert_before k i xs x on'),
              split-Chain (some x) (c x).next_idx (c' x).next_idx xs rest on' (ground arith)
                  (λ z h q. ground (arith)) (s.linked x x_ne x_ne') (s.kept x x_ne x_ne'),
            )
      ]

  frame-others :
      (xs : List ℕ)
      → has i xs ≡ false
      → has k xs ≡ false
      → (y : ℕ) → has y xs ≡ true
      → block_of (c' y) ≡ block_of (c y)
  frame-others xs i_off k_off y h = (s.others y (ground arith) (ground arith)).1

  pub split-Tiles :
      (g a : ℕ) (prev cur : Option ℕ) (xs : List ℕ) (e : ℕ)
      → Chain c prev cur xs
      → Tiles g c a xs e
      → has i xs ≡ true
      → has k xs ≡ false
      → Units g n
      → Units g ((c i).chunk_size - n)
      → n ≤ (c i).chunk_size
      → Tiles g c' a (insert_before k i xs) e
  unfolding insert_before
  split-Tiles g a prev cur [] e ch h on off u v le = cc
  split-Tiles g a prev cur (x ∷ xs) e (e0, p0, new, rest) (at, w, t) on off u v le =
      elim (Bool-cases (x == i)) [
        | inl here ↦
            let at_i : x ≡ i = ground arith in
            let cell = ap c at_i in
            let cell' = ap c' at_i in
            let same = frame-others xs (ground arith) (ground arith) in
            let rest' =
              frame-Tiles c c' g (a + (c x).chunk_size) xs e t
                λ y h. (ap Block.addr (same y h), ap Block.size (same y h)) in
            let split = λ (z : ℕ) (h : z ≡ a + (c x).chunk_size).
              let r : Tiles g c' z xs e = rw h rest' in r in
            rw here (
              ground (arith, s.new_block),
              rw s.new_size u,
              (
                ground (arith, s.old_addr, s.new_size),
                rw (ap Mm.chunk_size cell', s.old_size) v,
                split _ (ground (arith, s.new_size, s.old_size)),
              ),
            )
        | inr later ↦
            let x_k : x ≢ k = ground arith in
            let same = (s.others x (ground arith) x_k).1 in
            let size = ap Block.size same in
            rw later (
              ap Block.addr same ∙ at,
              rw size w,
              rw size (
                  split-Tiles g (a + (c x).chunk_size) (some x) (c x).next_idx xs e rest t
                    (ground arith) (ground arith) u v le),
            )
      ]

  pub split-first_fit :
      (prev cur : Option ℕ) (xs : List ℕ)
      → Chain c prev cur xs
      → has k xs ≡ false
      → locate n c xs ≡ some i
      → ((c i).chunk_size == n) ≡ false
      → first_fit n (blocks c xs) ≡ some ((c i).addr, blocks c' (insert_before k i xs))
  unfolding insert_before first_fit
  split-first_fit prev cur [] ch off l big = cc
  split-first_fit prev cur (x ∷ xs) (e0, p0, new, rest) off l big =
      elim (Bool-cases (fits n (block_of (c x)))) [
        | inl here ↦
            let at_i : x ≡ i = ground arith in
            ground (
              arith,
              s.new_block,
              s.new_size,
              s.new_flag,
              s.old_addr,
              s.old_size,
              s.old_flag,
              frame-blocks c c' xs (frame-others xs (ground arith) (ground arith)),
            )
        | inr later ↦
            let on : has i xs ≡ true = has-locate n c xs i (ground arith) in
            ground (
              arith,
              s.others x (ground arith) (ground arith),
              split-first_fit (some x) (c x).next_idx xs rest (ground arith) (ground arith) big,
            )
      ]
