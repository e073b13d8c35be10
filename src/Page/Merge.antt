-- ===== src/Page/Merge.antt =====
-- `merge_chunk` on a well-formed page: it ends, keeps the page well formed, and coalesces the blocks.
use ssuos_mminos.Base.{
  if◌then◌else◌, Bool-cases, length, ℕ, zero, suc, ◌+◌, ◌<◌, ◌≡◌, refl, ap, ◌∙◌, inl, inr, false,
  not, ◌&&◌, Option, none, some, List, [], ◌∷◌, ◌++◌, arith,
}
use mathlib.Core.List.{append_assoc}
use ssuos_mminos.Page.{Page, absorb, mergeable, merge}
use ssuos_mminos.Page.Spec.{Block, coalesce, coalesce-merge, coalesce-keep}
use ssuos_mminos.Page.Invariant.{Wf, block_of, blocks}
use ssuos_mminos.Page.Absorb.{
  Chain-suffix, Chain-pair, blocks-append, absorb-Wf, absorb-front, absorb-tail,
}

-- The page that the loop returns.
pub record Merged (m g base : ℕ) (bs : List Block) (r : Option Page) : Type 0 where
  pub page : Page
  pub list : List ℕ
  pub result : r ≡ some page
  pub wf : Wf m g base page list
  pub merged : blocks page.chunks list ≡ bs

mergeable-some :
    (p : Page) (i j : ℕ)
    → (p.chunks i).next_idx ≡ some j
    → mergeable p i ≡ (if not (p.chunks i).flag && not (p.chunks j).flag then some j else none)
unfolding mergeable
mergeable-some p i j e = rw (e, mergeable)

mergeable-none : (p : Page) (i : ℕ) → (p.chunks i).next_idx ≡ none → mergeable p i ≡ none
unfolding mergeable
mergeable-none p i e = rw (e, mergeable)

merge-join :
    (f : ℕ) (p : Page) (i j : ℕ)
    → mergeable p i ≡ some j
    → merge (suc f) p (some i) ≡ merge f (absorb p i j) (some i)
unfolding merge
merge-join f p i j e = rw (e, merge)

merge-next :
    (f : ℕ) (p : Page) (i : ℕ) (o : Option ℕ)
    → mergeable p i ≡ none
    → (p.chunks i).next_idx ≡ o
    → merge (suc f) p (some i) ≡ merge f p o
unfolding merge
merge-next f p i o e n = rw (e, merge) (rw n)

merge-end : (f : ℕ) (p : Page) → merge (suc f) p none ≡ some p
unfolding merge
merge-end f p = refl

coalesce-one : (b : Block) → coalesce (b ∷ []) ≡ b ∷ []
unfolding coalesce
coalesce-one b = refl

nothing : ◌≡◌ {A = List Block} [] (coalesce [])
unfolding coalesce
nothing = refl

pub Merged-cast :
    {m g base : ℕ} {bs bs' : List Block} {r r' : Option Page}
    → bs ≡ bs'
    → r' ≡ r
    → Merged m g base bs r
    → Merged m g base bs' r'
Merged-cast e e' d = record {
  page = d.page;
  list = d.list;
  result = e' ∙ d.result;
  wf = d.wf;
  merged = d.merged ∙ e;
}

merge-Merged :
    {m g base : ℕ} (f : ℕ) (p : Page) (ys : List ℕ) (i : ℕ) (xs : List ℕ)
    → Wf m g base p (ys ++ i ∷ xs)
    → length xs + 1 < f
    → Merged m g base
        (blocks p.chunks ys ++ coalesce (blocks p.chunks (i ∷ xs)))
        (merge f p (some i))
merge-Merged zero p ys i xs w lt = absurd (omega arith)
merge-Merged (suc zero) p ys i xs w lt = absurd (omega arith)
merge-Merged (suc (suc f)) p ys i [] w lt =
    let (q, r, (_, _, _, last)) = Chain-suffix p.chunks none p.head_idx ys (i ∷ []) w.chain in
    record {
      page = p;
      list = ys ++ i ∷ [];
      result = merge-next (suc f) p i none (mergeable-none p i last) last ∙ merge-end f p;
      wf = w;
      merged = blocks-append p.chunks ys (i ∷ []) ∙ rw (coalesce-one (block_of (p.chunks i)));
    }
merge-Merged {m} {g} {base} (suc (suc f)) p ys i (j ∷ zs) w lt =
    elim (Bool-cases (not (p.chunks i).flag && not (p.chunks j).flag)) [
      | inl both ↦
          let free_i : (p.chunks i).flag ≡ false = ground arith in
          let free_j : (p.chunks j).flag ≡ false = ground arith in
          Merged-cast
            (rw
              (
                absorb-front ys i j zs w,
                absorb-tail ys i j zs w free_i,
                coalesce-merge (block_of (p.chunks i)) (block_of (p.chunks j)) (blocks p.chunks zs)
                    free_i free_j,
              )
              refl)
            (merge-join (suc f) p i j (rw (mergeable-some p i j next, both)))
            (merge-Merged (suc f) (absorb p i j) ys i zs (absorb-Wf ys i j zs w) (omega arith))
      | inr busy ↦
          let assoc : (ys ++ i ∷ []) ++ j ∷ zs ≡ ys ++ i ∷ j ∷ zs =
            append_assoc ys (i ∷ []) (j ∷ zs) in
          Merged-cast
            (rw
              (
                blocks-append p.chunks ys (i ∷ []),
                append_assoc,
                coalesce-keep (block_of (p.chunks i)) (block_of (p.chunks j)) (blocks p.chunks zs)
                    busy,
              )
              refl)
            (merge-next (suc f) p i (some j) (rw (mergeable-some p i j next, busy)) next)
            (merge-Merged (suc f) p (ys ++ i ∷ []) j zs (rw assoc w) (omega arith))
    ]
  where
    next : (p.chunks i).next_idx ≡ some j
    next = (Chain-pair p.chunks none p.head_idx ys i j zs w.chain).0

-- The whole call, from the head of the list.
pub merge-coalesce :
    {m g base : ℕ} {p : Page} {xs : List ℕ} (w : Wf m g base p xs) (f : ℕ)
    → length xs + 1 < f
    → Merged m g base (coalesce (blocks p.chunks xs)) (merge f p p.head_idx)
merge-coalesce {p} {xs = []} w (suc f) lt = record {
  page = p;
  list = [];
  result = ap (merge (suc f) p) w.chain ∙ merge-end f p;
  wf = w;
  merged = nothing;
}
merge-coalesce {p} {xs = []} w zero lt = absurd (omega arith)
merge-coalesce {p} {xs = i ∷ xs} w f lt =
    Merged-cast refl (ap (merge f p) w.chain.0) (merge-Merged f p [] i xs w (omega arith))
