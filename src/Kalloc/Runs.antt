-- ===== src/Kalloc/Runs.antt =====
-- Calls of kalloc and kfree in any order, with the pages that are handed out.
use ssuos_mminos.Base.{
  ℕ, ◌+◌, ◌-◌, ◌/◌, ◌==◌, if◌then◌else◌, ◌≡◌, refl, sym, ◌∙◌, ◌≢◌, inl, inr, true, false, update,
  Bool-cases, Option, none, some, List, [], ◌∷◌, arith,
}
use ssuos_mminos.Kalloc.{Kmem, no_pages, kfree, freerange, page_round_up, kalloc, kinit, bad_page}
use mathlib.Core.Path.{ap, subst}
use ssuos_mminos.Kalloc.FreeList.{
  Chain, times, in_pages, Chain-update, kfree-Chain, free_pages-Chain, free_pages-good,
}

pub record System : Type 0 where
  pub kmem : Kmem
  pub out : List ℕ

-- The pages but for the first `v`.
abbrev pub give_back : ℕ → List ℕ → List ℕ
give_back v [] = []
give_back v (p ∷ ps) = let rest = give_back v ps in if p == v then ps else p ∷ rest

-- The kernel allocates a page, writes over the link of a page it holds, or frees a page it holds.
pub data Step (kernel_end : ℕ) : System → System → Type 0 where
  allocates :
      {k k' : Kmem} {out : List ℕ} (v : ℕ)
      → kalloc k ≡ (some v, k')
      → Step kernel_end (record { kmem = k; out = out }) (record { kmem = k'; out = v ∷ out })
  writes :
      {k : Kmem} {out : List ℕ} (v : ℕ) (a : Option ℕ)
      → times v out ≢ 0
      → Step kernel_end
          (record { kmem = k; out = out })
          (record { kmem = record k { next = update k.next v a }; out = out })
  frees :
      {k k' : Kmem} {out : List ℕ} (v : ℕ)
      → times v out ≢ 0
      → kfree kernel_end v k ≡ some k'
      → Step kernel_end
          (record { kmem = k; out = out })
          (record { kmem = k'; out = give_back v out })

pub data Reach (kernel_end : ℕ) (s : System) : System → Type 0 where
  here : Reach kernel_end s s
  later : {t u : System} → Reach kernel_end s t → Step kernel_end t u → Reach kernel_end s u

abbrev pub start : Kmem → System
start k = record { kmem = k; out = [] }

times-give_back :
    (u v : ℕ) (ps : List ℕ)
    → times v ps ≢ 0
    → times u (give_back v ps) + (if v == u then 1 else 0) ≡ times u ps
times-give_back u v [] held = absurd (held refl)
times-give_back u v (p ∷ ps) held = elim (Bool-cases (p == v)) [
  | inl same ↦ ground (arith, same)
  | inr differ ↦
      let others : times v ps ≢ 0 = λ e. held (ground (arith, e, differ)) in
      ground (arith, times-give_back u v ps others, differ)
]

-- Each page is either free or handed out, and once.
Once : (p n : ℕ) → System → Type 0
Once p n s =
    (free : List ℕ) × Chain s.kmem.next s.kmem.freelist free
    × ((v : ℕ) → times v free + times v s.out ≡ (if in_pages p n v then 1 else 0))

kalloc-Chain :
    (v : ℕ) (k k' : Kmem) (ps : List ℕ)
    → kalloc k ≡ (some v, k')
    → Chain k.next k.freelist ps
    → (qs : List ℕ) × (ps ≡ v ∷ qs) × Chain k'.next k'.freelist qs
unfolding kalloc Chain
kalloc-Chain v k k' [] e c = absurd (ground (arith, e, c))
kalloc-Chain v k k' (p ∷ ps) e (at, rest) =
    let k'' : Kmem = record k { freelist = k.next p } in
    let runs : kalloc k ≡ (some p, k'') = rw (kalloc, at) refl in
    let same : Path (Option ℕ × Kmem) (some p, k'') (some v, k') = sym runs ∙ e in
    let page : some p ≡ some v = cc in
    let state : k'' ≡ k' = cc in
    let front : p ∷ ps ≡ v ∷ ps = cc in
    (ps, front, subst (λ (x : Kmem). Chain x.next x.freelist ps) state rest)

kalloc-empty :
    (k k' : Kmem) (ps : List ℕ) → kalloc k ≡ (none, k') → Chain k.next k.freelist ps → ps ≡ []
unfolding kalloc Chain
kalloc-empty k k' [] e c = refl
kalloc-empty k k' (p ∷ ps) e (at, rest) = absurd (ground (arith, e, at))

once :
    (free out : List ℕ) (p n v : ℕ)
    → times v free + times v out ≡ (if in_pages p n v then 1 else 0)
    → times v out ≢ 0
    → times v free ≡ 0
once free out p n v count held = elim (Bool-cases (in_pages p n v)) [
  | inl is ↦ ground (arith, count, held, is)
  | inr is ↦ ground (arith, count, held, is)
]

step-Once : {s t : System} (kernel_end p n : ℕ) → Step kernel_end s t → Once p n s → Once p n t
unfolding Once
step-Once kernel_end p n (allocates {k} {k'} {out} v e) (free, c, counts) =
    let (qs, is_free, c') = kalloc-Chain v k k' free e c in
    (
      qs,
      c',
      λ u.
          let taken : times u free ≡ times u (v ∷ qs) = ap (times u) is_free in
          ground (arith, counts u, taken),
    )
step-Once kernel_end p n (writes {k} {out} v a held) (free, c, counts) =
    (free, Chain-update k.next v a k.freelist free (once free out p n v (counts v) held) c, counts)
step-Once kernel_end p n (frees {k} {k'} {out} v held e) (free, c, counts) = (
  v ∷ free,
  kfree-Chain kernel_end v k k' free e (once free out p n v (counts v) held) c,
  λ u. ground (arith, counts u, times-give_back u v out held),
)

Reach-Once : (kernel_end p n : ℕ) {s t : System} → Reach kernel_end s t → Once p n s → Once p n t
Reach-Once kernel_end p n here o = o
Reach-Once kernel_end p n (later r st) o =
    step-Once kernel_end p n st (Reach-Once kernel_end p n r o)

kfree-runs :
    (kernel_end v : ℕ) (k : Kmem)
    → bad_page kernel_end v ≡ false
    → (k' : Kmem) × (kfree kernel_end v k ≡ some k')
unfolding kfree
kfree-runs kernel_end v k good =
    (record { next = update k.next v k.freelist; freelist = some v }, rw (good, kfree) refl)

held-inside :
    (p n v free out : ℕ)
    → free + out ≡ (if in_pages p n v then 1 else 0)
    → out ≢ 0
    → in_pages p n v ≡ true
held-inside p n v free out count held = elim (Bool-cases (in_pages p n v)) [
  | inl is ↦ is
  | inr is ↦ absurd (ground (arith, count, held, is))
]

-- After `kinit1` over a range, at any point of any sequence of allocations, writes over the links of
-- pages that are held and frees of pages that are held: the free list ends, each whole page of the range
-- is either on it or handed out, and that once, and no other address is; an allocation that fails means
-- that no page is free; and freeing a page that is held does not panic.
pub Reach-once :
    (kernel_end vstart vend : ℕ) (k : Kmem) {s : System}
    → kinit kernel_end vstart vend no_pages ≡ some k
    → Reach kernel_end (start k) s
    → (free : List ℕ) × Chain s.kmem.next s.kmem.freelist free
      × ((v : ℕ)
          → times v free + times v s.out ≡ (
              if in_pages (page_round_up vstart) ((vend - page_round_up vstart) / 4096) v
              then 1
              else 0))
      × ((k' : Kmem) → kalloc s.kmem ≡ (none, k') → free ≡ [])
      × ((v : ℕ) → times v s.out ≢ 0 → (k' : Kmem) × (kfree kernel_end v s.kmem ≡ some k'))
unfolding freerange Once Chain
Reach-once kernel_end vstart vend k {s} e r =
    let p : ℕ = page_round_up vstart in
    let n : ℕ = (vend - page_round_up vstart) / 4096 in
    let (qs, c, counts) = free_pages-Chain kernel_end n p no_pages k [] e (λ v inside. refl) refl in
    let (free, c', once') = Reach-Once kernel_end p n r (qs, c, λ v. ground (arith, counts v)) in
    (
      free,
      c',
      once',
      λ k' fails. kalloc-empty s.kmem k' free fails c',
      λ v held.
          let inside = held-inside p n v (times v free) (times v s.out) (once' v) held in
          kfree-runs kernel_end v s.kmem (free_pages-good kernel_end n p no_pages k v e inside),
    )
