-- ===== src/Kalloc/FreeList.antt =====
-- The free list as a list of pages.
use ssuos_mminos.Base.{
  update_self, update-ne, ltb, leb, ◌==◌, if◌then◌else◌, Bool-cases, Option-cases, update, ℕ, zero,
  suc, ◌+◌, ◌-◌, ◌*◌, ◌%◌, ◌≡◌, refl, sym, ◌∙◌, ◌≢◌, inl, inr, Bool, true, false, ◌&&◌, Option,
  none, some, List, [], ◌∷◌, arith,
}
use native.Mathlib.Decide.{ℕ_discrete}
use mathlib.Core.Path.{subst}
use ssuos_mminos.Kalloc.{Kmem, kfree, free_pages, bad_page}

unfoldable pub Chain : (ℕ → Option ℕ) → Option ℕ → List ℕ → Type 0
Chain next o [] = o ≡ none
Chain next o (p ∷ ps) = (o ≡ some p) × Chain next (next p) ps

-- How often a page is in a list.
abbrev pub times : ℕ → List ℕ → ℕ
times v [] = 0
times v (p ∷ ps) = (if p == v then 1 else 0) + times v ps

pub Chain-update :
    (next : ℕ → Option ℕ) (v : ℕ) (a o : Option ℕ) (ps : List ℕ)
    → times v ps ≡ 0
    → Chain next o ps
    → Chain (update next v a) o ps
unfolding Chain
Chain-update next v a o [] none_of_it c = c
Chain-update next v a o (p ∷ ps) none_of_it (at, rest) =
    let other : v ≢ p = λ e. ground (arith, none_of_it, e) in
    (
      at,
      subst (λ q. Chain (update next v a) q ps) (sym (update-ne next v p a other))
          (Chain-update next v a (next p) ps (omega (arith, none_of_it)) rest),
    )

pub some_path : {x y : Kmem} → some x ≡ some y → x ≡ y
some_path eq = cc

pub kfree-Chain :
    (kernel_end v : ℕ) (k k' : Kmem) (ps : List ℕ)
    → kfree kernel_end v k ≡ some k'
    → times v ps ≡ 0
    → Chain k.next k.freelist ps
    → Chain k'.next k'.freelist (v ∷ ps)
unfolding kfree Chain
kfree-Chain kernel_end v k k' ps e fresh c = elim (Bool-cases (bad_page kernel_end v)) [
  | inl bad ↦ absurd (ground (arith, e, bad))
  | inr good ↦
      let k'' : Kmem = record { next = update k.next v k.freelist; freelist = some v } in
      let runs : kfree kernel_end v k ≡ some k'' = rw (good, kfree) refl in
      let same : k'' ≡ k' = some_path (sym runs ∙ e) in
      subst (λ (x : Kmem). (x.freelist ≡ some v) × Chain x.next (x.next v) ps) same
        (
          refl,
          subst (λ q. Chain (update k.next v k.freelist) q ps)
              (sym (update_self k.next v k.freelist))
              (Chain-update k.next v k.freelist k.freelist ps fresh c),
        )
]

-- The `n` pages from `p` on.
abbrev pub in_pages : (p n v : ℕ) → Bool
in_pages p n v = leb p v && ltb v (p + 4096 * n) && ((v - p) % 4096 == 0)

pub free_pages-Chain :
    (kernel_end n p : ℕ) (k k' : Kmem) (ps : List ℕ)
    → free_pages kernel_end n p k ≡ some k'
    → ((v : ℕ) → in_pages p n v ≡ true → times v ps ≡ 0)
    → Chain k.next k.freelist ps
    → (qs : List ℕ) × Chain k'.next k'.freelist qs
      × ((v : ℕ) → times v qs ≡ times v ps + (if in_pages p n v then 1 else 0))
unfolding free_pages
free_pages-Chain kernel_end zero p k k' ps e fresh c =
    (ps, subst (λ (x : Kmem). Chain x.next x.freelist ps) (some_path e) c, λ v. ground arith)
free_pages-Chain kernel_end (suc n) p k k' ps e fresh c =
    elim (Option-cases (kfree kernel_end p k)) [
      | inl panics ↦ absurd (ground (arith, e, panics))
      | inr (k₁, freed) ↦
          let goes : free_pages kernel_end n (p + 4096) k₁ ≡ some k' =
            sym (rw (freed, free_pages) refl) ∙ e in
          let first : times p ps ≡ 0 = fresh p (ground arith) in
          let c₁ = kfree-Chain kernel_end p k k₁ ps freed first c in
          let later : (v : ℕ) → in_pages (p + 4096) n v ≡ true → times v (p ∷ ps) ≡ 0 = λ v inside.
            let here : in_pages p (suc n) v ≡ true = ground (arith, inside) in
            ground (arith, fresh v here, inside) in
          let (qs, c', counts) =
            free_pages-Chain kernel_end n (p + 4096) k₁ k' (p ∷ ps) goes later c₁ in
          (qs, c', λ v. ground (arith, counts v))
    ]

kfree-good :
    (kernel_end v : ℕ) (k k' : Kmem)
    → kfree kernel_end v k ≡ some k'
    → bad_page kernel_end v ≡ false
unfolding kfree
kfree-good kernel_end v k k' e = elim (Bool-cases (bad_page kernel_end v)) [
  | inl bad ↦ absurd (ground (arith, e, bad))
  | inr good ↦ good
]

pub free_pages-good :
    (kernel_end n p : ℕ) (k k' : Kmem) (v : ℕ)
    → free_pages kernel_end n p k ≡ some k'
    → in_pages p n v ≡ true
    → bad_page kernel_end v ≡ false
unfolding free_pages
free_pages-good kernel_end zero p k k' v e inside = absurd (ground (arith, inside))
free_pages-good kernel_end (suc n) p k k' v e inside = elim (Option-cases (kfree kernel_end p k)) [
  | inl panics ↦ absurd (ground (arith, e, panics))
  | inr (k₁, freed) ↦
      let goes : free_pages kernel_end n (p + 4096) k₁ ≡ some k' =
        sym (rw (freed, free_pages) refl) ∙ e in
      elim (ℕ_discrete p v) [
        | yes same ↦
            subst (λ u. bad_page kernel_end u ≡ false) same (kfree-good kernel_end p k k₁ freed)
        | no other ↦
            let beyond : in_pages (p + 4096) n v ≡ true = ground (arith, inside, other) in
            free_pages-good kernel_end n (p + 4096) k₁ k' v goes beyond
      ]
]
