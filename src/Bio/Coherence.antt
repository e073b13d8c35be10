-- ===== src/Bio/Coherence.antt =====
-- Each block is in one buffer at most, and a buffer that is in use keeps its block.
use Prim.{Unit, tt}
use ssuos_mminos.Base.{
  if◌then◌else◌, Option-cases, ℕ, ◌+◌, ◌<◌, ◌≡◌, refl, sym, ◌∙◌, ◌≢◌, inl, inr, true, false, some,
  List, [], ◌∷◌, ◌++◌, arith, reverse,
}
use mathlib.Core.Path.{subst}
use ssuos_mminos.Bio.{nbuf, Cache, caches, unused, hit, recycle, bget}
use ssuos_mminos.Bio.Ring.{first}
use ssuos_mminos.Bio.Lru.{Ring, bget-bget_in, bget_in, first-some, first-none, has-reverse}
use ssuos_mminos.Bio.Uses.{Use, System, refs, holders}

-- The buffer of each use still has the block that was asked for.
abbrev pub Fits : Cache → List Use → Type 0
Fits c [] = Unit {0}
Fits c (u ∷ us) =
    ((u.buf < nbuf) × (c.dev u.buf ≡ u.dev) × (c.blockno u.buf ≡ u.blockno)) × Fits c us

abbrev pub Unique : Cache → Type 0
Unique c =
    (i j : ℕ)
    → i < nbuf
    → j < nbuf
    → c.dev i ≢ 0
    → c.dev i ≡ c.dev j
    → c.blockno i ≡ c.blockno j
    → i ≡ j

pub record Coherent (s : System) : Type 0 where
  pub order : List ℕ
  pub ring : Ring s.cache order
  pub counted : (b : ℕ) → s.cache.refcnt b ≡ refs b s.uses
  pub locked : (b : ℕ) → holders b s.uses ≡ (if s.cache.locked b then 1 else 0)
  pub fits : Fits s.cache s.uses
  pub unique : Unique s.cache

-- The list depends on the links only.
pub Ring-same :
    (c c' : Cache) (xs : List ℕ) → c'.next ≡ c.next → c'.prev ≡ c.prev → Ring c xs → Ring c' xs
Ring-same c c' xs e e' r = record {
  links = rw (e, e') r.links;
  distinct = r.distinct;
  all = r.all;
  size = r.size;
}

pub refs-append : (b : ℕ) (us vs : List Use) → refs b (us ++ vs) ≡ refs b us + refs b vs
refs-append b [] vs = omega arith
refs-append b (u ∷ us) vs = omega (arith, refs-append b us vs)

pub holders-append : (b : ℕ) (us vs : List Use) → holders b (us ++ vs) ≡ holders b us + holders b vs
holders-append b [] vs = omega arith
holders-append b (u ∷ us) vs = omega (arith, holders-append b us vs)

pub Fits-append : (c : Cache) (us vs : List Use) → Fits c us → Fits c vs → Fits c (us ++ vs)
Fits-append c [] vs f g = g
Fits-append c (u ∷ us) vs (at, f) g = (at, Fits-append c us vs f g)

pub Fits-split : (c : Cache) (us vs : List Use) → Fits c (us ++ vs) → Fits c us × Fits c vs
Fits-split c [] vs f = (tt, f)
Fits-split c (u ∷ us) vs (at, f) = let (g, h) = Fits-split c us vs f in ((at, g), h)

-- A buffer without references can get another block.
Fits-recycle :
    (c : Cache) (dev blockno b : ℕ) (us : List Use)
    → refs b us ≡ 0
    → Fits c us
    → Fits (recycle c dev blockno b) us
Fits-recycle c dev blockno b [] none_of f = tt
Fits-recycle c dev blockno b (u ∷ us) none_of ((lt, d, n), f) = (
  (lt, ground (arith, none_of, d), ground (arith, none_of, n)),
  Fits-recycle c dev blockno b us (omega (arith, none_of)) f,
)

Unique-recycle :
    (c : Cache) (dev blockno b : ℕ)
    → ((x : ℕ) → x < nbuf → caches c dev blockno x ≡ false)
    → Unique c
    → Unique (recycle c dev blockno b)
Unique-recycle c dev blockno b fresh unique i j hi hj ne d n =
    ground (arith, d, n, ne, hi, hj, fresh i hi, fresh j hj, unique i j hi hj)

hit-Coherent :
    (s : System) (b dev blockno : ℕ)
    → b < nbuf
    → caches s.cache dev blockno b ≡ true
    → Coherent s
    → Coherent (record {
      cache = hit s.cache b;
      uses = record { buf = b; dev = dev; blockno = blockno; held = false } ∷ s.uses;
    })
hit-Coherent s b dev blockno lt is v = record {
  order = v.order;
  ring = Ring-same s.cache (hit s.cache b) v.order refl refl v.ring;
  counted = λ x. ground (arith, v.counted x);
  locked = λ x. ground (arith, v.locked x);
  fits = ((lt, ground (arith, is), ground (arith, is)), v.fits);
  unique = v.unique;
}

recycle-Coherent :
    (s : System) (b dev blockno : ℕ)
    → b < nbuf
    → unused s.cache b ≡ true
    → ((x : ℕ) → x < nbuf → caches s.cache dev blockno x ≡ false)
    → Coherent s
    → Coherent (record {
      cache = recycle s.cache dev blockno b;
      uses = record { buf = b; dev = dev; blockno = blockno; held = false } ∷ s.uses;
    })
recycle-Coherent s b dev blockno lt free fresh v =
    let none_of : refs b s.uses ≡ 0 = ground (arith, free, v.counted b) in
    record {
      order = v.order;
      ring = Ring-same s.cache (recycle s.cache dev blockno b) v.order refl refl v.ring;
      counted = λ x. ground (arith, v.counted x, none_of);
      locked = λ x. ground (arith, v.locked x);
      fits = (
        (lt, ground arith, ground arith),
        Fits-recycle s.cache dev blockno b s.uses none_of v.fits,
      );
      unique = Unique-recycle s.cache dev blockno b fresh v.unique;
    }

pub gets-Coherent :
    (s : System) (c' : Cache) (b dev blockno : ℕ)
    → bget dev blockno s.cache ≡ some (b, c')
    → Coherent s
    → Coherent (record {
      cache = c';
      uses = record { buf = b; dev = dev; blockno = blockno; held = false } ∷ s.uses;
    })
gets-Coherent s c' b dev blockno e v =
    let c = s.cache in
    let runs : bget_in v.order dev blockno c ≡ some (b, c') =
      sym (bget-bget_in c v.order dev blockno v.ring) ∙ e in
    elim (Option-cases (first (caches c dev blockno) v.order)) [
      | inr (b', found) ↦
          let (is_in, is) = first-some (caches c dev blockno) v.order b' found in
          let result : (b', hit c b') ≡ (b, c') = ground (arith, runs, found) in
          subst
            (λ (r : ℕ × Cache). Coherent (record {
              cache = r.1;
              uses = record { buf = r.0; dev = dev; blockno = blockno; held = false } ∷ s.uses;
            }))
            result (hit-Coherent s b' dev blockno ((v.ring.all b').0 is_in) is v)
      | inl missing ↦ elim (Option-cases (first (unused c) (reverse v.order))) [
        | inl full ↦ absurd (ground (arith, runs, missing, full))
        | inr (b', found) ↦
            let (is_in, free) = first-some (unused c) (reverse v.order) b' found in
            let result : (b', recycle c dev blockno b') ≡ (b, c') =
              ground (arith, runs, missing, found) in
            subst
              (λ (r : ℕ × Cache). Coherent (record {
                cache = r.1;
                uses = record { buf = r.0; dev = dev; blockno = blockno; held = false } ∷ s.uses;
              }))
              result
              (recycle-Coherent s b' dev blockno
                ((v.ring.all b').0 (sym (has-reverse b' v.order) ∙ is_in)) free
                (λ x lt. first-none (caches c dev blockno) v.order x missing ((v.ring.all x).1 lt))
                v)
      ]
    ]
