-- ===== src/Bio/Release.antt =====
-- Locks, transfers and releases keep the cache coherent, and so do all runs.
use Prim.{tt}
use ssuos_mminos.Base.{
  ◌==◌, Bool-cases, update, ℕ, zero, suc, ◌+◌, ◌-◌, ◌≡◌, refl, ap, inl, inr, Bool, true, false,
  some, List, [], ◌∷◌, ◌++◌, arith,
}
use mathlib.Core.Path.{subst}
use ssuos_mminos.Bio.{
  head, init_loop, nbuf, Cache, zeroed, binit, acquiresleep, bread, bwrite, iderw, brelse,
  push_front, unlink,
}
use ssuos_mminos.Bio.Lru.{binit-Ring, brelse-Ring}
use ssuos_mminos.Bio.Order.{down}
use ssuos_mminos.Bio.Uses.{
  Use, System, refs, holders, Step, gets, locks, reads, writes, marks, releases, Reach, here, later,
  start,
}
use ssuos_mminos.Bio.Coherence.{
  Coherent, Fits, Ring-same, refs-append, holders-append, Fits-append, Fits-split, gets-Coherent,
}

-- A change of the flags alone.
flags-Coherent :
    (s : System) (valid dirty : ℕ → Bool)
    → Coherent s
    → Coherent (record s { cache = record s.cache { valid = valid; dirty = dirty } })
flags-Coherent s valid dirty v = record {
  order = v.order;
  ring =
      Ring-same s.cache (record s.cache { valid = valid; dirty = dirty }) v.order refl refl v.ring;
  counted = v.counted;
  locked = v.locked;
  fits = Fits-flags s.uses v.fits;
  unique = v.unique;
}
  where
    Fits-flags :
        (us : List Use)
        → Fits s.cache us
        → Fits (record s.cache { valid = valid; dirty = dirty }) us
    Fits-flags us f = f

abbrev FlagsOnly : Cache → Cache → Type 0
FlagsOnly c c' = (valid dirty : ℕ → Bool) × (record c { valid = valid; dirty = dirty } ≡ c')

iderw-FlagsOnly : (b : ℕ) (c c' : Cache) → iderw b c ≡ some c' → FlagsOnly c c'
unfolding iderw
iderw-FlagsOnly b c c' e = (update c.valid b true, update c.dirty b false, ground (arith, e))

bread-FlagsOnly : (b : ℕ) (c c' : Cache) → bread b c ≡ some c' → FlagsOnly c c'
unfolding bread
bread-FlagsOnly b c c' e = elim (Bool-cases (c.valid b)) [
  | inl cached ↦ (c.valid, c.dirty, ground (arith, e, cached))
  | inr stale ↦ iderw-FlagsOnly b c c' (ground (arith, e, stale))
]

bwrite-FlagsOnly : (b : ℕ) (c c' : Cache) → bwrite b c ≡ some c' → FlagsOnly c c'
unfolding bwrite
bwrite-FlagsOnly b c c' e = elim (Bool-cases (c.locked b)) [
  | inr free ↦ absurd (ground (arith, e, free))
  | inl held ↦
      let c₁ = record c { dirty = update c.dirty b true } in
      let (va, di, same) = iderw-FlagsOnly b c₁ c' (ground (arith, e, held)) in (va, di, same)
]

transfer-Coherent :
    (s : System) (c' : Cache)
    → FlagsOnly s.cache c'
    → Coherent s
    → Coherent (record s { cache = c' })
transfer-Coherent s c' (va, di, same) v =
    subst (λ (c : Cache). Coherent (record s { cache = c })) same (flags-Coherent s va di v)

locks-Coherent :
    (s : System) (c' : Cache) (us vs : List Use) (u : Use)
    → s.uses ≡ us ++ u ∷ vs
    → u.held ≡ false
    → acquiresleep u.buf s.cache ≡ some c'
    → Coherent s
    → Coherent (record { cache = c'; uses = us ++ record u { held = true } ∷ vs })
unfolding acquiresleep
locks-Coherent s c' us vs u at free e v =
    let c = s.cache in
    let u' = record u { held = true } in
    let opened : c.locked u.buf ≡ false = ground (arith, e) in
    let same : record c { locked = update c.locked u.buf true } ≡ c' = ground (arith, e, opened) in
    let (left, (own, right)) = Fits-split c us (u ∷ vs) (subst (Fits c) at v.fits) in
    subst (λ (x : Cache). Coherent (record { cache = x; uses = us ++ u' ∷ vs })) same
      (record {
        order = v.order;
        ring =
            Ring-same c (record c { locked = update c.locked u.buf true }) v.order refl refl v.ring;
        counted = λ x. omega (
          arith,
          v.counted x,
          ap (refs x) at,
          refs-append x us (u ∷ vs),
          refs-append x us (u' ∷ vs),
        );
        locked = λ x. ground (
          arith,
          opened,
          free,
          v.locked x,
          ap (holders x) at,
          holders-append x us (u ∷ vs),
          holders-append x us (u' ∷ vs),
        );
        fits = Fits-append c us (u' ∷ vs) left (own, right);
        unique = v.unique;
      })

-- What `brelse` does to the fields that are no links.
record Released (b : ℕ) (c c' : Cache) : Type 0 where
  was_locked : c.locked b ≡ true
  same_dev : c'.dev ≡ c.dev
  same_blockno : c'.blockno ≡ c.blockno
  less : c'.refcnt ≡ update c.refcnt b (c.refcnt b - 1)
  unlocked : c'.locked ≡ update c.locked b false

brelse-Released : (b : ℕ) (c c' : Cache) → brelse b c ≡ some c' → Released b c c'
unfolding brelse push_front unlink
brelse-Released b c c' e =
    let c₁ = record c {
      locked = update c.locked b false;
      refcnt = update c.refcnt b (c.refcnt b - 1);
    } in
    elim (Bool-cases (c.locked b)) [
      | inr free ↦ absurd (ground (arith, e, free))
      | inl held ↦ elim (Bool-cases (c₁.refcnt b == 0)) [
        | inr referenced ↦
            let same : c₁ ≡ c' = ground (arith, e, held, referenced) in
            subst (λ (x : Cache). Released b c x) same (plain held)
        | inl last ↦
            let same : push_front b (unlink b c₁) ≡ c' = ground (arith, e, held, last) in
            subst (λ (x : Cache). Released b c x) same (moved held)
      ]
    ]
  where
    plain :
        c.locked b ≡ true
        → Released b c (record c {
          locked = update c.locked b false;
          refcnt = update c.refcnt b (c.refcnt b - 1);
        })
    plain held = record {
      was_locked = held;
      same_dev = refl;
      same_blockno = refl;
      less = refl;
      unlocked = refl;
    }

    moved :
        c.locked b ≡ true
        → Released b c (
            push_front b (
              unlink b (record c {
                locked = update c.locked b false;
                refcnt = update c.refcnt b (c.refcnt b - 1);
              })))
    moved held = record {
      was_locked = held;
      same_dev = refl;
      same_blockno = refl;
      less = refl;
      unlocked = refl;
    }

Fits-same :
    (c c' : Cache) (us : List Use)
    → c'.dev ≡ c.dev
    → c'.blockno ≡ c.blockno
    → Fits c us
    → Fits c' us
Fits-same c c' [] e e' f = tt
Fits-same c c' (u ∷ us) e e' ((lt, d, n), f) = ((lt, rw e d, rw e' n), Fits-same c c' us e e' f)

releases-Coherent :
    (s : System) (c' : Cache) (us vs : List Use) (u : Use)
    → s.uses ≡ us ++ u ∷ vs
    → u.held ≡ true
    → brelse u.buf s.cache ≡ some c'
    → Coherent s
    → Coherent (record { cache = c'; uses = us ++ vs })
releases-Coherent s c' us vs u at held e v =
    let c = s.cache in
    let (left, ((lt, d, n), right)) = Fits-split c us (u ∷ vs) (subst (Fits c) at v.fits) in
    let (ys, ring) = brelse-Ring u.buf c c' v.order v.ring lt e in
    let w = brelse-Released u.buf c c' e in
    record {
      order = ys;
      ring = ring;
      counted = λ x. rw w.less (
          ground
            (arith, v.counted x, ap (refs x) at, refs-append x us (u ∷ vs), refs-append x us vs));
      locked = λ x. rw w.unlocked (
          ground (
            arith,
            held,
            w.was_locked,
            v.locked x,
            ap (holders x) at,
            holders-append x us (u ∷ vs),
            holders-append x us vs,
          ));
      fits = Fits-same c c' (us ++ vs) w.same_dev w.same_blockno (Fits-append c us vs left right);
      unique = λ i j hi hj. rw (w.same_dev, w.same_blockno) (v.unique i j hi hj);
    }

step-Coherent : {s t : System} → Step s t → Coherent s → Coherent t
step-Coherent {s} (gets {c'} b dev blockno e) v = gets-Coherent s c' b dev blockno e v
step-Coherent {s} (locks {c'} us vs u at free e) v = locks-Coherent s c' us vs u at free e v
step-Coherent {s} (reads {c'} us vs u at held e) v =
    transfer-Coherent s c' (bread-FlagsOnly u.buf s.cache c' e) v
step-Coherent {s} (writes {c'} us vs u at held e) v =
    transfer-Coherent s c' (bwrite-FlagsOnly u.buf s.cache c' e) v
step-Coherent {s} (marks us vs u at held) v =
    flags-Coherent s s.cache.valid (update s.cache.dirty u.buf true) v
step-Coherent {s} (releases {c'} us vs u at held e) v = releases-Coherent s c' us vs u at held e v

init_loop-same :
    (k b : ℕ) (c : Cache)
    → ((init_loop k b c).refcnt ≡ c.refcnt)
      × ((init_loop k b c).locked ≡ c.locked)
      × ((init_loop k b c).dev ≡ c.dev)
unfolding init_loop push_front
init_loop-same zero b c = (refl, refl, refl)
init_loop-same (suc k) b c = init_loop-same k (b + 1) (push_front b c)

zeroed-same :
    ((binit zeroed).refcnt ≡ zeroed.refcnt)
    × ((binit zeroed).locked ≡ zeroed.locked)
    × ((binit zeroed).dev ≡ zeroed.dev)
unfolding binit
zeroed-same =
    init_loop-same nbuf 0
      (record zeroed { next = update zeroed.next head head; prev = update zeroed.prev head head })

start-Coherent : Coherent start
start-Coherent = record {
  order = down nbuf;
  ring = binit-Ring zeroed;
  counted = λ b. rw zeroed-same.0 refl;
  locked = λ b. rw zeroed-same.1 refl;
  fits = tt;
  unique = λ i j hi hj ne d n. absurd (ne (rw zeroed-same.2 refl));
}

-- However the calls on a new cache are ordered, in every state that is reached: the list of the cache has
-- each buffer once; the reference count of a buffer is the number of its users; at most one of these has
-- its lock, and exactly one when it is locked; the buffer of each user is the one of the block that the
-- user asked for; and no two buffers are of the same block of a device that is not 0.
pub Reach-Coherent : {s : System} → Reach start s → Coherent s
Reach-Coherent here = start-Coherent
Reach-Coherent (later r st) = step-Coherent st (Reach-Coherent r)
