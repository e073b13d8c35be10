-- ===== src/Bio.antt =====
-- 설계 3번/xv6/bio.c: the cache of disk blocks, and the sleep lock of a buffer (sleeplock.c). A buffer is
-- its index in `bcache.buf`, and `bcache.head` is the index behind them. The bytes of a block are left
-- out, and a transfer by `iderw` is complete when it returns.
pub mod Ring
pub mod Order
pub mod Lru
pub mod Uses
pub mod Coherence
pub mod Release
mod Tests
use ssuos_mminos.Base.{
  ◌==◌, if◌then◌else◌, update, ℕ, zero, suc, ◌+◌, ◌-◌, Bool, true, false, not, ◌&&◌, ◌||◌, Option,
  none, some,
}

abbrev pub nbuf : ℕ
nbuf = 30

abbrev pub head : ℕ
head = nbuf

-- `bcache`, with a field of `struct buf` as a function; `valid` and `dirty` are the flags.
pub record Cache : Type 0 where
  pub dev : ℕ → ℕ
  pub blockno : ℕ → ℕ
  pub refcnt : ℕ → ℕ
  pub valid : ℕ → Bool
  pub dirty : ℕ → Bool
  pub locked : ℕ → Bool
  pub next : ℕ → ℕ
  pub prev : ℕ → ℕ

-- The zeroed memory of the kernel.
abbrev pub zeroed : Cache
zeroed = record {
  dev = λ b. 0;
  blockno = λ b. 0;
  refcnt = λ b. 0;
  valid = λ b. false;
  dirty = λ b. false;
  locked = λ b. false;
  next = λ b. 0;
  prev = λ b. 0;
}

-- `b` goes behind the head: the four assignments to links in `binit` and `brelse`.
unfoldable pub push_front : ℕ → Cache → Cache
push_front b c =
    let c₁ = record c { next = update c.next b (c.next head); prev = update c.prev b head } in
    let c₂ = record c₁ { prev = update c₁.prev (c₁.next head) b } in
    record c₂ { next = update c₂.next head b }

unfoldable pub init_loop : (rounds b : ℕ) → Cache → Cache
init_loop zero b c = c
init_loop (suc n) b c = init_loop n (b + 1) (push_front b c)

unfoldable pub binit : Cache → Cache
binit c =
    init_loop nbuf 0 (record c { next = update c.next head head; prev = update c.prev head head })

-- A loop of `bget` from `b` on, along `link`: the first buffer that passes, or `none` at the head. It has
-- fuel, and the outer `none` means that this ran out.
unfoldable pub walk : (fuel : ℕ) → (link : ℕ → ℕ) → (test : ℕ → Bool) → (b : ℕ) → Option (Option ℕ)
walk zero link test b = none
walk (suc fuel) link test b =
    let rest = walk fuel link test (link b) in
    if b == head then some none else if test b then some (some b) else rest

abbrev pub caches : Cache → (dev blockno b : ℕ) → Bool
caches c dev blockno b = (c.dev b == dev) && (c.blockno b == blockno)

abbrev pub unused : Cache → ℕ → Bool
unused c b = (c.refcnt b == 0) && not (c.dirty b)

abbrev pub hit : Cache → ℕ → Cache
hit c b = record c { refcnt = update c.refcnt b (c.refcnt b + 1) }

abbrev pub recycle : Cache → (dev blockno b : ℕ) → Cache
recycle c dev blockno b = record c {
  dev = update c.dev b dev;
  blockno = update c.blockno b blockno;
  valid = update c.valid b false;
  dirty = update c.dirty b false;
  refcnt = update c.refcnt b 1;
}

-- `bget` up to `acquiresleep`; `none` is the panic, or fuel that ran out.
unfoldable pub bget : (dev blockno : ℕ) → Cache → Option (ℕ × Cache)
bget dev blockno c = elim (walk (nbuf + 1) c.next (caches c dev blockno) (c.next head)) [
  | none ↦ none
  | some (some b) ↦ some (b, hit c b)
  | some none ↦ elim (walk (nbuf + 1) c.prev (unused c) (c.prev head)) [
    | none ↦ none
    | some none ↦ none
    | some (some b) ↦ some (b, recycle c dev blockno b)
  ]
]

-- `acquiresleep` of the lock of a buffer, when it returns; until then the lock is held by another.
unfoldable pub acquiresleep : ℕ → Cache → Option Cache
acquiresleep b c = if c.locked b then none else some (record c { locked = update c.locked b true })

-- The transfer between the buffer and the disk, which is there; it panics when there is nothing to do.
unfoldable pub iderw : ℕ → Cache → Option Cache
iderw b c =
    if not (c.locked b) || (c.valid b && not (c.dirty b))
    then none
    else some (record c { valid = update c.valid b true; dirty = update c.dirty b false })

-- The rest of `bread`, when `bget` has returned `b`.
unfoldable pub bread : ℕ → Cache → Option Cache
bread b c = if c.valid b then some c else iderw b c

unfoldable pub bwrite : ℕ → Cache → Option Cache
bwrite b c = if c.locked b then iderw b (record c { dirty = update c.dirty b true }) else none

-- `b` is taken out of the list.
unfoldable pub unlink : ℕ → Cache → Cache
unlink b c =
    let c₁ = record c { prev = update c.prev (c.next b) (c.prev b) } in
    record c₁ { next = update c₁.next (c₁.prev b) (c₁.next b) }

unfoldable pub brelse : ℕ → Cache → Option Cache
brelse b c =
    let c₁ = record c {
      locked = update c.locked b false;
      refcnt = update c.refcnt b (c.refcnt b - 1);
    } in
    if c.locked b then some (if c₁.refcnt b == 0 then push_front b (unlink b c₁) else c₁) else none
