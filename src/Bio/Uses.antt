-- ===== src/Bio/Uses.antt =====
-- Buffers in use: calls of `bget` and what follows them, in any order, by any number of threads.
use ssuos_mminos.Base.{
  ◌==◌, if◌then◌else◌, update, ℕ, ◌+◌, ◌≡◌, Bool, true, false, ◌&&◌, some, List, [], ◌∷◌, ◌++◌,
}
use ssuos_mminos.Bio.{Cache, zeroed, binit, bget, acquiresleep, bread, bwrite, brelse}

-- A reference that `bget` has given: the buffer, the block that was asked for, and whether
-- `acquiresleep` has returned.
pub record Use : Type 0 where
  pub buf : ℕ
  pub dev : ℕ
  pub blockno : ℕ
  pub held : Bool

pub record System : Type 0 where
  pub cache : Cache
  pub uses : List Use

abbrev pub refs : ℕ → List Use → ℕ
refs b [] = 0
refs b (u ∷ us) = (if u.buf == b then 1 else 0) + refs b us

abbrev pub holders : ℕ → List Use → ℕ
holders b [] = 0
holders b (u ∷ us) = (if u.held && (u.buf == b) then 1 else 0) + holders b us

-- `log_write` marks a buffer that it holds.
abbrev pub mark : ℕ → Cache → Cache
mark b c = record c { dirty = update c.dirty b true }

pub data Step (s : System) : System → Type 0 where
  gets :
      {c' : Cache} (b dev blockno : ℕ)
      → bget dev blockno s.cache ≡ some (b, c')
      → Step s (record {
        cache = c';
        uses = record { buf = b; dev = dev; blockno = blockno; held = false } ∷ s.uses;
      })
  locks :
      {c' : Cache} (us vs : List Use) (u : Use)
      → s.uses ≡ us ++ u ∷ vs
      → u.held ≡ false
      → acquiresleep u.buf s.cache ≡ some c'
      → Step s (record { cache = c'; uses = us ++ record u { held = true } ∷ vs })
  reads :
      {c' : Cache} (us vs : List Use) (u : Use)
      → s.uses ≡ us ++ u ∷ vs
      → u.held ≡ true
      → bread u.buf s.cache ≡ some c'
      → Step s (record s { cache = c' })
  writes :
      {c' : Cache} (us vs : List Use) (u : Use)
      → s.uses ≡ us ++ u ∷ vs
      → u.held ≡ true
      → bwrite u.buf s.cache ≡ some c'
      → Step s (record s { cache = c' })
  marks :
      (us vs : List Use) (u : Use)
      → s.uses ≡ us ++ u ∷ vs
      → u.held ≡ true
      → Step s (record s { cache = mark u.buf s.cache })
  releases :
      {c' : Cache} (us vs : List Use) (u : Use)
      → s.uses ≡ us ++ u ∷ vs
      → u.held ≡ true
      → brelse u.buf s.cache ≡ some c'
      → Step s (record { cache = c'; uses = us ++ vs })

pub data Reach (s : System) : System → Type 0 where
  here : Reach s s
  later : {t u : System} → Reach s t → Step t u → Reach s u

abbrev pub start : System
start = record { cache = binit zeroed; uses = [] }
