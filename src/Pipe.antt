-- ===== src/Pipe.antt =====
-- 설계 3번/xv6/pipe.c: a ring of 512 bytes with two counters of 32 bits. A call that goes to sleep gives
-- the lock away, so that what it does up to there is one step; `killed` is `myproc()->killed`.
pub mod Cells
pub mod Fifo
mod Tests
use ssuos_mminos.Base.{
  ◌==◌, if◌then◌else◌, update, ℕ, zero, suc, ◌+◌, ◌%◌, Bool, true, false, not, ◌&&◌, ◌||◌, Option,
  none, some, List, [], ◌∷◌,
}

abbrev pub pipe_size : ℕ
pipe_size = 512

-- the `++` of an `uint`
abbrev pub next : ℕ → ℕ
next i = (i + 1) % 4294967296

-- `struct pipe`, without the lock
pub record Pipe : Type 0 where
  pub data_of : ℕ → ℕ
  pub nread : ℕ
  pub nwrite : ℕ
  pub readopen : Bool
  pub writeopen : Bool

-- `pipealloc`, where `files` says whether there are two files and `page` is what kalloc gives; the
-- bytes of the page are what they were. `none` is -1.
abbrev pub pipealloc : (files : Bool) → (page : Option (ℕ → ℕ)) → Option Pipe
pipealloc files none = none
pipealloc files (some bytes) =
    if files
    then some (record { data_of = bytes; nread = 0; nwrite = 0; readopen = true; writeopen = true })
    else none

-- `pipeclose`, and whether it frees the pipe
abbrev pub pipeclose : (writable : Bool) → Pipe → Pipe × Bool
pipeclose writable p =
    let p' = if writable then record p { writeopen = false } else record p { readopen = false } in
    (p', not p'.readopen && not p'.writeopen)

-- What a step of `pipewrite` ends with: the return of `n`, of -1, or the sleep; the list is the bytes
-- that have not been written.
pub data Write : Type 0 where
  written : Pipe → Write
  write_fails : List ℕ → Pipe → Write
  write_sleeps : List ℕ → Pipe → Write

abbrev pub is_full : Pipe → Bool
is_full p = p.nwrite == (p.nread + pipe_size) % 4294967296

abbrev pub is_empty : Pipe → Bool
is_empty p = p.nread == p.nwrite

abbrev pub write_byte : ℕ → Pipe → Pipe
write_byte c p = record p {
  data_of = update p.data_of (p.nwrite % pipe_size) c;
  nwrite = next p.nwrite;
}

-- `pipewrite` from the start, or behind a sleep, with these bytes left
unfoldable pub pipewrite : (killed : Bool) → List ℕ → Pipe → Write
pipewrite killed [] p = written p
pipewrite killed (c ∷ bytes) p =
    let rest = pipewrite killed bytes (write_byte c p) in
    if is_full p
    then (if not p.readopen || killed
        then write_fails (c ∷ bytes) p
        else write_sleeps (c ∷ bytes) p)
    else rest

-- What a step of `piperead` ends with.
pub data Read : Type 0 where
  read : List ℕ → Pipe → Read
  read_fails : Pipe → Read
  read_sleeps : Pipe → Read

abbrev pub read_byte : Pipe → ℕ × Pipe
read_byte p = (p.data_of (p.nread % pipe_size), record p { nread = next p.nread })

-- The loop over the `n` bytes of the reader.
unfoldable pub read_loop : (n : ℕ) → Pipe → List ℕ × Pipe
read_loop zero p = ([], p)
read_loop (suc n) p =
    let (c, p') = read_byte p in
    let (bytes, p'') = read_loop n p' in if is_empty p then ([], p) else (c ∷ bytes, p'')

-- `piperead` from the start, or behind a sleep
unfoldable pub piperead : (killed : Bool) → (n : ℕ) → Pipe → Read
unfolding read_loop
piperead killed n p =
    if is_empty p && p.writeopen
    then (if killed then read_fails p else read_sleeps p)
    else (let (bytes, p') = read_loop n p in read bytes p')
