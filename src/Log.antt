-- ===== src/Log.antt =====
-- 설계 3번/xv6/log.c: the log that makes the system calls of a transaction reach the disk together. A
-- block is the array of its 4-byte words. `power` counts the writes that the disk still carries out
-- before the power fails; a block is written as a whole or not at all. The cache holds every block:
-- log.c keeps those it has changed in it by B_DIRTY.
pub mod Patch
pub mod Copies
pub mod Replay
pub mod Finish
pub mod Recover
pub mod Commit
pub mod Absorb
pub mod Runs
pub mod Atomic
mod Tests
use ssuos_mminos.Base.{
  ltb, leb, ◌==◌, if◌then◌else◌, update, ℕ, zero, suc, ◌+◌, ◌-◌, ◌*◌, Bool, true, false, ◌||◌,
  Option, none, some,
}
use ssuos_mminos.Base.Loops.{find_below}

abbrev pub max_op_blocks : ℕ
max_op_blocks = 10

abbrev pub log_size : ℕ
log_size = 30

-- `struct logheader`
pub record LogHeader : Type 0 where
  pub n : ℕ
  pub block : ℕ → ℕ

-- `struct log`, without the lock and the device
pub record Log : Type 0 where
  pub start : ℕ
  pub size : ℕ
  pub outstanding : ℕ
  pub committing : Bool
  pub lh : LogHeader

-- The disk, and the data of the buffers.
pub record Machine : Type 0 where
  pub disk : ℕ → ℕ → ℕ
  pub data_of : ℕ → ℕ → ℕ
  pub power : ℕ

-- `for (i = 0; i < n; i++)`
abbrev pub loop {ℓ} : {A : Type ℓ} → ℕ → (ℕ → A → A) → A → A
loop zero body a = a
loop (suc i) body a = body i (loop i body a)

-- `bwrite` of the buffer of a block
unfoldable pub bwrite : ℕ → Machine → Machine
bwrite b m =
    if m.power == 0
    then m
    else record m { disk = update m.disk b (m.data_of b); power = m.power - 1 }

-- `memmove` between two buffers and `bwrite`
unfoldable pub copy : (to from : ℕ) → Machine → Machine
unfolding bwrite
copy to from m = bwrite to (record m { data_of = update m.data_of to (m.data_of from) })

unfoldable pub install_trans : Log → Machine → Machine
install_trans l m = loop l.lh.n (λ tail. copy (l.lh.block tail) (l.start + tail + 1)) m

unfoldable pub write_log : Log → Machine → Machine
write_log l m = loop l.lh.n (λ tail. copy (l.start + tail + 1) (l.lh.block tail)) m

-- The words of the header block: `n`, then `block`.
abbrev pub header_words : LogHeader → (ℕ → ℕ) → ℕ → ℕ
header_words lh old = loop lh.n (λ i w. update w (i + 1) (lh.block i)) (update old 0 lh.n)

unfoldable pub write_head : Log → Machine → Machine
unfolding bwrite
write_head l m =
    bwrite l.start
      (record m { data_of = update m.data_of l.start (header_words l.lh (m.data_of l.start)) })

abbrev pub header_of : (ℕ → ℕ) → (ℕ → ℕ) → LogHeader
header_of w old = record { n = w 0; block = loop (w 0) (λ i b. update b i (w (i + 1))) old }

unfoldable pub read_head : Log → Machine → Log
read_head l m = record l { lh = header_of (m.data_of l.start) l.lh.block }

abbrev pub cleared : Log → Log
cleared l = record l { lh = record l.lh { n = 0 } }

unfoldable pub recover_from_log : Log → Machine → Log × Machine
unfolding read_head install_trans write_head
recover_from_log l m =
    let l' = read_head l m in (cleared l', write_head (cleared l') (install_trans l' m))

-- `initlog`, where `start` and `size` stand in the superblock; `log` is zero before.
unfoldable pub initlog : (start size : ℕ) → Machine → Log × Machine
unfolding recover_from_log
initlog start size m =
    recover_from_log
      (record {
        start = start;
        size = size;
        outstanding = 0;
        committing = false;
        lh = record { n = 0; block = λ i. 0 };
      })
      m

-- One round of `begin_op`; `none` means that it sleeps.
unfoldable pub begin_op : Log → Option Log
begin_op l =
    if l.committing
    then none
    else if ltb log_size (l.lh.n + (l.outstanding + 1) * max_op_blocks)
    then none
    else some (record l { outstanding = l.outstanding + 1 })

unfoldable pub commit : Log → Machine → Log × Machine
unfolding write_log write_head install_trans
commit l m =
    if ltb 0 l.lh.n
    then (cleared l, write_head (cleared l) (install_trans l (write_head l (write_log l m))))
    else (l, m)

-- `end_op`; `none` is the panic. While `committing` is set, no call begins and none writes.
unfoldable pub end_op : Log → Machine → Option (Log × Machine)
unfolding commit
end_op l m =
    let l' = record l { outstanding = l.outstanding - 1 } in
    if l'.committing
    then none
    else if l'.outstanding == 0
    then (let (l'', m') = commit (record l' { committing = true }) m in
        some (record l'' { committing = false }, m'))
    else some (l', m)

abbrev pub place_of : LogHeader → ℕ → ℕ
place_of lh b = elim (find_below (λ i. lh.block i == b) lh.n) [ none ↦ lh.n | some i ↦ i ]

-- The header with the block in it; a block that it names already is not named again.
abbrev pub absorb : LogHeader → ℕ → LogHeader
absorb lh b =
    let i = place_of lh b in
    record { n = if i == lh.n then lh.n + 1 else lh.n; block = update lh.block i b }

-- `log_write` of the buffer of block `b`; `none` is a panic.
unfoldable pub log_write : ℕ → Log → Option Log
log_write b l =
    if leb log_size l.lh.n || leb (l.size - 1) l.lh.n
    then none
    else if ltb l.outstanding 1
    then none
    else some (record l { lh = absorb l.lh b })

-- The machine after a restart: the buffers are read from the disk again.
abbrev pub restart : (power : ℕ) → (ℕ → ℕ → ℕ) → Machine
restart power disk = record { disk = disk; data_of = disk; power = power }
