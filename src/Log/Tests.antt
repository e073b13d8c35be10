-- ===== src/Log/Tests.antt =====
-- The log of mkfs.c: 30 blocks behind the superblock. One call writes a block, and the power fails.
use ssuos_mminos.Base.{ℕ, ◌≡◌, refl, inr, some, [], ◌∷◌, arith}
use ssuos_mminos.Log.{
  Log, Machine, initlog, recover_from_log, read_head, write_head, install_trans, bwrite, begin_op,
  log_write, end_op, restart,
}
use ssuos_mminos.Base.Loops.{find_below}
use ssuos_mminos.Log.Replay.{Home, empty-Sound}
use ssuos_mminos.Log.Recover.{restarts}
use ssuos_mminos.Log.Runs.{System, Reach, here, later, begins, writes, booted}
use ssuos_mminos.Log.Atomic.{Reach-atomic}

abbrev blank_disk : ℕ → ℕ → ℕ
blank_disk b w = 0

-- Block 40 is full of 7.
abbrev one_write : (s : System) × Reach (booted 2 30 5 blank_disk) s
unfolding begin_op log_write initlog recover_from_log read_head write_head install_trans bwrite Home
one_write = (_, later (later here (begins _ refl)) (writes 40 (λ w. 7) _ (inr (omega arith)) refl))

-- The power fails behind the header, and in two recoveries.
abbrev ended :
    (l : Log) × (m : Machine) × (end_op one_write.0.log (record one_write.0.machine { power = 2 })
      ≡ some (l, m))
unfolding one_write end_op
ended = (_, _, refl)

Reach-atomic_example :
    (initlog 2 30 (restart 30 (restarts 2 30 (1 ∷ 0 ∷ []) ended.1.disk))).1.disk 40 ≡ (λ w. 7)
unfolding one_write begin_op log_write initlog recover_from_log read_head write_head install_trans
    bwrite Home find_below
Reach-atomic_example =
    Reach-atomic 2 30 5 blank_disk (empty-Sound 2 30 blank_disk refl (omega arith)) (omega arith)
      one_write.1 2 ended.0 ended.1 ended.2 (1 ∷ 0 ∷ []) 30 (omega arith) 40 (inr (omega arith))
