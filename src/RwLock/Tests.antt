-- ===== src/RwLock/Tests.antt =====
-- The theorem about rw_lock-w-test.c at a small run.
use ssuos_mminos.Base.{ℕ, ◌<◌, ◌≡◌, refl, Bool, true, false, ◌||◌, some, arith}
use ssuos_mminos.RwLock.{r_asking, r_entering}
use ssuos_mminos.RwLock.Plain.{plain_lock}
use ssuos_mminos.RwLock.Count.{count}
use ssuos_mminos.RwLock.Holders.{reads, writes}
use ssuos_mminos.RwLock.WriterFirst.{
  Shared, System, Reach, start, act, here, later, move, Reach-exclusive, requests,
}

-- Thread 0 has the lock for writing, and thread 1 has asked for it.
abbrev one_writes : (s : System plain_lock) × Reach plain_lock 2 (start plain_lock) s
unfolding act
one_writes = (
  _,
  later
      (later
        (later (later here (move 0 false _ _ (omega arith) refl))
          (move 0 false _ _ (omega arith) refl))
        (move 0 false _ _ (omega arith) refl))
      (move 1 false _ _ (omega arith) refl),
)

Reach-exclusive_example :
    (one_writes.0.shared.w_request ≡ count (requests plain_lock) one_writes.0.pc 2)
    × ((b : Bool) (s' : Shared plain_lock)
        → act plain_lock b one_writes.0.shared r_asking ≡ some (s', r_entering)
        → count (requests plain_lock) one_writes.0.pc 2 ≡ 0)
    × ((i j : ℕ)
        → i < 2
        → j < 2
        → writes (one_writes.0.pc i) ≡ true
        → (reads (one_writes.0.pc j) || writes (one_writes.0.pc j)) ≡ true
        → i ≡ j)
unfolding one_writes
Reach-exclusive_example = Reach-exclusive plain_lock 2 one_writes.1
