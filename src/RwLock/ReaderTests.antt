-- ===== src/RwLock/ReaderTests.antt =====
-- The theorem about rw_lock-r-test.c at a small run.
use ssuos_mminos.Base.{ℕ, ◌<◌, ◌≡◌, refl, true, false, ◌||◌, arith}
use ssuos_mminos.RwLock.Plain.{plain_lock}
use ssuos_mminos.RwLock.Holders.{reads, writes}
use ssuos_mminos.RwLock.ReaderFirst.{
  System, Reach, start, act, here, later, move, Reach-reader_first, beyond,
}

-- Thread 1 has called `w_lock` and spins; thread 0 has called `r_lock` and has the lock.
abbrev one_reads : (s : System plain_lock) × Reach plain_lock 2 (start plain_lock) s
unfolding act
one_reads = (
  _,
  later
      (later
        (later
          (later (later here (move 1 false _ _ (omega arith) refl))
            (move 1 false _ _ (omega arith) refl))
          (move 0 true _ _ (omega arith) refl))
        (move 0 true _ _ (omega arith) refl))
      (move 0 true _ _ (omega arith) refl),
)

Reach-reader_first_example :
    (one_reads.0.shared.r_flag ≡ 0 → (i : ℕ) → i < 2 → beyond plain_lock (one_reads.0.pc i) ≡ false)
    × ((i j : ℕ)
        → i < 2
        → j < 2
        → writes (one_reads.0.pc i) ≡ true
        → (reads (one_reads.0.pc j) || writes (one_reads.0.pc j)) ≡ true
        → i ≡ j)
unfolding one_reads
Reach-reader_first_example = Reach-reader_first plain_lock 2 one_reads.1
