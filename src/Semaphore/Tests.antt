-- ===== src/Semaphore/Tests.antt =====
-- The theorems about the semaphore at small states.
use ssuos_mminos.Base.{
  minus_one, ◌==◌, if◌then◌else◌, ℕ, ◌≡◌, refl, true, false, Option, none, arith,
}
use ssuos_mminos.Semaphore.{
  Pc, outside, spin, removing, unlocking, System, Reach, here, later, move, start, act, down,
}
use ssuos_mminos.Semaphore.Overrun.{one_key, one_key-overrun}

-- A thread has raised the key, and another one holds the mutex.
abbrev raised_once : (s : System) × Reach (start 0) s
unfolding act down
raised_once =
    (_, later (later (later here (move 0 true _ refl)) (move 0 true _ refl)) (move 1 false _ refl))

-- thread 0 waits
abbrev thread_0_spins : ℕ → Pc
thread_0_spins i = if i == 0 then spin else outside

one_key-overrun_example :
    (t : System) × Reach (one_key 0 (λ i. none) thread_0_spins 1 0 (λ i. 0) (λ i. 0)) t
    × (t.sem.key ≡ minus_one)
    × (t.taken ≡ 2)
    × (t.ups ≡ 1)
    × (t.pc 0 ≡ removing)
    × (t.pc 1 ≡ unlocking)
one_key-overrun_example =
    one_key-overrun 0 1 (λ i. none) thread_0_spins 1 0 (λ i. 0) (λ i. 0) (omega arith) refl refl

later_all : {s t u : System} → Reach s t → Reach t u → Reach s u
later_all r here = r
later_all r (later r' st) = later (later_all r r') st

-- Thread 0 queues up and thread 2 raises the key: with no key at the start and one raise, two threads
-- take one.
waiting :
    (n : ℕ → Option ℕ) × (pc : ℕ → Pc) × (took_by : ℕ → ℕ) × (returns_of : ℕ → ℕ) × Reach
      (start 0)
      (one_key 0 n pc 1 0 took_by returns_of)
    × (pc 0 ≡ spin)
    × (pc 1 ≡ outside)
unfolding act down
waiting = (
  _,
  _,
  _,
  _,
  later
      (later
        (later
          (later (later (later here (move 0 false _ refl)) (move 0 false _ refl))
            (move 0 false _ refl))
          (move 0 false _ refl))
        (move 2 true _ refl))
      (move 2 true _ refl),
  refl,
  refl,
)

overrun_from_start :
    (t : System) × Reach (start 0) t × (t.sem.key ≡ minus_one) × (t.taken ≡ 2) × (t.ups ≡ 1)
overrun_from_start =
    let (n, pc, took_by, returns_of, reach, at_0, at_1) = waiting in
    let (t, more, key, taken, ups, _, _) =
      one_key-overrun 0 1 n pc 1 0 took_by returns_of (omega arith) at_0 at_1 in
    (t, later_all reach more, key, taken, ups)
