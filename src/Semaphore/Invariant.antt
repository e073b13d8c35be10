-- ===== src/Semaphore/Invariant.antt =====
-- What holds in every order of the steps: who has the mutex, who has a key, and that one thread at a time
-- removes the head of the queue.
use ssuos_mminos.Base.{if◌then◌else◌, ℕ, ◌+◌, ◌≡◌, Bool, true, false, ◌||◌, none, some}
use ssuos_mminos.Semaphore.{
  Pc, locked, fast, fast_write, unlocking, append, queued, chosen, taking, taking_write, removing,
  ending, System,
}

-- The thread holds the mutex.
abbrev pub has_mutex : Pc → Bool
has_mutex locked = true
has_mutex fast = true
has_mutex (fast_write key) = true
has_mutex unlocking = true
has_mutex (append tmp) = true
has_mutex queued = true
has_mutex _ = false

-- The thread has been chosen to leave the queue, and its entry is still the head.
abbrev pub at_front : Pc → Bool
at_front chosen = true
at_front taking = true
at_front (taking_write key) = true
at_front removing = true
at_front _ = false

-- The thread has set `wait_lock`.
abbrev pub has_wait_lock : Pc → Bool
has_wait_lock taking = true
has_wait_lock (taking_write key) = true
has_wait_lock removing = true
has_wait_lock ending = true
has_wait_lock _ = false

-- The thread is removing itself from the queue.
abbrev pub leaves : Pc → Bool
leaves p = at_front p || has_wait_lock p

-- The thread has taken a key in this call.
abbrev pub has_key : Pc → Bool
has_key unlocking = true
has_key removing = true
has_key ending = true
has_key _ = false

abbrev first_append : Pc → Bool
first_append (append none) = true
first_append _ = false

pub record Inv (value : ℕ) (s : System) : Type 0 where
  pub owed : (i : ℕ) → s.took_by i ≡ s.returns_of i + (if has_key (s.pc i) then 1 else 0)
  pub mutex : (i : ℕ) → has_mutex (s.pc i) ≡ true → s.sem.mutex ≡ some i
  pub front : (i : ℕ) → at_front (s.pc i) ≡ true → s.sem.head ≡ some i
  pub wait : (i : ℕ) → has_wait_lock (s.pc i) ≡ true → s.sem.wait_lock ≡ true
  pub one : (i j : ℕ) → leaves (s.pc i) ≡ true → leaves (s.pc j) ≡ true → i ≡ j
  pub empty : (i : ℕ) → first_append (s.pc i) ≡ true → s.sem.head ≡ none
