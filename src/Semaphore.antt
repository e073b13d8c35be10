-- ===== src/Semaphore.antt =====
-- 설계 4/3/SSU_Sem.c: a semaphore with a queue of waiting threads. The mutex guards the fast path and
-- the append to the queue only, so each statement that touches the semaphore is a step of its own.
-- The queue entry of a thread is named by the thread; a pointer to one is its number or `none`. As
-- `s->key++` and `s->key--` are not atomic, the read and the write are two steps. A freed entry keeps
-- its `next`.
pub mod Invariant
pub mod Overrun
mod Tests
use ssuos_mminos.Base.{
  ℤ, pos, ◌==◌, if◌then◌else◌, is_none, update, ℕ, ◌+◌, ◌≡◌, Bool, true, false, Option, none, some,
  incr, decr, positive,
}

-- `struct SSU_Sem`, with the `next` fields of the entries and the thread that holds `lock`
pub record Sem : Type 0 where
  pub key : ℤ
  pub head : Option ℕ
  pub next : ℕ → Option ℕ
  pub mutex : Option ℕ
  pub wait_lock : Bool

-- Where a thread stands. In `append`, `tmp` is the pointer that walks along the queue.
pub data Pc : Type 0 where
  outside : Pc
  raising : (key : ℤ) → Pc  -- in `SSU_Sem_up`, which has read the key
  locked : Pc  -- before the test `s->key <= 0`
  fast : Pc  -- before `s->key--` of the fast path
  fast_write : (key : ℤ) → Pc  -- the key has been read
  unlocking : Pc  -- before the unlock of the fast path
  append : (tmp : Option ℕ) → Pc
  queued : Pc  -- before the unlock of the slow path
  spin : Pc  -- before the test `s->key > 0`
  check : Pc  -- before the test of `wait_lock` and `head`
  chosen : Pc  -- before `s->wait_lock = 1`
  taking : Pc  -- before `s->key--`
  taking_write : (key : ℤ) → Pc  -- the key has been read
  removing : Pc  -- before the head of the queue is removed
  ending : Pc  -- before `s->wait_lock = 0`

-- `SSU_Sem_init`
abbrev pub init : ℕ → Sem
init value = record {
  key = pos value;
  head = none;
  next = λ i. none;
  mutex = none;
  wait_lock = false;
}

abbrev pub is_front : Option ℕ → ℕ → Bool
is_front none i = false
is_front (some t) i = t == i

-- What a statement does: the semaphore and the thread after it, and what it adds to the numbers of
-- calls of `SSU_Sem_up`, of keys that have been taken, and of returns from `SSU_Sem_down`.
pub record Effect : Type 0 where
  pub sem : Sem
  pub pc : Pc
  pub raised : ℕ
  pub took : ℕ
  pub returns : ℕ

abbrev go : Sem → Pc → Option Effect
go s p = some (record { sem = s; pc = p; raised = 0; took = 0; returns = 0 })

-- the end of `SSU_Sem_down`
abbrev leave : Sem → Option Effect
leave s = some (record { sem = s; pc = outside; raised = 0; took = 0; returns = 1 })

-- `SSU_Sem_up`, when it has read the key
abbrev pub up : (key : ℤ) → Sem → Option Effect
up key s =
    some (record {
      sem = record s { key = incr key };
      pc = outside;
      raised = 1;
      took = 0;
      returns = 0;
    })

-- The write of `s->key--`
abbrev take_key : (key : ℤ) → Sem → Pc → Option Effect
take_key key s p =
    some (record { sem = record s { key = decr key }; pc = p; raised = 0; took = 1; returns = 0 })

-- The next step of thread `i` in `SSU_Sem_down`. `none` means that the thread waits for the
-- mutex, or reads through a null pointer as the queue has no head.
unfoldable pub down : (i : ℕ) → Sem → Pc → Option Effect
down i s (raising key) = none
down i s outside = if is_none s.mutex then go (record s { mutex = some i }) locked else none
down i s locked =
    if positive s.key
    then go s fast
    else go (record s { next = update s.next i none }) (append s.head)
down i s fast = go s (fast_write s.key)
down i s (fast_write key) = take_key key s unlocking
down i s unlocking = leave (record s { mutex = none })
down i s (append none) = go (record s { head = some i }) queued
down i s (append (some t)) =
    if is_none (s.next t)
    then go (record s { next = update s.next t (some i) }) queued
    else go s (append (s.next t))
down i s queued = go (record s { mutex = none }) spin
down i s spin = if positive s.key then go s check else go s spin
down i s check =
    if s.wait_lock
    then go s spin
    else if is_none s.head
    then none
    else if is_front s.head i
    then go s chosen
    else go s spin
down i s chosen = go (record s { wait_lock = true }) taking
down i s taking = go s (taking_write s.key)
down i s (taking_write key) = take_key key s removing
down i s removing = elim s.head [ none ↦ none | some t ↦ go (record s { head = s.next t }) ending ]
down i s ending = leave (record s { wait_lock = false })

-- A thread that is in no call may call `SSU_Sem_up`.
unfoldable pub act : (ups : Bool) → (i : ℕ) → Sem → Pc → Option Effect
unfolding down
act true i s outside = go s (raising s.key)
act _ i s (raising key) = up key s
act _ i s p = down i s p

-- The semaphore, its threads, the calls of `SSU_Sem_up` and the keys taken so far, and for each thread
-- the keys it has taken and the returns it has made.
pub record System : Type 0 where
  pub sem : Sem
  pub pc : ℕ → Pc
  pub ups : ℕ
  pub taken : ℕ
  pub took_by : ℕ → ℕ
  pub returns_of : ℕ → ℕ

abbrev pub after : System → ℕ → Effect → System
after s i r = record {
  sem = r.sem;
  pc = update s.pc i r.pc;
  ups = s.ups + r.raised;
  taken = s.taken + r.took;
  took_by = update s.took_by i (s.took_by i + r.took);
  returns_of = update s.returns_of i (s.returns_of i + r.returns);
}

pub data Step (s : System) : System → Type 0 where
  move :
      (i : ℕ) (ups : Bool) (r : Effect) → act ups i s.sem (s.pc i) ≡ some r → Step s (after s i r)

abbrev pub start : ℕ → System
start value = record {
  sem = init value;
  pc = λ i. outside;
  ups = 0;
  taken = 0;
  took_by = λ i. 0;
  returns_of = λ i. 0;
}

pub data Reach (s : System) : System → Type 0 where
  here : Reach s s
  later : {t u : System} → Reach s t → Step t u → Reach s u
