-- ===== src/Proc/Valid.antt =====
-- The invariant of the process table: pids are distinct and below `nextpid`, and a process that is
-- alive has one. Every system call and the scheduler keep it.
use Prim.{Unit}
use ssuos_mminos.Base.{
  pos, negsuc, minus_one, ◌==◌, if◌then◌else◌, Bool-cases, Option-cases, ℕ, zero, suc, ◌+◌, ◌%◌,
  ◌<◌, ◌≡◌, refl, ap, ◌∙◌, ◌≢◌, ◌⊎◌, inl, inr, Bool, true, false, not, ◌&&◌, Option, none, some,
  arith,
}
use ssuos_mminos.Base.Loops.{find_below, find_below-some}
use ssuos_mminos.Proc.Calls.{Call, after_wait, after_exit, step}
use ssuos_mminos.Proc.Sched.{Ready, dispatch, switched_back}
use ssuos_mminos.Proc.Calls.{
  forks, allocates, undoes_fork, fills_fork, ends_fork, exits, waits, kills, sleeps, wakes_up,
  yields, wakes, sets_prio, dispatches, switches_back,
}
use ssuos_mminos.Proc.{
  nproc, unused, embryo, zombie, Chan, proc_chan, Proc, Table, is_state, put, parent_is, clear_slot,
  allocproc, fork, wakeup1, reparent_one, wakeup, reparent, exit, reaped, no_children, asleep, wait,
  sleep, awake, yield, kill, set_prio, parent_chan,
}

-- The greatest int; `nextpid` cannot be increased from there.
abbrev pub max_int : ℕ
max_int = 2147483647

pub record IsValid (t : Table) : Type 0 where
  pub started : 0 < t.nextpid
  pub fresh : (i : ℕ) → (t.proc i).pid < t.nextpid
  pub distinct :
      (i j : ℕ)
      → i < nproc
      → j < nproc
      → (t.proc i).pid ≢ 0
      → (t.proc i).pid ≡ (t.proc j).pid
      → i ≡ j
  pub alive : (i : ℕ) → is_state (t.proc i).state unused ≡ false → (t.proc i).pid ≢ 0

-- What a change of the table may do to a slot without any effect on the invariant.
abbrev pub SameIds : Table → Table → Type 0
SameIds t t' =
    (t'.nextpid ≡ t.nextpid)
    × ((i : ℕ)
        → ((t'.proc i).pid ≡ (t.proc i).pid)
          × (is_state (t.proc i).state unused ≡ true → is_state (t'.proc i).state unused ≡ true))

pub SameIds-IsValid : (t t' : Table) → SameIds t t' → IsValid t → IsValid t'
SameIds-IsValid t t' (next, ids) v = record {
  started = omega (arith, v.started, next);
  fresh = λ i. ground (arith, ids i, v.fresh i, next);
  distinct =
      λ i j hi hj ne e. v.distinct i j hi hj (ground (arith, ids i)) (ground (arith, ids i, ids j));
  alive = λ i live. ground (arith, ids i, v.alive i);
}

SameIds-trans : (t t' t'' : Table) → SameIds t t' → SameIds t' t'' → SameIds t t''
SameIds-trans t t' t'' (n, f) (m, g) = (m ∙ n, λ i. ground (arith, f i, g i))

wakeup1-SameIds : (c : Chan) (t : Table) → SameIds t (wakeup1 c t)
unfolding wakeup1
wakeup1-SameIds c t = (refl, λ i. ground arith)

reparent_one-SameIds : (initproc cur i : ℕ) (t : Table) → SameIds t (reparent_one initproc cur i t)
unfolding reparent_one wakeup1
reparent_one-SameIds initproc cur i t = (ground arith, λ j. ground arith)

pub reparent-SameIds : (initproc cur n i : ℕ) (t : Table) → SameIds t (reparent initproc cur n i t)
unfolding reparent
reparent-SameIds initproc cur zero i t = (refl, λ j. (refl, λ u. u))
reparent-SameIds initproc cur (suc n) i t =
    let t' = reparent_one initproc cur i t in
    SameIds-trans t t' (reparent initproc cur n (i + 1) t') (reparent_one-SameIds initproc cur i t)
      (reparent-SameIds initproc cur n (i + 1) t')

-- `cur` is a process, in any state but UNUSED.
abbrev pub Alive : Table → ℕ → Type 0
Alive t i = (i < nproc) × (is_state (t.proc i).state unused ≡ false)

pub put-SameIds :
    (t : Table) (i : ℕ) (p : Proc)
    → p.pid ≡ (t.proc i).pid
    → is_state (t.proc i).state unused ≡ false
    → SameIds t (put t i p)
put-SameIds t i p e live = (refl, λ j. ground arith)

-- What a call that takes a pid does: slot `i` gets it, and no other slot changes its pid.
abbrev pub Numbered : Table → ℕ → Table → Type 0
Numbered t i t' =
    (t'.nextpid ≡ (t.nextpid + 1) % 4294967296)
    × ((j : ℕ)
        → ((t'.proc j).pid ≡ (if i == j then t.nextpid else (t.proc j).pid))
          × ((i == j) ≡ false
              → is_state (t.proc j).state unused ≡ true
              → is_state (t'.proc j).state unused ≡ true))

pub Numbered-IsValid :
    {t t' : Table} (i : ℕ) → t.nextpid < max_int → Numbered t i t' → IsValid t → IsValid t'
Numbered-IsValid {t} {t'} i lt (next', ids) v =
    let next : t'.nextpid ≡ t.nextpid + 1 = omega (arith, next', lt) in
    record {
      started = omega (arith, next);
      fresh = λ j. ground (arith, ids j, v.fresh j, next);
      distinct = λ a b ha hb ne e.
          ground (arith, ids a, ids b, v.fresh a, v.fresh b, v.distinct a b ha hb);
      alive = λ j live. ground (arith, ids j, v.alive j, v.started);
    }

abbrev NoSlot : Table → Type 0
NoSlot t = find_below (λ i. is_state (t.proc i).state unused) nproc ≡ none

abbrev pub Slot : Table → ℕ → Type 0
Slot t i = find_below (λ i. is_state (t.proc i).state unused) nproc ≡ some i

allocproc-full : (k : Bool) (t : Table) → NoSlot t → allocproc k t ≡ (none, t)
unfolding allocproc
allocproc-full k t e = rw (e, allocproc)

pub allocproc-Slot :
    (k : Bool) (t : Table) (i : ℕ)
    → Slot t i
    → Numbered t i (allocproc k t).1
      × ((allocproc k t).0 ≡ (if k then some i else none))
      × (is_state ((allocproc k t).1.proc i).state unused ≡ not k)
unfolding allocproc
allocproc-Slot k t i e = rw (e, allocproc) ((refl, λ j. ground arith), refl, ground arith)

fork-none :
    (k c : Bool) (cur : ℕ) (t : Table)
    → (allocproc k t).0 ≡ none
    → fork k c cur t ≡ (minus_one, (allocproc k t).1)
unfolding fork
fork-none k c cur t e = rw (e, fork)

fork-SameIds :
    (k c : Bool) (cur : ℕ) (t : Table) (i : ℕ)
    → (allocproc k t).0 ≡ some i
    → is_state ((allocproc k t).1.proc i).state unused ≡ false
    → SameIds (allocproc k t).1 (fork k c cur t).1
unfolding fork
fork-SameIds k true cur t i e live = rw (e, fork) (refl, λ j. ground arith)
fork-SameIds k false cur t i e live = rw (e, fork) (refl, λ j. ground arith)

Numbered-SameIds : (t t' t'' : Table) (i : ℕ) → Numbered t i t' → SameIds t' t'' → Numbered t i t''
Numbered-SameIds t t' t'' i (n, f) (m, g) = (m ∙ n, λ j. ground (arith, f j, g j))

-- A call of `fork` that finds a slot takes the next pid for it, whether it succeeds or not.
pub fork-Numbered :
    (k c : Bool) (cur : ℕ) (t : Table) (i : ℕ) → Slot t i → Numbered t i (fork k c cur t).1
fork-Numbered true c cur t i e =
    let (num, fst, st) = allocproc-Slot true t i e in
    Numbered-SameIds t (allocproc true t).1 (fork true c cur t).1 i num
      (fork-SameIds true c cur t i fst st)
fork-Numbered false c cur t i e =
    let (num, fst, st) = allocproc-Slot false t i e in rw (fork-none false c cur t fst) num

allocproc-IsValid :
    (k : Bool) {t : Table} → t.nextpid < max_int → IsValid t → IsValid (allocproc k t).1
allocproc-IsValid k {t} lt v =
    elim (Option-cases (find_below (λ i. is_state (t.proc i).state unused) nproc)) [
      | inl full ↦ rw (allocproc-full k t full) v
      | inr (i, e) ↦ Numbered-IsValid i lt (allocproc-Slot k t i e).0 v
    ]

fork-IsValid :
    (k c : Bool) (cur : ℕ) {t : Table}
    → t.nextpid < max_int
    → IsValid t
    → IsValid (fork k c cur t).1
fork-IsValid k c cur {t} lt v =
    elim (Option-cases (find_below (λ i. is_state (t.proc i).state unused) nproc)) [
      | inl full ↦
          let e = allocproc-full k t full in
          let e' : fork k c cur t ≡ (minus_one, t) =
            fork-none k c cur t (ap (λ x. x.0) e)
            ∙ ap (λ (x : Option ℕ × Table). (minus_one, x.1)) e in
          rw e' v
      | inr (i, e) ↦ Numbered-IsValid i lt (fork-Numbered k c cur t i e) v
    ]

-- A slot that is alive may be rewritten after changes that keep the pids.
put-after :
    (t t' : Table) (i : ℕ) (p : Proc)
    → SameIds t t'
    → p.pid ≡ (t'.proc i).pid
    → is_state (t.proc i).state unused ≡ false
    → SameIds t (put t' i p)
put-after t t' i p (n, f) e live = (n, λ j. ground (arith, f j, f i))

exit-SameIds :
    (initproc cur : ℕ) (t : Table) → Alive t cur → SameIds t (after_exit t (exit initproc cur t))
unfolding exit
exit-SameIds initproc cur t (lt, live) = elim (Bool-cases (cur == initproc)) [
  | inl init ↦ rw (init, exit) (refl, λ j. (refl, λ u. u))
  | inr other ↦
      let t₁ = wakeup1 (parent_chan (t.proc cur).parent) t in
      let t₂ = reparent initproc cur nproc 0 t₁ in
      let same : SameIds t t₂ =
        SameIds-trans t t₁ t₂ (wakeup1-SameIds (parent_chan (t.proc cur).parent) t)
          (reparent-SameIds initproc cur nproc 0 t₁) in
      rw (other, exit) (put-after t t₂ cur (record (t₂.proc cur) { state = zombie }) same refl live)
]

-- A reaped slot loses its pid.
clear_slot-IsValid : (i : ℕ) {t : Table} → IsValid t → IsValid (put t i (clear_slot (t.proc i)))
clear_slot-IsValid i {t} v = record {
  started = v.started;
  fresh = λ j. ground (arith, v.fresh j, v.started);
  distinct = λ a b ha hb ne e. ground (arith, v.distinct a b ha hb);
  alive = λ j. ground (arith, v.alive j);
}

parent_is-some : (o : Option ℕ) (cur : ℕ) → parent_is o cur ≡ true → o ≡ some cur
parent_is-some none cur e = ground arith
parent_is-some (some j) cur e = ap some (ground arith)

-- a child of `cur` that is a ZOMBIE
abbrev pub dead_child : Table → (cur i : ℕ) → Bool
dead_child t cur i = parent_is (t.proc i).parent cur && is_state (t.proc i).state zombie

pub wait-reaped :
    (cur i : ℕ) (t : Table)
    → find_below (dead_child t cur) nproc ≡ some i
    → (i < nproc)
      × ((t.proc i).parent ≡ some cur)
      × ((t.proc i).state ≡ zombie)
      × (wait cur t ≡ reaped (t.proc i).pid (put t i (clear_slot (t.proc i))))
unfolding wait
wait-reaped cur i t e =
    let (lt, on) = find_below-some (dead_child t cur) nproc i e in
    (lt, parent_is-some (t.proc i).parent cur (ground arith), ground arith, rw (e, wait))

-- `wait` reaps a child that is a ZOMBIE, returns -1 or sleeps on the process itself.
pub wait-cases :
    (cur : ℕ) (t : Table)
    → ((i : ℕ) × (i < nproc)
        × ((t.proc i).parent ≡ some cur)
        × ((t.proc i).state ≡ zombie)
        × (wait cur t ≡ reaped (t.proc i).pid (put t i (clear_slot (t.proc i)))))
      ⊎ (wait cur t ≡ no_children)
      ⊎ (wait cur t ≡ asleep (sleep (proc_chan cur) cur t))
unfolding wait
wait-cases cur t = elim (Option-cases (find_below (dead_child t cur) nproc)) [
  | inr (i, e) ↦ let (lt, par, dead, w) = wait-reaped cur i t e in inl (i, lt, par, dead, w)
  | inl none_z ↦ elim (Option-cases (find_below (λ i. parent_is (t.proc i).parent cur) nproc)) [
    | inl none_kid ↦ inr (inl (rw (none_z, wait, none_kid)))
    | inr (j, e) ↦ elim (Bool-cases (t.proc cur).killed) [
      | inl dead ↦ inr (inl (rw (none_z, wait, e, dead)))
      | inr living ↦ inr (inr (rw (none_z, wait, e, living)))
    ]
  ]
]

wait-IsValid : (cur : ℕ) {t : Table} → Alive t cur → IsValid t → IsValid (after_wait t (wait cur t))
unfolding sleep
wait-IsValid cur {t} (lt, live) v = elim (wait-cases cur t) [
  | inl (i, _, _, _, e) ↦ rw e (clear_slot-IsValid i v)
  | inr (inl e) ↦ rw e v
  | inr (inr e) ↦ rw e (SameIds-IsValid t _ (put-SameIds t cur _ refl live) v)
]

kill-SameIds : (pid : ℕ) (t : Table) → SameIds t (kill pid t).1
unfolding kill
kill-SameIds pid t = elim (Option-cases (find_below (λ i. (t.proc i).pid == pid) nproc)) [
  | inl none_has ↦ rw (none_has, kill) (refl, λ j. ground arith)
  | inr (i, e) ↦ rw (e, kill) (refl, λ j. ground arith)
]

-- What is guaranteed of a call: a later part of `fork` works on an EMBRYO, as its first part has given; the process that makes it is alive, and the process
-- that is switched to is RUNNABLE.
unfoldable pub Allowed : Table → (cur : ℕ) → Call → Type 0
Allowed t cur (dispatches hp) = Ready t hp
Allowed t cur (wakes c) = Unit
Allowed t cur (undoes_fork i) = Alive t cur × (is_state (t.proc i).state embryo ≡ true)
Allowed t cur (fills_fork i) = Alive t cur × (is_state (t.proc i).state embryo ≡ true)
Allowed t cur (ends_fork i) = Alive t cur × (is_state (t.proc i).state embryo ≡ true)
Allowed t cur _ = Alive t cur

-- Every call on the process table by a process that is alive, and every switch to a RUNNABLE process,
-- keeps pids distinct, below `nextpid`, and not 0 for a process that is alive, if `nextpid` is no greater
-- than an int can be after it.
pub step-IsValid :
    (initproc cur : ℕ) (c : Call) (t : Table)
    → t.nextpid < max_int
    → Allowed t cur c
    → IsValid t
    → IsValid (step initproc cur c t)
unfolding step Allowed sleep awake yield wakeup set_prio dispatch switched_back
step-IsValid initproc cur (forks k c) t lt ok v = fork-IsValid k c cur lt v
step-IsValid initproc cur (allocates k) t lt ok v = allocproc-IsValid k lt v
step-IsValid initproc cur (undoes_fork i) t lt (_, new) v =
    SameIds-IsValid t _ (put-SameIds t i _ refl (ground (arith, new))) v
step-IsValid initproc cur (fills_fork i) t lt (_, new) v =
    SameIds-IsValid t _ (put-SameIds t i _ refl (ground (arith, new))) v
step-IsValid initproc cur (ends_fork i) t lt (_, new) v =
    SameIds-IsValid t _ (put-SameIds t i _ refl (ground (arith, new))) v
step-IsValid initproc cur exits t lt ok v = SameIds-IsValid t _ (exit-SameIds initproc cur t ok) v
step-IsValid initproc cur waits t lt ok v = wait-IsValid cur ok v
step-IsValid initproc cur (kills pid) t lt ok v = SameIds-IsValid t _ (kill-SameIds pid t) v
step-IsValid initproc cur (sleeps c) t lt (_, live) v =
    SameIds-IsValid t _ (put-SameIds t cur _ refl live) v
step-IsValid initproc cur wakes_up t lt (_, live) v =
    SameIds-IsValid t _ (put-SameIds t cur _ refl live) v
step-IsValid initproc cur yields t lt (_, live) v =
    SameIds-IsValid t _ (put-SameIds t cur _ refl live) v
step-IsValid initproc cur (wakes c) t lt ok v = SameIds-IsValid t _ (wakeup1-SameIds c t) v
step-IsValid initproc cur (sets_prio (pos n)) t lt (_, live) v =
    SameIds-IsValid t _ (put-SameIds t cur _ refl live) v
step-IsValid initproc cur (sets_prio (negsuc n)) t lt ok v = v
step-IsValid initproc cur (dispatches hp) t lt (_, run) v =
    SameIds-IsValid t _ (put-SameIds t hp _ refl (ground arith)) v
step-IsValid initproc cur switches_back t lt (_, live) v =
    SameIds-IsValid t _ (put-SameIds t cur _ refl live) v
