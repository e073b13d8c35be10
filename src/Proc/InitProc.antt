-- ===== src/Proc/InitProc.antt =====
-- The first process never ends: every call keeps it alive.
use ssuos_mminos.Base.{
  ℤ, pos, negsuc, ◌==◌, Bool-cases, Option-cases, ℕ, zero, suc, ◌+◌, ◌%◌, ◌≡◌, refl, ◌∙◌, ◌≢◌, inl,
  inr, Bool, true, false, Option, none, some, arith,
}
use mathlib.Core.Path.{subst}
use ssuos_mminos.Base.Loops.{find_from, find_below, find_below-some}
use ssuos_mminos.Proc.{
  nproc, unused, embryo, zombie, Chan, Proc, Table, is_state, put, clear_slot, parent_chan,
  allocproc, fill_fork, fork, wakeup1, wakeup, reparent_one, reparent, exit, sleep, awake, yield,
  kill, set_prio, wait,
}
use ssuos_mminos.Proc.Sched.{dispatch, switched_back}
use ssuos_mminos.Proc.Calls.{
  Call, forks, allocates, undoes_fork, fills_fork, ends_fork, exits, waits, kills, sleeps, wakes_up,
  yields, wakes, sets_prio, dispatches, switches_back, step, after_wait, after_exit,
}
use ssuos_mminos.Proc.Valid.{
  Alive, IsValid, step-IsValid, SameIds-IsValid, put-SameIds, wait-cases, Allowed,
}
use ssuos_mminos.Proc.Boot.{
  boot_table, userinit, new_size, growproc, exec, Reach, here, calls, grows, execs, InRange,
}

-- Process `i` is alive, has no parent and has not exited.
pub record Lives (i : ℕ) (t : Table) : Type 0 where
  pub no_parent : (t.proc i).parent ≡ none
  pub not_unused : is_state (t.proc i).state unused ≡ false
  pub not_zombie : is_state (t.proc i).state zombie ≡ false
  pub not_embryo : is_state (t.proc i).state embryo ≡ false

-- A change of another process, or one that keeps what `Lives` says.
put-Lives :
    (i j : ℕ) (p : Proc) (t : Table)
    → Lives i t
    → (i ≡ j
        → (p.parent ≡ none)
          × (is_state p.state unused ≡ false)
          × (is_state p.state zombie ≡ false)
          × (is_state p.state embryo ≡ false))
    → Lives i (put t j p)
put-Lives i j p t v same = record {
  no_parent = ground (arith, v.no_parent, same);
  not_unused = ground (arith, v.not_unused, same);
  not_zombie = ground (arith, v.not_zombie, same);
  not_embryo = ground (arith, v.not_embryo, same);
}

-- `allocproc` takes a slot that is UNUSED, so another one.
allocproc-Lives :
    (k : Bool) (i : ℕ) (t : Table)
    → Lives i t
    → Lives i (allocproc k t).1 × ((j : ℕ) → (allocproc k t).0 ≡ some j → i ≢ j)
unfolding allocproc
allocproc-Lives k i t v =
    elim (Option-cases (find_below (λ j. is_state (t.proc j).state unused) nproc)) [
      | inl full ↦ rw (full, allocproc) (v, λ j e. absurd (ground (arith, e)))
      | inr (j, found) ↦
          let (lt, free) = find_below-some (λ j. is_state (t.proc j).state unused) nproc j found in
          let other : i ≢ j = λ e. ground (arith, e, free, v.not_unused) in
          rw (found, allocproc)
            (
              record {
                no_parent = ground (arith, v.no_parent, other);
                not_unused = ground (arith, v.not_unused, other);
                not_zombie = ground (arith, v.not_zombie, other);
                not_embryo = ground (arith, v.not_embryo, other);
              },
              λ l e same. other (same ∙ ground (arith, e)),
            )
    ]

fork-Lives : (k c : Bool) (cur i : ℕ) (t : Table) → Lives i t → Lives i (fork k c cur t).1
unfolding fork
fork-Lives k c cur i t v =
    let (w, other) = allocproc-Lives k i t v in
    elim (Option-cases (allocproc k t).0) [
      | inl none_left ↦ rw (none_left, fork) w
      | inr (j, e) ↦ elim (Bool-cases c) [
        | inl copied ↦
            let filled = put-Lives i j _ (allocproc k t).1 w (λ same. absurd (other j e same)) in
            rw (e, fork, copied)
              (put-Lives i j _ (fill_fork cur j (allocproc k t).1) filled
                (λ same. absurd (other j e same)))
        | inr failed ↦
            rw (e, fork, failed)
              (put-Lives i j _ (allocproc k t).1 w (λ same. absurd (other j e same)))
      ]
    ]

wakeup1-Lives : (c : Chan) (i : ℕ) (t : Table) → Lives i t → Lives i (wakeup1 c t)
unfolding wakeup1
wakeup1-Lives c i t v = record {
  no_parent = ground (arith, v.no_parent);
  not_unused = ground (arith, v.not_unused);
  not_zombie = ground (arith, v.not_zombie);
  not_embryo = ground (arith, v.not_embryo);
}

reparent_one-Lives : (cur j i : ℕ) (t : Table) → Lives i t → Lives i (reparent_one i cur j t)
unfolding reparent_one wakeup1
reparent_one-Lives cur j i t v = record {
  no_parent = ground (arith, v.no_parent);
  not_unused = ground (arith, v.no_parent, v.not_unused);
  not_zombie = ground (arith, v.no_parent, v.not_zombie);
  not_embryo = ground (arith, v.no_parent, v.not_embryo);
}

reparent-Lives : (cur n j i : ℕ) (t : Table) → Lives i t → Lives i (reparent i cur n j t)
unfolding reparent
reparent-Lives cur zero j i t v = v
reparent-Lives cur (suc n) j i t v =
    reparent-Lives cur n (j + 1) i (reparent_one i cur j t) (reparent_one-Lives cur j i t v)

exit-Lives : (cur i : ℕ) (t : Table) → Lives i t → Lives i (after_exit t (exit i cur t))
unfolding exit
exit-Lives cur i t v = elim (Bool-cases (cur == i)) [
  | inl init ↦ rw (init, exit) v
  | inr other ↦
      let t₁ = wakeup1 (parent_chan (t.proc cur).parent) t in
      let t₂ = reparent i cur nproc 0 t₁ in
      let w =
        reparent-Lives cur nproc 0 i t₁ (wakeup1-Lives (parent_chan (t.proc cur).parent) i t v) in
      rw (other, exit)
        (put-Lives i cur (record (t₂.proc cur) { state = zombie }) t₂ w
          (λ e. absurd (ground (arith, e, other))))
]

wait-Lives : (cur i : ℕ) (t : Table) → Lives i t → Lives i (after_wait t (wait cur t))
unfolding sleep
wait-Lives cur i t v = elim (wait-cases cur t) [
  | inl (j, _, par, dead, e) ↦ rw e (
      put-Lives i j (clear_slot (t.proc j)) t v
        (λ same. absurd (ground (arith, same, par, v.no_parent))))
  | inr (inl e) ↦ rw e v
  | inr (inr e) ↦
      rw e (put-Lives i cur _ t v (λ same. (ground (arith, same, v.no_parent), refl, refl, refl)))
]

kill-Lives : (pid i : ℕ) (t : Table) → Lives i t → Lives i (kill pid t).1
unfolding kill
kill-Lives pid i t v = elim (Option-cases (find_below (λ j. (t.proc j).pid == pid) nproc)) [
  | inl none_has ↦ rw (none_has, kill) v
  | inr (j, e) ↦
      rw (e, kill)
        (record {
          no_parent = ground (arith, v.no_parent);
          not_unused = ground (arith, v.not_unused);
          not_zombie = ground (arith, v.not_zombie);
          not_embryo = ground (arith, v.not_embryo);
        })
]

step-Lives :
    (cur i : ℕ) (c : Call) (t : Table) → Allowed t cur c → Lives i t → Lives i (step i cur c t)
unfolding step Allowed sleep awake yield wakeup set_prio dispatch switched_back
step-Lives cur i (forks k c) t ok v = fork-Lives k c cur i t v
step-Lives cur i (allocates k) t ok v = (allocproc-Lives k i t v).0
step-Lives cur i (undoes_fork j) t (_, new) v =
    put-Lives i j _ t v (λ same. absurd (ground (arith, same, new, v.not_embryo)))
step-Lives cur i (fills_fork j) t (_, new) v =
    put-Lives i j _ t v (λ same. absurd (ground (arith, same, new, v.not_embryo)))
step-Lives cur i (ends_fork j) t (_, new) v =
    put-Lives i j _ t v (λ same. absurd (ground (arith, same, new, v.not_embryo)))
step-Lives cur i exits t ok v = exit-Lives cur i t v
step-Lives cur i waits t ok v = wait-Lives cur i t v
step-Lives cur i (kills pid) t ok v = kill-Lives pid i t v
step-Lives cur i (sleeps c) t ok v =
    put-Lives i cur _ t v (λ same. (ground (arith, same, v.no_parent), refl, refl, refl))
step-Lives cur i wakes_up t ok v = put-Lives i cur _ t v (λ same. (
  ground (arith, same, v.no_parent),
  ground (arith, same, v.not_unused),
  ground (arith, same, v.not_zombie),
  ground (arith, same, v.not_embryo),
))
step-Lives cur i yields t ok v =
    put-Lives i cur _ t v (λ same. (ground (arith, same, v.no_parent), refl, refl, refl))
step-Lives cur i (wakes c) t ok v = wakeup1-Lives c i t v
step-Lives cur i (sets_prio (pos n)) t ok v = put-Lives i cur _ t v (λ same. (
  ground (arith, same, v.no_parent),
  ground (arith, same, v.not_unused),
  ground (arith, same, v.not_zombie),
  ground (arith, same, v.not_embryo),
))
step-Lives cur i (sets_prio (negsuc n)) t ok v = v
step-Lives cur i (dispatches hp) t ok v =
    put-Lives i hp _ t v (λ same. (ground (arith, same, v.no_parent), refl, refl, refl))
step-Lives cur i switches_back t ok v = put-Lives i cur _ t v (λ same. (
  ground (arith, same, v.no_parent),
  ground (arith, same, v.not_unused),
  ground (arith, same, v.not_zombie),
  ground (arith, same, v.not_embryo),
))

growproc-keeps :
    (a d : ℕ → ℕ → ℕ) (n : ℤ) (cur i : ℕ) (t : Table)
    → Alive t cur
    → IsValid t × Lives i t
    → IsValid (growproc a d n cur t).1 × Lives i (growproc a d n cur t).1
unfolding growproc
growproc-keeps a d n cur i t (lt, live) (valid, v) =
    elim (Option-cases (new_size a d (t.proc cur).sz n)) [
      | inl refused ↦ rw (refused, growproc) (valid, v)
      | inr (sz, granted) ↦
          let p = record (t.proc cur) { sz = sz } in
          rw (granted, growproc)
            (
              SameIds-IsValid t (put t cur p) (put-SameIds t cur p refl live) valid,
              put-Lives i cur p t v (λ same. (
                ground (arith, same, v.no_parent),
                ground (arith, same, v.not_unused),
                ground (arith, same, v.not_zombie),
                ground (arith, same, v.not_embryo),
              )),
            )
    ]

exec-keeps :
    (a : ℕ → ℕ → ℕ) (loaded cur i : ℕ) (t : Table)
    → Alive t cur
    → IsValid t × Lives i t
    → IsValid (exec a loaded cur t).1 × Lives i (exec a loaded cur t).1
unfolding exec
exec-keeps a loaded cur i t (lt, live) (valid, v) =
    let sz = a loaded ((loaded + 8192) % 4294967296) in
    let p = record (t.proc cur) { sz = sz } in
    elim (Bool-cases (sz == 0)) [
      | inl failed ↦ rw (failed, exec) (valid, v)
      | inr new ↦
          rw (new, exec)
            (
              SameIds-IsValid t (put t cur p) (put-SameIds t cur p refl live) valid,
              put-Lives i cur p t v (λ same. (
                ground (arith, same, v.no_parent),
                ground (arith, same, v.not_unused),
                ground (arith, same, v.not_zombie),
                ground (arith, same, v.not_embryo),
              )),
            )
    ]

userinit-starts :
    (kstack pgdir : Bool) (i : ℕ) (t : Table)
    → userinit kstack pgdir boot_table ≡ some (i, t)
    → IsValid t × Lives i t
unfolding userinit allocproc find_below find_from
userinit-starts false pgdir i t e = absurd (ground (arith, e))
userinit-starts true false i t e = absurd (ground (arith, e))
userinit-starts true true i t e =
    let at : ◌≡◌ {A = ℕ × Table} (0, _) (i, t) = some-path e in
    subst (λ x. IsValid x.1 × Lives x.0 x.1) at
      (
        record {
          started = omega arith;
          fresh = λ j. ground arith;
          distinct = λ a b ha hb ne same. ground (arith, ne, same);
          alive = λ j live. ground (arith, live);
        },
        record { no_parent = refl; not_unused = refl; not_zombie = refl; not_embryo = refl },
      )
  where
    some-path : {x y : ℕ × Table} → ◌≡◌ {A = Option (ℕ × Table)} (some x) (some y) → x ≡ y
    some-path eq = cc

-- From the boot on, in every run of calls by processes that are alive, with the parts of `fork` in any
-- order with other calls, at none of which `nextpid` is the greatest int: pids are distinct, below
-- `nextpid`, and not 0 for a process that is alive; and the first process is never an EMBRYO, a ZOMBIE
-- or UNUSED and never gets a parent.
pub Reach-alive :
    (kstack pgdir : Bool) (initproc : ℕ) (t t' : Table)
    → userinit kstack pgdir boot_table ≡ some (initproc, t)
    → (r : Reach initproc t t') → InRange r
    → IsValid t' × Lives initproc t'
Reach-alive kstack pgdir initproc t t' e here range = userinit-starts kstack pgdir initproc t e
Reach-alive kstack pgdir initproc t t' e (calls {u} cur c r ok) (lt, range) =
    let (valid, v) = Reach-alive kstack pgdir initproc t u e r range in
    (step-IsValid initproc cur c u lt ok valid, step-Lives cur initproc c u ok v)
Reach-alive kstack pgdir initproc t t' e (grows {u} a d n cur r live) range =
    growproc-keeps a d n cur initproc u live (Reach-alive kstack pgdir initproc t u e r range)
Reach-alive kstack pgdir initproc t t' e (execs {u} a loaded cur r live) range =
    exec-keeps a loaded cur initproc u live (Reach-alive kstack pgdir initproc t u e r range)
