-- ===== src/Proc/Sizes.antt =====
-- 설계 3번/xv6/vm.c: the sizes that `allocuvm` and `deallocuvm` return, and what follows for the processes.
-- The page tables are left out; `enough` says whether there are pages for them and for the memory.
use ssuos_mminos.Base.{
  ℤ, pos, negsuc, ltb, leb, ◌==◌, if◌then◌else◌, Bool-cases, Option-cases, ℕ, zero, suc, ◌+◌, ◌%◌,
  ◌≤◌, ◌<◌, ◌≡◌, inl, inr, Bool, some, arith,
}
use ssuos_mminos.Base.Loops.{find_below}
use ssuos_mminos.Proc.{
  unused, runnable, zombie, Chan, Proc, Table, is_state, put, parent_chan, clear_slot, nproc,
  allocproc, fork, wakeup1, wakeup, reparent_one, reparent, exit, wait, sleep, awake, yield, kill,
  set_prio,
}
use ssuos_mminos.Proc.Calls.{
  Call, forks, allocates, undoes_fork, fills_fork, ends_fork, exits, waits, kills, sleeps, wakes_up,
  yields, wakes, sets_prio, dispatches, switches_back, after_wait, after_exit, step,
}
use ssuos_mminos.Proc.Sched.{dispatch, switched_back}
use ssuos_mminos.Proc.Valid.{Alive, Allowed, wait-cases}
use ssuos_mminos.Proc.Boot.{boot_table, userinit, growproc, new_size, exec}
use mathlib.Core.Path.{subst}
use ssuos_mminos.Proc.Boot

-- KERNBASE
abbrev pub kernbase : ℕ
kernbase = 2147483648

unfoldable pub allocuvm : (enough : Bool) → (oldsz newsz : ℕ) → ℕ
allocuvm enough oldsz newsz =
    if leb kernbase newsz then 0 else if ltb newsz oldsz then oldsz else if enough then newsz else 0

unfoldable pub deallocuvm : (oldsz newsz : ℕ) → ℕ
deallocuvm oldsz newsz = if leb oldsz newsz then oldsz else newsz

-- Every process lies below the kernel.
abbrev pub Small : Table → Type 0
Small t = (i : ℕ) → (t.proc i).sz < kernbase

put-Small : (t : Table) (i : ℕ) (p : Proc) → p.sz < kernbase → Small t → Small (put t i p)
put-Small t i p lt v = λ j. ground (arith, v j, lt)

allocproc-Small : (k : Bool) (t : Table) → Small t → Small (allocproc k t).1
unfolding allocproc
allocproc-Small k t v =
    elim (Option-cases (find_below (λ i. is_state (t.proc i).state unused) nproc)) [
      | inl full ↦ rw (full, allocproc) v
      | inr (i, e) ↦ rw (e, allocproc) (λ j. ground (arith, v j, v i))
    ]

fork-Small : (k c : Bool) (cur : ℕ) (t : Table) → Small t → Small (fork k c cur t).1
unfolding fork
fork-Small k c cur t v =
    let w = allocproc-Small k t v in
    elim (Option-cases (allocproc k t).0) [
      | inl none_left ↦ rw (none_left, fork) w
      | inr (i, e) ↦ elim (Bool-cases c) [
        | inl copied ↦ rw (e, copied, fork) (λ j. ground (arith, w j, w cur))
        | inr failed ↦ rw (e, failed, fork) (λ j. ground (arith, w j, w i))
      ]
    ]

wakeup1-Small : (c : Chan) (t : Table) → Small t → Small (wakeup1 c t)
unfolding wakeup1
wakeup1-Small c t v = λ j. ground (arith, v j)

reparent-Small : (initproc cur n i : ℕ) (t : Table) → Small t → Small (reparent initproc cur n i t)
unfolding reparent reparent_one wakeup1
reparent-Small initproc cur zero i t v = v
reparent-Small initproc cur (suc n) i t v =
    reparent-Small initproc cur n (i + 1) (reparent_one initproc cur i t)
      (λ j. ground (arith, v j, v i))

exit-Small : (initproc cur : ℕ) (t : Table) → Small t → Small (after_exit t (exit initproc cur t))
unfolding exit
exit-Small initproc cur t v = elim (Bool-cases (cur == initproc)) [
  | inl init ↦ rw (init, exit) v
  | inr other ↦
      let t₁ = wakeup1 (parent_chan (t.proc cur).parent) t in
      let t₂ = reparent initproc cur nproc 0 t₁ in
      let w : Small t₂ =
        reparent-Small initproc cur nproc 0 t₁
          (wakeup1-Small (parent_chan (t.proc cur).parent) t v) in
      rw (other, exit) (put-Small t₂ cur (record (t₂.proc cur) { state = zombie }) (w cur) w)
]

wait-Small : (cur : ℕ) (t : Table) → Small t → Small (after_wait t (wait cur t))
unfolding sleep
wait-Small cur t v = elim (wait-cases cur t) [
  | inl (i, _, _, _, e) ↦ rw e (put-Small t i (clear_slot (t.proc i)) (v i) v)
  | inr (inl e) ↦ rw e v
  | inr (inr e) ↦ rw e (λ j. ground (arith, v j, v cur))
]

kill-Small : (pid : ℕ) (t : Table) → Small t → Small (kill pid t).1
unfolding kill
kill-Small pid t v = elim (Option-cases (find_below (λ i. (t.proc i).pid == pid) nproc)) [
  | inl none_has ↦ rw (none_has, kill) v
  | inr (i, e) ↦ rw (e, kill) (λ j. ground (arith, v j, v i))
]

step-Small : (initproc cur : ℕ) (c : Call) (t : Table) → Small t → Small (step initproc cur c t)
unfolding step sleep awake yield wakeup set_prio dispatch switched_back
step-Small initproc cur (forks k c) t v = fork-Small k c cur t v
step-Small initproc cur (allocates k) t v = allocproc-Small k t v
step-Small initproc cur (undoes_fork i) t v = λ j. ground (arith, v j, v i)
step-Small initproc cur (fills_fork i) t v = λ j. ground (arith, v j, v cur)
step-Small initproc cur (ends_fork i) t v = λ j. ground (arith, v j, v i)
step-Small initproc cur exits t v = exit-Small initproc cur t v
step-Small initproc cur waits t v = wait-Small cur t v
step-Small initproc cur (kills pid) t v = kill-Small pid t v
step-Small initproc cur (sleeps c) t v = λ j. ground (arith, v j, v cur)
step-Small initproc cur wakes_up t v = λ j. ground (arith, v j, v cur)
step-Small initproc cur yields t v = λ j. ground (arith, v j, v cur)
step-Small initproc cur (wakes c) t v = wakeup1-Small c t v
step-Small initproc cur (sets_prio (pos n)) t v = λ j. ground (arith, v j, v cur)
step-Small initproc cur (sets_prio (negsuc n)) t v = v
step-Small initproc cur (dispatches hp) t v = λ j. ground (arith, v j, v hp)
step-Small initproc cur switches_back t v = λ j. ground (arith, v j, v cur)

new_size-small :
    (enough : Bool) (sz sz' : ℕ) (n : ℤ)
    → sz < kernbase
    → new_size (allocuvm enough) deallocuvm sz n ≡ some sz'
    → sz' < kernbase
unfolding new_size allocuvm deallocuvm
new_size-small enough sz sz' (pos n) lt e = ground (arith, e, lt)
new_size-small enough sz sz' (negsuc n) lt e = ground (arith, e, lt)

growproc-Small :
    (enough : Bool) (n : ℤ) (cur : ℕ) (t : Table)
    → Small t
    → Small (growproc (allocuvm enough) deallocuvm n cur t).1
unfolding growproc
growproc-Small enough n cur t v =
    elim (Option-cases (new_size (allocuvm enough) deallocuvm (t.proc cur).sz n)) [
      | inl refused ↦ rw (refused, growproc) v
      | inr (sz, e) ↦
          rw (e, growproc)
            (put-Small t cur (record (t.proc cur) { sz = sz })
              (new_size-small enough (t.proc cur).sz sz n (v cur) e) v)
    ]

allocuvm-small :
    (enough : Bool) (old new : ℕ)
    → old ≤ kernbase
    → new ≡ old + 8192
    → allocuvm enough old new < kernbase
unfolding allocuvm
allocuvm-small enough old new le more = ground (arith, le, more)

exec-Small :
    (enough : Bool) (loaded cur : ℕ) (t : Table)
    → loaded ≤ kernbase
    → Small t
    → Small (exec (allocuvm enough) loaded cur t).1
unfolding exec
exec-Small enough loaded cur t le v =
    let more : (loaded + 8192) % 4294967296 ≡ loaded + 8192 = omega (arith, le) in
    let sz = allocuvm enough loaded ((loaded + 8192) % 4294967296) in
    let less : sz < kernbase = allocuvm-small enough loaded _ le more in
    elim (Bool-cases (sz == 0)) [
      | inl failed ↦ rw (failed, exec) v
      | inr new ↦ rw (new, exec) (put-Small t cur (record (t.proc cur) { sz = sz }) less v)
    ]

-- A run from `t`: calls of processes that are alive, in any order, with the memory of vm.c.
pub data Run (initproc : ℕ) (t : Table) : Table → Type 0 where
  start : Run initproc t t
  calls :
      {u : Table} (cur : ℕ) (c : Call)
      → Run initproc t u
      → Allowed u cur c
      → Run initproc t (step initproc cur c u)
  grows :
      {u : Table} (enough : Bool) (n : ℤ) (cur : ℕ)
      → Run initproc t u
      → Alive u cur
      → Run initproc t (growproc (allocuvm enough) deallocuvm n cur u).1
  execs :
      {u : Table} (enough : Bool) (loaded cur : ℕ)
      → Run initproc t u
      → loaded ≤ kernbase
      → Alive u cur
      → Run initproc t (exec (allocuvm enough) loaded cur u).1

unfoldable pub Run-Reach : (initproc : ℕ) {t u : Table} → Run initproc t u → Boot.Reach initproc t u
Run-Reach initproc start = Boot.here
Run-Reach initproc (calls cur c r ok) = Boot.calls cur c (Run-Reach initproc r) ok
Run-Reach initproc (grows enough n cur r live) =
    Boot.grows (allocuvm enough) deallocuvm n cur (Run-Reach initproc r) live
Run-Reach initproc (execs enough loaded cur r lt live) =
    Boot.execs (allocuvm enough) loaded cur (Run-Reach initproc r) live

Run-Small : (initproc : ℕ) {t u : Table} → Run initproc t u → Small t → Small u
Run-Small initproc start v = v
Run-Small initproc (calls {u} cur c r ok) v = step-Small initproc cur c u (Run-Small initproc r v)
Run-Small initproc (grows {u} enough n cur r live) v =
    growproc-Small enough n cur u (Run-Small initproc r v)
Run-Small initproc (execs {u} enough loaded cur r lt live) v =
    exec-Small enough loaded cur u lt (Run-Small initproc r v)

userinit-Small :
    (kstack pgdir : Bool) (i : ℕ) (t : Table)
    → userinit kstack pgdir boot_table ≡ some (i, t)
    → Small t
unfolding userinit
userinit-Small kstack pgdir i t e =
    let w = allocproc-Small kstack boot_table (λ j. omega arith) in
    elim (Option-cases (allocproc kstack boot_table).0) [
      | inl none_left ↦ absurd (ground (arith, e, none_left))
      | inr (j, found) ↦ elim (Bool-cases pgdir) [
        | inr no_page ↦ absurd (ground (arith, e, found, no_page))
        | inl page ↦
            let t' = (allocproc kstack boot_table).1 in
            let same : put t' j (record (t'.proc j) { sz = 4096; state = runnable }) ≡ t =
              ground (arith, e, found, page) in
            subst Small same
              (put-Small t' j (record (t'.proc j) { sz = 4096; state = runnable }) (omega arith) w)
      ]
    ]

-- From the boot on every process stays below 2 GB, where the kernel begins.
pub userinit_Run-Small :
    (kstack pgdir : Bool) (initproc : ℕ) (t u : Table)
    → userinit kstack pgdir boot_table ≡ some (initproc, t)
    → Run initproc t u
    → Small u
userinit_Run-Small kstack pgdir initproc t u e r =
    Run-Small initproc r (userinit-Small kstack pgdir initproc t e)
