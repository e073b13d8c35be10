-- ===== src/Proc/Tests.antt =====
-- The theorems about the process table at a table of three processes.
use ssuos_mminos.Base.{
  ◌==◌, if◌then◌else◌, ℕ, ◌+◌, ◌≤◌, ◌≡◌, refl, true, false, Option, none, some, arith,
}
use ssuos_mminos.Base.Loops.{find_from, find_below}
use ssuos_mminos.Proc.{allocproc}
use ssuos_mminos.Proc.Sched.{dispatch}
use ssuos_mminos.Proc.Calls.{allocates, fills_fork, ends_fork, yields, dispatches}
use ssuos_mminos.Proc.Boot.{boot_table, userinit, Reach, here, calls}
use ssuos_mminos.Proc.InitProc.{Lives, Reach-alive}
use ssuos_mminos.Proc.Valid.{IsValid, Allowed}
use ssuos_mminos.Proc.Calls.{step}
use ssuos_mminos.Proc.Sched.{Ready, choose, choose-highest, highest}
use ssuos_mminos.Proc.Query.{get_num_proc, fork-counts}
use ssuos_mminos.Proc.Life.{wait-exit}
use ssuos_mminos.Proc.{
  ProcState, unused, sleeping, runnable, running, Chan, no_chan, proc_chan, Proc, Table, exit, wait,
  reaped, clear_slot, put, fork, yield,
}

abbrev process : (state : ProcState) (pid priority : ℕ) → Option ℕ → Chan → Proc
process s n prio par c = record {
  sz = 4096;
  has_kstack = true;
  state = s;
  pid = n;
  ppid = 0;
  parent = par;
  chan = c;
  killed = false;
  nswitch = 0;
  priority = prio;
}

-- init sleeps, its child runs, and two processes are ready
abbrev four : Table
four = record {
  proc = λ i.
      if i == 0
      then process sleeping 1 500 none (proc_chan 0)
      else if i == 1
      then process running 2 500 (some 0) no_chan
      else if i == 2
      then process runnable 3 400 (some 1) no_chan
      else if i == 3
      then process runnable 4 700 (some 1) no_chan
      else process unused 0 0 none no_chan;
  nextpid = 5;
}

four-IsValid : IsValid four
four-IsValid = record {
  started = omega arith;
  fresh = λ i. ground arith;
  distinct = λ i j hi hj ne e. ground arith;
  alive = λ i live. ground arith;
}

choose-highest_example : Ready four 3 × ((q : ℕ) → Ready four q → (four.proc q).priority ≤ 700)
unfolding choose highest find_below find_from
choose-highest_example = choose-highest four 0 3 refl

abbrev booted : (i : ℕ) × (t : Table) × (userinit true true boot_table ≡ some (i, t))
unfolding userinit allocproc find_below find_from
booted = (_, _, refl)

-- The first process is switched to, forks a child in three parts, and yields between two of them.
abbrev forked : (t : Table) × Reach booted.0 booted.1 t
unfolding booted Allowed step dispatch yield allocproc find_below find_from
forked = (
  _,
  calls 0 (ends_fork 1)
      (calls 0 (fills_fork 1)
        (calls 0 yields
          (calls 0 (allocates true) (calls 0 (dispatches 0) here (omega arith, refl))
            (omega arith, refl))
          (omega arith, refl))
        ((omega arith, refl), refl))
      ((omega arith, refl), refl),
)

Reach-alive_example : IsValid forked.0 × Lives booted.0 forked.0
unfolding forked
Reach-alive_example =
    Reach-alive true true booted.0 booted.1 forked.0 booted.2 forked.1 (omega arith)

wait-exit_example :
    (t' : Table) × (exit 0 1 four ≡ some t')
    × ((j : ℕ) × ((t'.proc j).parent ≡ some 0)
        × (wait 0 t' ≡ reaped (t'.proc j).pid (put t' j (clear_slot (t'.proc j)))))
wait-exit_example = wait-exit 0 1 0 four (omega arith) (omega arith) (omega arith) refl

-- no page for the kernel stack, and one more pid
fork-counts_example : get_num_proc (fork false true 1 four).1 ≡ get_num_proc four + 1
unfolding find_below find_from
fork-counts_example = fork-counts false true 1 4 four four-IsValid refl refl
