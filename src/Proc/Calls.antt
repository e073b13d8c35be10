-- ===== src/Proc/Calls.antt =====
-- A step of the system: the running process makes a call, or the scheduler switches.
use ssuos_mminos.Base.{ℤ, ℕ, Bool, Option, none, some}
use ssuos_mminos.Proc.{
  Chan, Table, allocproc, undo_fork, fill_fork, end_fork, fork, exit, Wait, reaped, no_children,
  asleep, wait, kill, sleep, awake, yield, wakeup, set_prio,
}
use ssuos_mminos.Proc.Sched.{dispatch, switched_back}

-- `forks` is a call of `fork` with no other process in between; its parts may also come one by one.
pub data Call : Type 0 where
  forks : (kstack copied : Bool) → Call
  allocates : (kstack : Bool) → Call
  undoes_fork : (i : ℕ) → Call
  fills_fork : (i : ℕ) → Call
  ends_fork : (i : ℕ) → Call
  exits : Call
  waits : Call
  kills : (pid : ℕ) → Call
  sleeps : Chan → Call
  wakes_up : Call
  yields : Call
  wakes : Chan → Call
  sets_prio : ℤ → Call
  dispatches : (hp : ℕ) → Call
  switches_back : Call

abbrev pub after_wait : Table → Wait → Table
after_wait t (reaped pid t') = t'
after_wait t no_children = t
after_wait t (asleep t') = t'

-- A panic leaves the table as it is.
abbrev pub after_exit : Table → Option Table → Table
after_exit t none = t
after_exit t (some t') = t'

-- The table after a call of process `cur`.
unfoldable pub step : (initproc cur : ℕ) → Call → Table → Table
step initproc cur (forks k c) t = (fork k c cur t).1
step initproc cur (allocates k) t = (allocproc k t).1
step initproc cur (undoes_fork i) t = undo_fork i t
step initproc cur (fills_fork i) t = fill_fork cur i t
step initproc cur (ends_fork i) t = end_fork i t
step initproc cur exits t = after_exit t (exit initproc cur t)
step initproc cur waits t = after_wait t (wait cur t)
step initproc cur (kills pid) t = (kill pid t).1
step initproc cur (sleeps c) t = sleep c cur t
step initproc cur wakes_up t = awake cur t
step initproc cur yields t = yield cur t
step initproc cur (wakes c) t = wakeup c t
step initproc cur (sets_prio n) t = (set_prio n cur t).1
step initproc cur (dispatches hp) t = dispatch hp t
step initproc cur switches_back t = switched_back cur t
