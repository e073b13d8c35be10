-- ===== src/Proc.antt =====
-- 설계 3번/xv6/proc.c: the process table with the scheduler, the system calls and the priorities that
-- the project added. What runs under ptable.lock at a time is one step; `fork` has it for two parts only,
-- and its parts are steps too (Proc/Calls). A process is its
-- index in the table; memory, files and the context switch are arguments where they can fail, and
-- are left out otherwise.
pub mod Valid
pub mod Calls
pub mod Sched
pub mod Query
pub mod Life
pub mod Boot
pub mod InitProc
pub mod Sizes
mod Tests
use ssuos_mminos.Base.{
  ℤ, pos, negsuc, minus_one, ltb, ◌==◌, if◌then◌else◌, update, ℕ, zero, suc, ◌+◌, ◌%◌, Bool, true,
  false, ◌&&◌, Option, none, some,
}
use ssuos_mminos.Base.Loops.{find_below}

abbrev pub nproc : ℕ
nproc = 64

pub data ProcState : Type 0 where
  unused embryo sleeping runnable running zombie : ProcState

-- `void *chan`: no channel, the address of a process, or another kernel object
pub data Chan : Type 0 where
  no_chan : Chan
  proc_chan : ℕ → Chan
  object : ℕ → Chan

abbrev pub same_chan : Chan → Chan → Bool
same_chan no_chan no_chan = true
same_chan (proc_chan i) (proc_chan j) = i == j
same_chan (object a) (object b) = a == b
same_chan _ _ = false

-- `struct proc`, without the fields of the machine, the files and the name
pub record Proc : Type 0 where
  pub sz : ℕ
  pub has_kstack : Bool
  pub state : ProcState
  pub pid : ℕ
  pub ppid : ℕ
  pub parent : Option ℕ
  pub chan : Chan
  pub killed : Bool
  pub nswitch : ℕ
  pub priority : ℕ

-- `ptable.proc` and `nextpid`, an int as its word of 32 bits
pub record Table : Type 0 where
  pub proc : ℕ → Proc
  pub nextpid : ℕ

abbrev pub is_state : ProcState → ProcState → Bool
is_state unused unused = true
is_state embryo embryo = true
is_state sleeping sleeping = true
is_state runnable runnable = true
is_state running running = true
is_state zombie zombie = true
is_state _ _ = false

abbrev pub put : Table → ℕ → Proc → Table
put t i p = record t { proc = update t.proc i p }

-- `allocproc`, where `kstack` says whether kalloc gives a page. The slot keeps its pid when it does
-- not.
unfoldable pub allocproc : (kstack : Bool) → Table → Option ℕ × Table
allocproc kstack t = elim (find_below (λ i. is_state (t.proc i).state unused) nproc) [
  | none ↦ (none, t)
  | some i ↦
      let p = record (t.proc i) {
        state = if kstack then embryo else unused;
        pid = t.nextpid;
        ppid = 0;
        nswitch = 0;
        priority = 500;
        has_kstack = kstack;
      } in
      (
        if kstack then some i else none,
        record t { proc = update t.proc i p; nextpid = (t.nextpid + 1) % 4294967296 },
      )
]

-- The parts of `fork` behind `allocproc`, for the slot `i` that it gave: what is undone when copyuvm
-- gives no page table; the copy of the fields, without the lock; and the end, with the lock.
abbrev pub undo_fork : (i : ℕ) → Table → Table
undo_fork i t = put t i (record (t.proc i) { has_kstack = false; state = unused })

abbrev pub fill_fork : (cur i : ℕ) → Table → Table
fill_fork cur i t =
    put t i (record (t.proc i) { sz = (t.proc cur).sz; parent = some cur; ppid = (t.proc cur).pid })

abbrev pub end_fork : (i : ℕ) → Table → Table
end_fork i t = put t i (record (t.proc i) { state = runnable })

-- `fork` of process `cur` when no other process comes in between; `copied` says whether copyuvm, if it
-- returns, gives a page table.
pub fork : (kstack copied : Bool) → (cur : ℕ) → Table → ℤ × Table
unfolding allocproc
fork kstack copied cur t =
    let (slot, t') = allocproc kstack t in
    elim slot [
      | none ↦ (minus_one, t')
      | some i ↦
          if copied
          then (pos (t'.proc i).pid, end_fork i (fill_fork cur i t'))
          else (minus_one, undo_fork i t')
    ]

abbrev pub wake : Chan → Proc → Proc
wake c p =
    if is_state p.state sleeping && same_chan p.chan c then record p { state = runnable } else p

-- `wakeup1`, and `wakeup` with the lock
pub wakeup1 : Chan → Table → Table
wakeup1 c t = record t { proc = λ i. if ltb i nproc then wake c (t.proc i) else t.proc i }

pub wakeup : Chan → Table → Table
unfolding wakeup1
wakeup c t = wakeup1 c t

abbrev pub parent_is : Option ℕ → ℕ → Bool
parent_is none i = false
parent_is (some j) i = j == i

-- One round of the loop of `exit` that passes children to init, and the loop.
pub reparent_one : (initproc cur i : ℕ) → Table → Table
unfolding wakeup1
reparent_one initproc cur i t =
    let p = t.proc i in
    let t' = put t i (record p { parent = some initproc }) in
    if parent_is p.parent cur
    then if is_state p.state zombie then wakeup1 (proc_chan initproc) t' else t'
    else t

pub reparent : (initproc cur : ℕ) → (rounds i : ℕ) → Table → Table
reparent initproc cur zero i t = t
reparent initproc cur (suc n) i t = reparent initproc cur n (i + 1) (reparent_one initproc cur i t)

-- `wakeup1(curproc->parent)`; a null parent matches a process that sleeps on address 0.
abbrev pub parent_chan : Option ℕ → Chan
parent_chan none = no_chan
parent_chan (some i) = proc_chan i

-- `exit` of process `cur`, up to the switch to the scheduler; `none` is the panic "init exiting".
pub exit : (initproc cur : ℕ) → Table → Option Table
exit initproc cur t =
    if cur == initproc
    then none
    else let t₁ = wakeup1 (parent_chan (t.proc cur).parent) t in
      let t₂ = reparent initproc cur nproc 0 t₁ in
      some (put t₂ cur (record (t₂.proc cur) { state = zombie }))

-- What one round of the loop in `wait` does.
pub data Wait : Type 0 where
  reaped : (pid : ℕ) → Table → Wait
  no_children : Wait  -- return -1
  asleep : Table → Wait  -- sleep, and scan again when woken

-- a slot after its process has been reaped
abbrev pub clear_slot : Proc → Proc
clear_slot p = record p {
  has_kstack = false;
  pid = 0;
  parent = none;
  killed = false;
  state = unused;
}

-- `sleep` up to the switch to the scheduler
pub sleep : Chan → (cur : ℕ) → Table → Table
sleep c cur t = put t cur (record (t.proc cur) { chan = c; state = sleeping })

-- what `sleep` does when it has been woken
pub awake : (cur : ℕ) → Table → Table
awake cur t = put t cur (record (t.proc cur) { chan = no_chan })

pub wait : (cur : ℕ) → Table → Wait
unfolding sleep
wait cur t =
    let kid = λ (i : ℕ). parent_is (t.proc i).parent cur in
    elim (find_below (λ i. kid i && is_state (t.proc i).state zombie) nproc) [
      | some i ↦ reaped (t.proc i).pid (put t i (clear_slot (t.proc i)))
      | none ↦ elim (find_below kid nproc) [
        | none ↦ no_children
        | some j ↦ if (t.proc cur).killed then no_children else asleep (sleep (proc_chan cur) cur t)
      ]
    ]

-- `yield` up to the switch to the scheduler
pub yield : (cur : ℕ) → Table → Table
yield cur t = put t cur (record (t.proc cur) { state = runnable })

pub kill : (pid : ℕ) → Table → ℤ × Table
kill pid t = elim (find_below (λ i. (t.proc i).pid == pid) nproc) [
  | none ↦ (minus_one, t)
  | some i ↦
      let p = t.proc i in
      (
        pos 0,
        put t i (record p {
          killed = true;
          state = if is_state p.state sleeping then runnable else p.state;
        }),
      )
]

-- The added system calls on the priority of the running process; a negative priority is refused.
pub set_prio : ℤ → (cur : ℕ) → Table → ℤ × Table
set_prio (negsuc n) cur t = (minus_one, t)
set_prio (pos n) cur t = (pos 0, put t cur (record (t.proc cur) { priority = n }))

pub get_prio : (cur : ℕ) → Table → ℕ
get_prio cur t = (t.proc cur).priority
