-- ===== src/Proc/Boot.antt =====
-- The boot of the process table by `userinit`, `growproc`, and the runs from there on.
use Prim.{Unit}
use ssuos_mminos.Base.{
  ℤ, pos, negsuc, minus_one, ltb, ◌==◌, if◌then◌else◌, ℕ, ◌+◌, ◌-◌, ◌%◌, ◌<◌, Bool, false, Option,
  none, some,
}
use ssuos_mminos.Proc.{unused, runnable, no_chan, Table, put, allocproc}
use ssuos_mminos.Proc.Calls.{Call, step}
use ssuos_mminos.Proc.Valid.{Alive, Allowed, max_int}

-- The table in the zeroed memory of the kernel, with `nextpid` as it is initialized.
abbrev pub boot_table : Table
boot_table = record {
  proc = λ i. record {
    sz = 0;
    has_kstack = false;
    state = unused;
    pid = 0;
    ppid = 0;
    parent = none;
    chan = no_chan;
    killed = false;
    nswitch = 0;
    priority = 0;
  };
  nextpid = 1;
}

-- `userinit`: `initproc` and the table. `none` is the panic when setupkvm gives no page table, or the
-- access through the null pointer when allocproc gives no process.
unfoldable pub userinit : (kstack pgdir : Bool) → Table → Option (ℕ × Table)
userinit kstack pgdir t =
    let (slot, t') = allocproc kstack t in
    elim slot [
      | none ↦ none
      | some i ↦
          if pgdir
          then some (i, put t' i (record (t'.proc i) { sz = 4096; state = runnable }))
          else none
    ]

-- The new size in `growproc`, if there is one; `allocuvm` and `deallocuvm` take the old size and the
-- one that is asked for, and give 0 when they fail.
abbrev granted : ℕ → Option ℕ
granted sz = if sz == 0 then none else some sz

unfoldable pub new_size : (allocuvm deallocuvm : ℕ → ℕ → ℕ) → (sz : ℕ) → ℤ → Option ℕ
new_size allocuvm deallocuvm sz (pos n) =
    if ltb 0 n then granted (allocuvm sz ((sz + n) % 4294967296)) else some sz
new_size allocuvm deallocuvm sz (negsuc n) =
    granted (deallocuvm sz ((sz + (4294967296 - (n + 1))) % 4294967296))

unfoldable pub growproc : (allocuvm deallocuvm : ℕ → ℕ → ℕ) → ℤ → (cur : ℕ) → Table → ℤ × Table
growproc allocuvm deallocuvm n cur t = elim (new_size allocuvm deallocuvm (t.proc cur).sz n) [
  | none ↦ (minus_one, t)
  | some sz ↦ (pos 0, put t cur (record (t.proc cur) { sz = sz }))
]

-- `exec`, for which `loaded` is the end of the segments of the program, at a page boundary: the process
-- gets the size of its new memory, with two pages more. A failure before leaves the table as it is.
unfoldable pub exec : (allocuvm : ℕ → ℕ → ℕ) → (loaded : ℕ) → (cur : ℕ) → Table → ℤ × Table
exec allocuvm loaded cur t =
    let sz = allocuvm loaded ((loaded + 8192) % 4294967296) in
    if sz == 0 then (minus_one, t) else (pos 0, put t cur (record (t.proc cur) { sz = sz }))

-- A run: calls of processes that are alive, in any order.
pub data Reach (initproc : ℕ) (t : Table) : Table → Type 0 where
  here : Reach initproc t t
  calls :
      {u : Table} (cur : ℕ) (c : Call)
      → Reach initproc t u
      → Allowed u cur c
      → Reach initproc t (step initproc cur c u)
  grows :
      {u : Table} (allocuvm deallocuvm : ℕ → ℕ → ℕ) (n : ℤ) (cur : ℕ)
      → Reach initproc t u
      → Alive u cur
      → Reach initproc t (growproc allocuvm deallocuvm n cur u).1
  execs :
      {u : Table} (allocuvm : ℕ → ℕ → ℕ) (loaded cur : ℕ)
      → Reach initproc t u
      → Alive u cur
      → Reach initproc t (exec allocuvm loaded cur u).1

-- At no call of the run is `nextpid` the greatest int.
abbrev pub InRange : {initproc : ℕ} {t u : Table} → Reach initproc t u → Type 0
InRange here = Unit {0}
InRange (calls {u} cur c r ok) = (u.nextpid < max_int) × InRange r
InRange (grows a d n cur r live) = InRange r
InRange (execs a loaded cur r live) = InRange r
