-- ===== src/Syscall/Tests.antt =====
-- The first process asks for its own data.
use Prim.{tt}
use ssuos_mminos.Base.{
  pos, ◌==◌, if◌then◌else◌, update, ℕ, ◌+◌, ◌≤◌, ◌<◌, ◌≡◌, refl, ◌≢◌, ◌↔◌, ◌⊎◌, true, false, some,
  arith,
}
use ssuos_mminos.Proc.{running, Table, allocproc}
use ssuos_mminos.Proc.Boot.{boot_table, userinit, here}
use ssuos_mminos.Proc.Valid.{IsValid}
use ssuos_mminos.Proc.Query.{get_proc_info}
use ssuos_mminos.Base.Loops.{find_below, find_from}
use ssuos_mminos.Syscall.{
  System, Environment, returns, failed, argint, argptr, argstr, fetchint, sys_get_proc_info,
}
use ssuos_mminos.Syscall.Dispatch.{syscall}
use ssuos_mminos.Syscall.Info.{FirstWith, info_of, sys_get_proc_info-filled}
use ssuos_mminos.Syscall.Pointers.{argstr_lem}
use ssuos_mminos.Syscall.Safe.{Safe}
use ssuos_mminos.Syscall.Booted.{Run-Safe}
use ssuos_mminos.Proc.Sizes.{Small, start, Run-Reach}
use ssuos_mminos.Proc.InitProc.{Reach-alive}
use ssuos_mminos.Syscall.Stores.{Holds}

abbrev one_process : Table
one_process = record {
  proc =
      update boot_table.proc 0
        (record (boot_table.proc 0) { sz = 4096; state = running; pid = 1; priority = 500 });
  nextpid = 2;
}

one_process-IsValid : IsValid one_process
one_process-IsValid = record {
  started = omega arith;
  fresh = λ i. ground arith;
  distinct = λ i j hi hj ne e. ground arith;
  alive = λ i live. ground arith;
}

-- pid 1 and the pointer 100 are on the stack, and "hi" is at 100.
abbrev caller : System
caller = record {
  table = one_process;
  esp = 4000;
  bytes = λ a.
      if a == 4004
      then 1
      else if a == 4008
      then 100
      else if a == 100
      then 104
      else if a == 101
      then 105
      else 0;
  ticks = 7;
}

abbrev machine : Environment
machine = record {
  initproc = 0;
  kstack = true;
  copied = true;
  missing_page = false;
  allocuvm = λ old new. new;
  deallocuvm = λ old new. new;
  file_call = λ n s. failed s;
}

argstr_example : (argstr 4096 4000 1 caller.bytes ≡ some (100, 2)) ↔ (
    (argint 4096 4000 1 caller.bytes ≡ some 100)
    × (100 + 2 < 4096)
    × (caller.bytes (100 + 2) ≡ 0)
    × ((j : ℕ) → j < 2 → caller.bytes (100 + j) ≢ 0))
argstr_example = argstr_lem 4096 4000 1 100 2 caller.bytes

abbrev answered : (s : System) × (sys_get_proc_info 0 caller ≡ returns 0 s)
unfolding sys_get_proc_info get_proc_info find_below find_from argint argptr fetchint
answered = (_, refl)

sys_get_proc_info_example :
    (p i : ℕ) × (argptr 4096 4000 1 (pos 16) caller.bytes ≡ some p)
    × (p + 16 ≤ 4096)
    × FirstWith 1 caller.table i
    × Holds p (info_of (caller.table.proc i)) answered.0.bytes
    × ((b : ℕ) → (b < p) ⊎ (p + 16 ≤ b) → answered.0.bytes b ≡ caller.bytes b)
    × (answered.0.table ≡ caller.table)
unfolding argint fetchint
sys_get_proc_info_example =
    sys_get_proc_info-filled 0 1 caller answered.0 (omega arith) refl answered.1 (λ j. ground arith)

abbrev booted : (i : ℕ) × (t : Table) × (userinit true true boot_table ≡ some (i, t))
unfolding userinit allocproc find_below find_from
booted = (_, _, refl)

-- The same call in the table after the boot.
abbrev first_call : System
first_call = record caller { table = booted.1 }

Run-Safe_example :
    Small first_call.table × Safe 0 0 false first_call (syscall machine 0 26 first_call)
unfolding booted Safe Run-Reach
Run-Safe_example =
    Run-Safe true true 0 booted.1 machine 0 26 first_call booted.2 start tt (omega arith)
      (omega arith, refl)
      (λ n. record {
        valid = (Reach-alive true true 0 booted.1 booted.1 booted.2 here tt).0;
        beyond = λ b far. refl;
      })
