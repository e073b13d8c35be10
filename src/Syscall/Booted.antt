-- ===== src/Syscall/Booted.antt =====
-- System calls in the states that a booted system reaches.
use ssuos_mminos.Base.{ℕ, ◌<◌, ◌≡◌, Bool, some, arith}
use ssuos_mminos.Proc.{Table}
use ssuos_mminos.Proc.Valid.{Alive, max_int}
use ssuos_mminos.Proc.Boot.{boot_table, userinit, InRange}
use ssuos_mminos.Proc.InitProc.{Reach-alive}
use ssuos_mminos.Proc.Sizes.{Small, Run, Run-Reach, userinit_Run-Small}
use ssuos_mminos.Syscall.{System, Environment}
use ssuos_mminos.Syscall.Dispatch.{syscall}
use ssuos_mminos.Syscall.Safe.{Safe, syscall-Safe}

-- From the boot on, in every run of calls by processes that are alive, with `growproc` and `exec`, at none of
-- which `nextpid` is the greatest int: every process stays below 2 GB, and whatever the number in eax and the
-- arguments on the stack, a system call of a process that is alive keeps the process table valid, changes no
-- byte from the end of the process on, and panics only when init exits or when copyuvm misses a page of the
-- process, provided that the calls on files do so.
pub Run-Safe :
    (kstack pgdir : Bool) (initproc : ℕ) (t : Table) (env : Environment) (cur eax : ℕ) (s : System)
    → userinit kstack pgdir boot_table ≡ some (initproc, t)
    → (r : Run initproc t s.table) → InRange (Run-Reach initproc r)
    → s.table.nextpid < max_int
    → Alive s.table cur
    → ((n : ℕ) → Safe env.initproc cur env.missing_page s (env.file_call n s))
    → Small s.table × Safe env.initproc cur env.missing_page s (syscall env cur eax s)
Run-Safe kstack pgdir initproc t env cur eax s e r range lt live files =
    let small = userinit_Run-Small kstack pgdir initproc t s.table e r in
    let valid = (Reach-alive kstack pgdir initproc t s.table e (Run-Reach initproc r) range).0 in
    (small, syscall-Safe env cur eax s (omega (arith, small cur)) live valid lt files)
