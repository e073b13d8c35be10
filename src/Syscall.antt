-- ===== src/Syscall.antt =====
-- 설계 3번/xv6/syscall.c and sysproc.c: the arguments that a system call fetches from the memory of the
-- running process, and the calls on processes. A word of 32 bits is its unsigned value. The calls on
-- files (sysfile.c) and the outcomes of kalloc and of the page tables are arguments; `missing_page` says
-- that copyuvm panics, as a page below the size of the process is not there. A call is made with no other
-- call in between.
pub mod Pointers
pub mod Stores
pub mod Info
pub mod Dispatch
pub mod Safe
pub mod Booted
mod Tests
use ssuos_mminos.Base.{
  ℤ, pos, negsuc, ltb, leb, ◌==◌, if◌then◌else◌, is_none, update, ℕ, zero, suc, ◌+◌, ◌-◌, ◌*◌, ◌/◌,
  ◌%◌, Bool, true, not, ◌&&◌, ◌||◌, Option, none, some,
}
use ssuos_mminos.Proc.{
  object, Table, allocproc, fork, exit, reaped, no_children, asleep, wait, kill, sleep, set_prio,
  get_prio,
}
use ssuos_mminos.Proc.Boot.{growproc}
use ssuos_mminos.Proc.Query.{ProcessInfo, get_proc_info}

-- The process table, the saved stack pointer of the running process, its memory, and `ticks`.
pub record System : Type 0 where
  pub table : Table
  pub esp : ℕ
  pub bytes : ℕ → ℕ
  pub ticks : ℕ

-- What a call waits for from outside: pages, page tables and the calls on files.
pub data Outcome : Type 0 where
  returns : ℕ → System → Outcome
  blocks : System → Outcome  -- asleep in the call
  leaves : System → Outcome  -- exited
  panics : Outcome

pub record Environment : Type 0 where
  pub initproc : ℕ
  pub kstack : Bool
  pub copied : Bool
  pub missing_page : Bool
  pub allocuvm : ℕ → ℕ → ℕ
  pub deallocuvm : ℕ → ℕ → ℕ
  pub file_call : ℕ → System → Outcome

-- The int of a word, and the word of an int.
abbrev pub as_int : ℕ → ℤ
as_int w = if ltb w 2147483648 then pos w else negsuc (4294967295 - w)

abbrev pub as_word : ℤ → ℕ
as_word (pos n) = n % 4294967296
as_word (negsuc n) = 4294967295 - n % 4294967296

abbrev pub failed : System → Outcome
failed s = returns 4294967295 s

abbrev pub load_word : (ℕ → ℕ) → ℕ → ℕ
load_word m a = m a + m (a + 1) * 256 + m (a + 2) * 65536 + m (a + 3) * 16777216

-- In the following `sz` and `m` are the size and the memory of the process.
unfoldable pub fetchint : (sz addr : ℕ) → (m : ℕ → ℕ) → Option ℕ
fetchint sz addr m =
    if leb sz addr || ltb sz ((addr + 4) % 4294967296) then none else some (load_word m addr)

-- The loop of `fetchstr` after `n` bytes.
unfoldable pub scan : (rounds n s : ℕ) → (m : ℕ → ℕ) → Option ℕ
scan zero n s m = none
scan (suc rounds) n s m =
    let rest = scan rounds (n + 1) (s + 1) m in if m s == 0 then some n else rest

-- The length of the string; the pointer is `addr`.
unfoldable pub fetchstr : (sz addr : ℕ) → (m : ℕ → ℕ) → Option ℕ
fetchstr sz addr m = if leb sz addr then none else scan (sz - addr) 0 addr m

unfoldable pub argint : (sz esp n : ℕ) → (m : ℕ → ℕ) → Option ℕ
argint sz esp n m = fetchint sz ((esp + 4 + 4 * n) % 4294967296) m

-- The test of `argptr`; the size becomes unsigned in the sum.
abbrev pub bad_block : (sz i : ℕ) → ℤ → Bool
bad_block sz i (negsuc k) = true
bad_block sz i (pos size) = leb sz i || ltb sz ((i + size) % 4294967296)

unfoldable pub argptr : (sz esp n : ℕ) → ℤ → (m : ℕ → ℕ) → Option ℕ
argptr sz esp n size m = elim (argint sz esp n m) [
  | none ↦ none
  | some i ↦ if bad_block sz i size then none else some i
]

unfoldable pub argstr : (sz esp n : ℕ) → (m : ℕ → ℕ) → Option (ℕ × ℕ)
argstr sz esp n m = elim (argint sz esp n m) [
  | none ↦ none
  | some addr ↦ elim (fetchstr sz addr m) [ none ↦ none | some len ↦ some (addr, len) ]
]

-- The size of the running process.
abbrev pub size_of : (cur : ℕ) → System → ℕ
size_of cur s = (s.table.proc cur).sz

abbrev pub arg : (cur n : ℕ) → System → Option ℕ
arg cur n s = argint (size_of cur s) s.esp n s.bytes

abbrev pub with_table : System → ℤ × Table → Outcome
with_table s (v, t) = returns (as_word v) (record s { table = t })

unfoldable pub sys_fork : Environment → (cur : ℕ) → System → Outcome
sys_fork env cur s =
    let (slot, t) = allocproc env.kstack s.table in
    if env.missing_page && not (is_none slot)
    then panics
    else with_table s (fork env.kstack env.copied cur s.table)

unfoldable pub sys_exit : Environment → (cur : ℕ) → System → Outcome
sys_exit env cur s = elim (exit env.initproc cur s.table) [
  | none ↦ panics
  | some t ↦ leaves (record s { table = t })
]

unfoldable pub sys_wait : (cur : ℕ) → System → Outcome
sys_wait cur s = elim (wait cur s.table) [
  | reaped pid t ↦ returns (pid % 4294967296) (record s { table = t })
  | no_children ↦ failed s
  | asleep t ↦ blocks (record s { table = t })
]

unfoldable pub sys_kill : (cur : ℕ) → System → Outcome
sys_kill cur s = elim (arg cur 0 s) [ none ↦ failed s | some pid ↦ with_table s (kill pid s.table) ]

abbrev pub sys_getpid : (cur : ℕ) → System → Outcome
sys_getpid cur s = returns ((s.table.proc cur).pid % 4294967296) s

-- The old size, when `growproc` returns 0.
abbrev pub after_growproc : (cur : ℕ) → System → ℤ × Table → Outcome
after_growproc cur s (pos k, t) = returns (size_of cur s % 4294967296) (record s { table = t })
after_growproc cur s (negsuc k, t) = failed (record s { table = t })

unfoldable pub sys_sbrk : Environment → (cur : ℕ) → System → Outcome
sys_sbrk env cur s = elim (arg cur 0 s) [
  | none ↦ failed s
  | some n ↦ after_growproc cur s (growproc env.allocuvm env.deallocuvm (as_int n) cur s.table)
]

-- A round of the loop of `sys_sleep`, at the start and whenever the process is woken up.
unfoldable pub sleep_round : (ticks0 n cur : ℕ) → System → Outcome
sleep_round ticks0 n cur s =
    if ltb ((s.ticks + 4294967296 - ticks0) % 4294967296) n
    then if (s.table.proc cur).killed
      then failed s
      else blocks (record s { table = sleep (object 0) cur s.table })
    else returns 0 s

unfoldable pub sys_sleep : (cur : ℕ) → System → Outcome
sys_sleep cur s = elim (arg cur 0 s) [ none ↦ failed s | some n ↦ sleep_round s.ticks n cur s ]

abbrev pub sys_uptime : System → Outcome
sys_uptime s = returns s.ticks s

-- `hello` and `hello_name` only print.
unfoldable pub sys_hello_name : (cur : ℕ) → System → Outcome
sys_hello_name cur s = elim (argstr (size_of cur s) s.esp 0 s.bytes) [
  | none ↦ failed s
  | some name ↦ returns 0 s
]

-- A word stored in memory, the low byte first.
abbrev pub store_word : ℕ → ℕ → (ℕ → ℕ) → ℕ → ℕ
store_word a w m =
    update
      (update (update (update m a (w % 256)) (a + 1) (w / 256 % 256)) (a + 2) (w / 65536 % 256))
      (a + 3) (w / 16777216 % 256)

unfoldable pub store_info : ℕ → ProcessInfo → (ℕ → ℕ) → ℕ → ℕ
store_info a info m =
    store_word (a + 12) info.nswitch
      (store_word (a + 8) info.psize (store_word (a + 4) info.ppid (store_word a info.pid m)))

abbrev pub no_info : ProcessInfo
no_info = record { pid = 0; ppid = 0; psize = 0; nswitch = 0 }

-- `get_proc_info` writes through the pointer only when it returns 0.
abbrev pub after_info : (p : ℕ) → System → ℤ × ProcessInfo → Outcome
after_info p s (pos k, info) = returns 0 (record s { bytes = store_info p info s.bytes })
after_info p s (negsuc k, info) = failed s

unfoldable pub sys_get_proc_info : (cur : ℕ) → System → Outcome
sys_get_proc_info cur s = elim (arg cur 0 s) [
  | none ↦ failed s
  | some pid ↦ elim (argptr (size_of cur s) s.esp 1 (pos 16) s.bytes) [
    | none ↦ failed s
    | some p ↦ after_info p s (get_proc_info pid s.table no_info)
  ]
]

unfoldable pub sys_set_prio : (cur : ℕ) → System → Outcome
sys_set_prio cur s = elim (arg cur 0 s) [
  | none ↦ failed s
  | some n ↦ with_table s (set_prio (as_int n) cur s.table)
]

abbrev pub sys_get_prio : (cur : ℕ) → System → Outcome
sys_get_prio cur s = returns (get_prio cur s.table % 4294967296) s
