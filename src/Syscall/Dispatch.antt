-- ===== src/Syscall/Dispatch.antt =====
-- The table of system calls and the function that calls them.
use ssuos_mminos.Base.{ltb, ◌==◌, if◌then◌else◌, ℕ, ◌%◌, ◌||◌}
use ssuos_mminos.Proc.Query.{get_num_proc, get_max_pid}
use ssuos_mminos.Syscall.{
  System, Outcome, returns, failed, Environment, sys_fork, sys_exit, sys_wait, sys_kill, sys_getpid,
  sys_sbrk, sys_sleep, sys_uptime, sys_hello_name, sys_get_proc_info, sys_set_prio, sys_get_prio,
}

-- The numbers of syscall.h.
pub data Number : Type 0 where
  fork_no exit_no wait_no kill_no getpid_no sbrk_no sleep_no uptime_no hello_no hello_name_no :
      Number
  num_proc_no max_pid_no proc_info_no set_prio_no get_prio_no : Number
  file_no : ℕ → Number
  unknown : Number

abbrev pub number : ℕ → Number
number n =
    if n == 0 || ltb 28 n
    then unknown
    else if n == 1
    then fork_no
    else if n == 2
    then exit_no
    else if n == 3
    then wait_no
    else if n == 6
    then kill_no
    else if n == 11
    then getpid_no
    else if n == 12
    then sbrk_no
    else if n == 13
    then sleep_no
    else if n == 14
    then uptime_no
    else if n == 22
    then hello_no
    else if n == 23
    then hello_name_no
    else if n == 24
    then num_proc_no
    else if n == 25
    then max_pid_no
    else if n == 26
    then proc_info_no
    else if n == 27
    then set_prio_no
    else if n == 28
    then get_prio_no
    else file_no n

unfoldable pub dispatch_call : Environment → (cur : ℕ) → System → Number → Outcome
dispatch_call env cur s fork_no = sys_fork env cur s
dispatch_call env cur s exit_no = sys_exit env cur s
dispatch_call env cur s wait_no = sys_wait cur s
dispatch_call env cur s kill_no = sys_kill cur s
dispatch_call env cur s getpid_no = sys_getpid cur s
dispatch_call env cur s sbrk_no = sys_sbrk env cur s
dispatch_call env cur s sleep_no = sys_sleep cur s
dispatch_call env cur s uptime_no = sys_uptime s
dispatch_call env cur s hello_no = returns 0 s
dispatch_call env cur s hello_name_no = sys_hello_name cur s
dispatch_call env cur s num_proc_no = returns (get_num_proc s.table) s
dispatch_call env cur s max_pid_no = returns (get_max_pid s.table % 4294967296) s
dispatch_call env cur s proc_info_no = sys_get_proc_info cur s
dispatch_call env cur s set_prio_no = sys_set_prio cur s
dispatch_call env cur s get_prio_no = sys_get_prio cur s
dispatch_call env cur s (file_no n) = env.file_call n s
dispatch_call env cur s unknown = failed s

-- `syscall` with the number in eax; what it returns is put into eax.
unfoldable pub syscall : Environment → (cur eax : ℕ) → System → Outcome
syscall env cur eax s = dispatch_call env cur s (number eax)
