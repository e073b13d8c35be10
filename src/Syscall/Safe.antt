-- ===== src/Syscall/Safe.antt =====
-- No system call on processes harms the process table or the memory of the kernel.
use ssuos_mminos.Base.{
  not-some, ℤ, pos, negsuc, ltb, Bool-cases, Option-cases, is_none, ℕ, ◌+◌, ◌-◌, ◌%◌, ◌≤◌, ◌<◌, ◌≡◌,
  refl, sym, ◌∙◌, ◌⊎◌, inl, inr, Bool, true, not, ◌&&◌, none, arith,
}
use ssuos_mminos.Proc.{object, allocproc, Table, exit, wait, Wait, reaped, no_children, asleep}
use ssuos_mminos.Proc.Calls.{
  step, forks, exits, waits, kills, sleeps, sets_prio, after_exit, after_wait,
}
use ssuos_mminos.Proc.Boot.{growproc, new_size}
use native.Mathlib.Decide.{ℕ_discrete}
use ssuos_mminos.Proc.Life.{exit-leaves}
use ssuos_mminos.Proc.Query.{ProcessInfo, get_proc_info}
use ssuos_mminos.Proc.Valid.{
  Alive, IsValid, Allowed, max_int, step-IsValid, SameIds-IsValid, put-SameIds,
}
use ssuos_mminos.Syscall.{
  System, Outcome, returns, blocks, leaves, panics, failed, Environment, size_of, arg, argptr,
  argstr, as_int, no_info, after_info, after_growproc, sys_fork, sys_exit, sys_wait, sys_kill,
  sys_sbrk, sleep_round, sys_sleep, sys_hello_name, sys_get_proc_info, sys_set_prio,
}
use ssuos_mminos.Syscall.Dispatch.{
  Number, number, syscall, dispatch_call, fork_no, exit_no, wait_no, kill_no, getpid_no, sbrk_no,
  sleep_no, uptime_no, hello_no, hello_name_no, num_proc_no, max_pid_no, proc_info_no, set_prio_no,
  get_prio_no, file_no, unknown,
}
use ssuos_mminos.Syscall.Pointers.{argptr-inside}
use ssuos_mminos.Syscall.Stores.{store_info-outside}

-- A system with a valid table, and with the memory of `s` from the end of process `cur` on.
pub record Kept (cur : ℕ) (s s' : System) : Type 0 where
  pub valid : IsValid s'.table
  pub beyond : (b : ℕ) → size_of cur s ≤ b → s'.bytes b ≡ s.bytes b

-- A panic comes only when init exits, or when copyuvm does not find a page below the size of the process.
unfoldable pub Safe : (initproc cur : ℕ) → (missing_page : Bool) → System → Outcome → Type 0
Safe initproc cur missing_page s (returns v s') = Kept cur s s'
Safe initproc cur missing_page s (blocks s') = Kept cur s s'
Safe initproc cur missing_page s (leaves s') = Kept cur s s'
Safe initproc cur missing_page s panics = (cur ≡ initproc) ⊎ (missing_page ≡ true)

module _ (env : Environment) (cur : ℕ) (s : System) (live : Alive s.table cur) (v : IsValid s.table)
    (lt : s.table.nextpid < max_int) where
  same : Kept cur s s
  same = record { valid = v; beyond = λ b far. refl }

  with_table-Kept : (t : Table) → IsValid t → Kept cur s (record s { table = t })
  with_table-Kept t w = record { valid = w; beyond = λ b far. refl }

  sys_fork-Safe : Safe env.initproc cur env.missing_page s (sys_fork env cur s)
  unfolding sys_fork Safe step Allowed
  sys_fork-Safe =
      let slot = (allocproc env.kstack s.table).0 in
      elim (Bool-cases (env.missing_page && not (is_none slot))) [
        | inl panic ↦ rw (panic, sys_fork) (inr (ground (arith, panic)))
        | inr passes ↦
            rw (passes, sys_fork)
              (with_table-Kept _
                (step-IsValid env.initproc cur (forks env.kstack env.copied) s.table lt live v))
      ]

  exit-panics : exit env.initproc cur s.table ≡ none → cur ≡ env.initproc
  exit-panics e = elim (ℕ_discrete cur env.initproc) [
    | yes init ↦ init
    | no other ↦
        let leaves = exit-leaves env.initproc cur s.table (λ e. other (sym e)) in
        absurd (not-some (sym leaves.1 ∙ e))
  ]

  sys_exit-Safe : Safe env.initproc cur env.missing_page s (sys_exit env cur s)
  unfolding sys_exit Safe step Allowed
  sys_exit-Safe = elim (Option-cases (exit env.initproc cur s.table)) [
    | inl refused ↦ rw (refused, sys_exit) (inl (exit-panics refused))
    | inr (t, e) ↦
        let w : IsValid (after_exit s.table (exit env.initproc cur s.table)) =
          step-IsValid env.initproc cur exits s.table lt live v in
        rw (e, sys_exit) (with_table-Kept t (rw e at w))
  ]

  wait_end : Wait → Outcome
  wait_end w = elim w [
    | reaped pid t ↦ returns (pid % 4294967296) (record s { table = t })
    | no_children ↦ failed s
    | asleep t ↦ blocks (record s { table = t })
  ]

  wait_end-Safe :
      (w : Wait)
      → IsValid (after_wait s.table w)
      → Safe env.initproc cur env.missing_page s (wait_end w)
  unfolding wait_end Safe
  wait_end-Safe (reaped pid t) w = with_table-Kept t w
  wait_end-Safe no_children w = same
  wait_end-Safe (asleep t) w = with_table-Kept t w

  sys_wait-Safe : Safe env.initproc cur env.missing_page s (sys_wait cur s)
  unfolding sys_wait wait_end step Allowed
  sys_wait-Safe =
      wait_end-Safe (wait cur s.table) (step-IsValid env.initproc cur waits s.table lt live v)

  sys_kill-Safe : Safe env.initproc cur env.missing_page s (sys_kill cur s)
  unfolding sys_kill Safe step Allowed
  sys_kill-Safe = elim (Option-cases (arg cur 0 s)) [
    | inl missing ↦ rw (missing, sys_kill) same
    | inr (pid, is) ↦
        rw (is, sys_kill)
          (with_table-Kept _ (step-IsValid env.initproc cur (kills pid) s.table lt live v))
  ]

  sys_set_prio-Safe : Safe env.initproc cur env.missing_page s (sys_set_prio cur s)
  unfolding sys_set_prio Safe step Allowed
  sys_set_prio-Safe = elim (Option-cases (arg cur 0 s)) [
    | inl missing ↦ rw (missing, sys_set_prio) same
    | inr (n, is) ↦
        rw (is, sys_set_prio)
          (with_table-Kept _
            (step-IsValid env.initproc cur (sets_prio (as_int n)) s.table lt live v))
  ]

  sleep_round-Safe :
      (ticks0 n : ℕ) → Safe env.initproc cur env.missing_page s (sleep_round ticks0 n cur s)
  unfolding sleep_round Safe step Allowed
  sleep_round-Safe ticks0 n =
      elim (Bool-cases (ltb ((s.ticks + 4294967296 - ticks0) % 4294967296) n)) [
        | inr over ↦ rw (over, sleep_round) same
        | inl early ↦ elim (Bool-cases (s.table.proc cur).killed) [
          | inl dead ↦ rw (early, dead, sleep_round) same
          | inr awake ↦
              rw (early, awake, sleep_round)
                (with_table-Kept _
                  (step-IsValid env.initproc cur (sleeps (object 0)) s.table lt live v))
        ]
      ]

  sys_sleep-Safe : Safe env.initproc cur env.missing_page s (sys_sleep cur s)
  unfolding sys_sleep Safe
  sys_sleep-Safe = elim (Option-cases (arg cur 0 s)) [
    | inl missing ↦ rw (missing, sys_sleep) same
    | inr (n, is) ↦ rw (is, sys_sleep) (sleep_round-Safe s.ticks n)
  ]

  growproc-IsValid : (n : ℤ) → IsValid (growproc env.allocuvm env.deallocuvm n cur s.table).1
  unfolding growproc
  growproc-IsValid n =
      elim (Option-cases (new_size env.allocuvm env.deallocuvm (s.table.proc cur).sz n)) [
        | inl refused ↦ rw (refused, growproc) v
        | inr (sz, granted) ↦
            rw (granted, growproc)
              (SameIds-IsValid s.table _
                (put-SameIds s.table cur (record (s.table.proc cur) { sz = sz }) refl live.1) v)
      ]

  after_growproc-Safe :
      (r : ℤ × Table)
      → IsValid r.1
      → Safe env.initproc cur env.missing_page s (after_growproc cur s r)
  unfolding Safe
  after_growproc-Safe (pos k, t) w = with_table-Kept t w
  after_growproc-Safe (negsuc k, t) w = with_table-Kept t w

  sys_sbrk-Safe : Safe env.initproc cur env.missing_page s (sys_sbrk env cur s)
  unfolding sys_sbrk Safe
  sys_sbrk-Safe = elim (Option-cases (arg cur 0 s)) [
    | inl missing ↦ rw (missing, sys_sbrk) same
    | inr (n, is) ↦ rw (is, sys_sbrk) (after_growproc-Safe _ (growproc-IsValid (as_int n)))
  ]

  sys_hello_name-Safe : Safe env.initproc cur env.missing_page s (sys_hello_name cur s)
  unfolding sys_hello_name Safe
  sys_hello_name-Safe = elim (Option-cases (argstr (size_of cur s) s.esp 0 s.bytes)) [
    | inl missing ↦ rw (missing, sys_hello_name) same
    | inr (name, is) ↦ rw (is, sys_hello_name) same
  ]

  after_info-Safe :
      (p : ℕ) (r : ℤ × ProcessInfo)
      → p + 16 ≤ size_of cur s
      → Safe env.initproc cur env.missing_page s (after_info p s r)
  unfolding Safe
  after_info-Safe p (pos k, info) inside = record {
    valid = v;
    beyond = λ b far. store_info-outside p b info s.bytes (inr (omega (arith, far, inside)));
  }
  after_info-Safe p (negsuc k, info) inside = same

  sys_get_proc_info-Safe :
      size_of cur s ≤ 2147483648
      → Safe env.initproc cur env.missing_page s (sys_get_proc_info cur s)
  unfolding sys_get_proc_info Safe
  sys_get_proc_info-Safe small = elim (Option-cases (arg cur 0 s)) [
    | inl missing ↦ rw (missing, sys_get_proc_info) same
    | inr (pid, is) ↦ elim (Option-cases (argptr (size_of cur s) s.esp 1 (pos 16) s.bytes)) [
      | inl refused ↦ rw (is, refused, sys_get_proc_info) same
      | inr (p, at) ↦
          let (_, inside) =
            argptr-inside (size_of cur s) s.esp 1 16 p s.bytes small (omega arith) at in
          rw (is, at, sys_get_proc_info)
            (after_info-Safe p (get_proc_info pid s.table no_info) inside)
    ]
  ]

  dispatch_call-Safe :
      size_of cur s ≤ 2147483648
      → ((n : ℕ) → Safe env.initproc cur env.missing_page s (env.file_call n s))
      → (n : Number) → Safe env.initproc cur env.missing_page s (dispatch_call env cur s n)
  unfolding dispatch_call Safe
  dispatch_call-Safe small files fork_no = sys_fork-Safe
  dispatch_call-Safe small files exit_no = sys_exit-Safe
  dispatch_call-Safe small files wait_no = sys_wait-Safe
  dispatch_call-Safe small files kill_no = sys_kill-Safe
  dispatch_call-Safe small files getpid_no = same
  dispatch_call-Safe small files sbrk_no = sys_sbrk-Safe
  dispatch_call-Safe small files sleep_no = sys_sleep-Safe
  dispatch_call-Safe small files uptime_no = same
  dispatch_call-Safe small files hello_no = same
  dispatch_call-Safe small files hello_name_no = sys_hello_name-Safe
  dispatch_call-Safe small files num_proc_no = same
  dispatch_call-Safe small files max_pid_no = same
  dispatch_call-Safe small files proc_info_no = sys_get_proc_info-Safe small
  dispatch_call-Safe small files set_prio_no = sys_set_prio-Safe
  dispatch_call-Safe small files get_prio_no = same
  dispatch_call-Safe small files (file_no n) = files n
  dispatch_call-Safe small files unknown = same

-- Whatever the number in eax and the arguments on the stack, a system call of a process that is alive and
-- has at most 2 GB keeps the process table valid and changes no byte from the end of the process on, and
-- it panics only when init exits or copyuvm misses a page, as long as `nextpid` is not the greatest int;
-- it is assumed that the calls on files do no other.
pub syscall-Safe :
    (env : Environment) (cur eax : ℕ) (s : System)
    → size_of cur s ≤ 2147483648
    → Alive s.table cur
    → IsValid s.table
    → s.table.nextpid < max_int
    → ((n : ℕ) → Safe env.initproc cur env.missing_page s (env.file_call n s))
    → Safe env.initproc cur env.missing_page s (syscall env cur eax s)
unfolding syscall
syscall-Safe env cur eax s small live v lt files =
    dispatch_call-Safe env cur s live v lt small files (number eax)
