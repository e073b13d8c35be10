-- ===== src/Ps.antt =====
-- 설계 2번/ssu_ps.c: the options, the list of processes, and which processes are printed with which
-- columns. `MAJOR` and `MINOR` of linux/kdev_t.h are arguments. Reading /proc, the shares of processor
-- and memory and the start times are not modelled.
pub mod Options
pub mod Shown
pub mod Cmdline
pub mod Arguments
pub mod Lines
pub mod Columns
mod Tests
use ssuos_mminos.Base.{
  ℤ, pos, negsuc, ltb, leb, ◌==◌, if◌then◌else◌, ℕ, ◌+◌, ◌-◌, ◌*◌, ◌/◌, Bool, true, false, not,
  ◌&&◌, ◌||◌, Option, none, some, List, [], ◌∷◌, ◌++◌,
}

-- `a_flag`, `u_flag`, `x_flag`
pub record Flags : Type 0 where
  pub a_flag : Bool
  pub u_flag : Bool
  pub x_flag : Bool

abbrev pub no_flags : Flags
no_flags = record { a_flag = false; u_flag = false; x_flag = false }

-- One round of the loop of `check_option`; `none` is the default case.
unfoldable pub set_flag : ℕ → Flags → Option Flags
set_flag c f =
    if c == 97
    then some (record f { a_flag = true })
    else if c == 117
    then some (record f { u_flag = true })
    else if c == 120
    then some (record f { x_flag = true })
    else none

-- The result is false for -1; the flags in front of a wrong letter stay set.
unfoldable pub check_option : List ℕ → Flags → Bool × Flags
unfolding set_flag
check_option [] f = (true, f)
check_option (c ∷ cs) f = elim (set_flag c f) [ none ↦ (false, f) | some f' ↦ check_option cs f' ]

unfoldable pub all_digits : List ℕ → Bool
all_digits [] = true
all_digits (c ∷ cs) = let rest = all_digits cs in leb 48 c && leb c 57 && rest

-- `struct proc_info`; a terminal is not negative.
pub record Process : Type 0 where
  pub pid : ℕ
  pub pgrp : ℕ
  pub sid : ℕ
  pub tpgid : ℤ
  pub tty_nr : ℕ
  pub state : ℕ
  pub cmdline : List ℕ
  pub name : List ℕ
  pub utime : ℕ
  pub stime : ℕ
  pub nice : ℤ
  pub num_threads : ℕ
  pub vsize : ℕ
  pub rss : ℕ

-- `add_node` on the list behind `head`
abbrev pub add_node : List Process → Process → List Process
add_node ps p = ps ++ p ∷ []

-- What `get_tty` writes: "ttyN", "ttySN", "pts/N" or "?".
pub data Tty : Type 0 where
  tty : ℕ → Tty
  tty_s : ℕ → Tty
  pts : ℕ → Tty
  no_tty : Tty

unfoldable pub get_tty : (major minor : ℕ → ℕ) → ℕ → Tty
get_tty major minor n =
    if major n == 4
    then if ltb (minor n) 64 then tty (minor n) else tty_s (minor n - 64)
    else if leb 136 (major n) && leb (major n) 143
    then pts (minor n)
    else no_tty

abbrev pub is_no_tty : Tty → Bool
is_no_tty no_tty = true
is_no_tty _ = false

-- the mark for the priority
unfoldable pub nice_mark : ℤ → List ℕ
nice_mark (negsuc n) = if ltb 3 n then 60 ∷ [] else []
nice_mark (pos n) = if ltb 4 n then 78 ∷ [] else []

abbrev pub is_pos : ℤ → ℕ → Bool
is_pos (pos n) m = n == m
is_pos (negsuc n) m = false

-- The characters that `get_state` writes.
unfoldable pub get_state : Process → List ℕ
unfolding nice_mark
get_state p =
    p.state
    ∷ (nice_mark p.nice
        ++ (if p.pid == p.sid then 115 ∷ [] else [])
        ++ (if ltb 1 p.num_threads then 108 ∷ [] else [])
        ++ (if is_pos p.tpgid p.pgrp then 43 ∷ [] else []))

unfoldable pub same_string : List ℕ → List ℕ → Bool
same_string [] [] = true
same_string (x ∷ xs) (y ∷ ys) = let rest = same_string xs ys in x == y && rest
same_string [] (y ∷ ys) = false
same_string (x ∷ xs) [] = false

-- The search for the shell: the last process of the list with its pid.
unfoldable pub find_bash : List Process → (bash_pid : ℕ) → Option Process → Option Process
find_bash [] bash_pid found = found
find_bash (p ∷ ps) bash_pid found =
    find_bash ps bash_pid (if p.pid == bash_pid then some p else found)

-- A printed line: the columns USER, VSZ and RSS with option u only, and STAT with any option. The
-- time is in ticks.
pub record Row : Type 0 where
  pub user : Option (List ℕ × ℕ × ℕ)
  pub pid : ℕ
  pub tty : Tty
  pub stat : Option (List ℕ)
  pub ticks : ℕ
  pub cmdline : List ℕ

unfoldable pub row : (major minor : ℕ → ℕ) → Flags → Process → Row
row major minor f p = record {
  user = if f.u_flag then some (p.name, p.vsize / 1024, p.rss * 4) else none;
  pid = p.pid;
  tty = get_tty major minor p.tty_nr;
  stat = if f.a_flag || f.u_flag || f.x_flag then some (get_state p) else none;
  ticks = p.stime + p.utime;
  cmdline = p.cmdline;
}

-- The tests in the loops of `print_default`, `print_without_x` and `print_without_a`, where `bash` is
-- the shell; `print_all` has none.
unfoldable pub default_shows : (bash p : Process) → Bool
default_shows bash p = p.tty_nr == bash.tty_nr && same_string p.name bash.name

unfoldable pub without_x_shows : (major minor : ℕ → ℕ) → (bash p : Process) → Bool
without_x_shows major minor bash p =
    not (is_no_tty (get_tty major minor p.tty_nr)) && same_string p.name bash.name

unfoldable pub without_a_shows : (bash p : Process) → Bool
without_a_shows bash p = same_string p.name bash.name

unfoldable pub select : (Process → Bool) → (Process → Row) → List Process → List Row
select test line [] = []
select test line (p ∷ ps) = let rest = select test line ps in if test p then line p ∷ rest else rest

-- `print_ps`. Without the shell in the list, `print_default` prints nothing, as no terminal is -1, and
-- two of the others read a name that was never set, `none` here.
unfoldable pub print_ps :
    (major minor : ℕ → ℕ) → Flags → (bash_pid : ℕ) → List Process → Option (List Row)
unfolding select
print_ps major minor f bash_pid ps =
    let bash = find_bash ps bash_pid none in
    let line = row major minor f in
    if not f.a_flag && not f.u_flag && not f.x_flag
    then elim bash [ none ↦ some [] | some b ↦ some (select (default_shows b) line ps) ]
    else if not f.x_flag
    then elim bash [ none ↦ none | some b ↦ some (select (without_x_shows major minor b) line ps) ]
    else if not f.a_flag
    then elim bash [ none ↦ none | some b ↦ some (select (without_a_shows b) line ps) ]
    else some (select (λ p. true) line ps)
