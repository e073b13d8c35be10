-- ===== src/Ps/Tests.antt =====
-- The options and the output for a shell and a daemon.
use ssuos_mminos.Base.{
  pos, negsuc, length, take, ℕ, ◌/◌, ◌%◌, ◌≤◌, ◌≡◌, refl, some, List, [], ◌∷◌, ◌++◌, arith,
}
use ssuos_mminos.Ps.{Process, pts, get_tty, get_state, nice_mark}
use ssuos_mminos.Ps.Cmdline.{buffer, blank, string_in, shown_if, cmdline, bracket}
use ssuos_mminos.Ps.Lines.{
  tty_text, runtime, long_time, short_time, default_line, state_line, default_headline,
  state_headline, right_aligned, time_title, cmd_title,
}
use ssuos_mminos.Ps.Columns.{columns_lem, times_repeat}
use ssuos_mminos.Ps.Arguments.{all_proper, no_nul, stops, with_nuls, with_spaces, cmdline-args}

abbrev user_x : List ℕ
user_x = 120 ∷ []

abbrev shell : Process
shell = record {
  pid = 10;
  pgrp = 10;
  sid = 10;
  tpgid = pos 10;
  tty_nr = 34817;
  state = 83;
  cmdline = 98 ∷ [];
  name = user_x;
  utime = 3;
  stime = 4;
  nice = negsuc 4;
  num_threads = 1;
  vsize = 2048;
  rss = 5;
}

abbrev daemon : Process
daemon = record shell { pid = 2; tty_nr = 0; name = [] }

-- device numbers of 8 bits each
abbrev high : ℕ → ℕ
high n = n / 256

abbrev low : ℕ → ℕ
low n = n % 256

state_of : get_state shell ≡ 83 ∷ 60 ∷ 115 ∷ 43 ∷ []
unfolding get_state nice_mark
state_of = refl

tty_of : get_tty high low 34817 ≡ pts 1
unfolding get_tty
tty_of = refl

-- "ls", "-l", and an empty argument behind them
abbrev ls_l : List (List ℕ)
ls_l = (108 ∷ 115 ∷ []) ∷ (45 ∷ 108 ∷ []) ∷ []

cmdline-args_example :
    (cmdline (40 ∷ 108 ∷ 41 ∷ []) (with_nuls ls_l ++ 0 ∷ 97 ∷ 0 ∷ []) ≡ some (with_spaces ls_l))
    × (cmdline (40 ∷ 108 ∷ 41 ∷ []) [] ≡ some (bracket (40 ∷ 108 ∷ 41 ∷ [])))
unfolding all_proper no_nul stops with_nuls
cmdline-args_example =
    cmdline-args (40 ∷ 108 ∷ 41 ∷ []) ls_l (0 ∷ 97 ∷ 0 ∷ []) refl refl refl (omega arith)

kernel_thread : cmdline (40 ∷ 108 ∷ 41 ∷ []) [] ≡ some (91 ∷ 108 ∷ 93 ∷ [])
unfolding cmdline buffer blank string_in shown_if bracket
kernel_thread = refl

columns_example :
    (length (tty_text (pts 1)) ≤ 7)
    × (length (get_state shell) ≤ 5)
    × ((front title : List ℕ) × (length front ≡ 15)
        × (length title ≡ 15)
        × (length (long_time (runtime 100 shell)) ≡ 8)
        × (default_line 100 80 (pts 1) shell
            ≡ some (take 80 (front ++ (long_time (runtime 100 shell) ++ b' ' ∷ shell.cmdline))))
        × (default_headline 80
            ≡ some (take 80 (title ++ (right_aligned 8 time_title ++ b' ' ∷ cmd_title)))))
    × ((front title : List ℕ) × (length front ≡ 21)
        × (length title ≡ 21)
        × (length (short_time (runtime 100 shell)) ≡ 5)
        × (state_line 100 80 (pts 1) shell
            ≡ some (take 80 (front ++ (short_time (runtime 100 shell) ++ b' ' ∷ shell.cmdline))))
        × (state_headline 80
            ≡ some (take 80 (title ++ (right_aligned 5 time_title ++ b' ' ∷ cmd_title)))))
columns_example =
    columns_lem 100 80 (pts 1) shell (omega arith) (omega arith) (omega arith) (omega arith)

-- An hour of processor time is shown as none.
hour_shown : short_time 3600 ≡ short_time 0
hour_shown = (times_repeat 0 1).1
