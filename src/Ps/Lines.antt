-- ===== src/Ps/Lines.antt =====
-- The lines that `print_default` and, without option u, the other functions print. `sprintf` puts a number
-- into decimal digits and fills a field with blanks; `gmtime` gives the hour, minute and second of a day.
use ssuos_mminos.Base.{
  ltb, if◌then◌else◌, length, take, replicate, ℕ, ◌+◌, ◌-◌, ◌/◌, ◌%◌, ◌&&◌, Option, none, some,
  List, [], ◌∷◌, ◌++◌, map, reverse,
}
use ssuos_mminos.Printf.{digits}
use ssuos_mminos.Ps.{Process, Tty, tty, tty_s, pts, no_tty, get_state}

-- A number of 32 bits.
unfoldable pub decimal : ℕ → List ℕ
decimal n = reverse (map (λ d. 48 + d) (digits 32 10 n))

-- `%02d`, for two digits
abbrev pub two : ℕ → List ℕ
two n = (48 + n / 10) ∷ (48 + n % 10) ∷ []

-- A field that is filled on its left, and on its right
abbrev pub right_aligned : (width : ℕ) → List ℕ → List ℕ
right_aligned width xs = replicate (width - length xs) b' ' ++ xs

abbrev pub left_aligned : (width : ℕ) → List ℕ → List ℕ
left_aligned width xs = xs ++ replicate (width - length xs) b' '

-- The text in `tty`, which has room for 8 bytes.
unfoldable pub tty_text : Tty → List ℕ
tty_text (tty n) = b't' ∷ b't' ∷ b'y' ∷ decimal n
tty_text (tty_s n) = b't' ∷ b't' ∷ b'y' ∷ b'S' ∷ decimal n
tty_text (pts n) = b'p' ∷ b't' ∷ b's' ∷ b'/' ∷ decimal n
tty_text no_tty = b'?' ∷ []

-- The seconds of processor time, and what `gmtime` makes of them.
abbrev pub runtime : (clk_tck : ℕ) → Process → ℕ
runtime clk_tck p = (p.stime + p.utime) / clk_tck

abbrev pub tm_hour : ℕ → ℕ
tm_hour r = r / 3600 % 24

abbrev pub tm_min : ℕ → ℕ
tm_min r = r / 60 % 60

abbrev pub tm_sec : ℕ → ℕ
tm_sec r = r % 60

-- The column TIME of `print_default`, and of the others
unfoldable pub long_time : ℕ → List ℕ
long_time r = two (tm_hour r) ++ b':' ∷ (two (tm_min r) ++ b':' ∷ two (tm_sec r))

unfoldable pub short_time : ℕ → List ℕ
short_time r = two (tm_min r) ++ b':' ∷ two (tm_sec r)

-- `tmp_line` and `line` have 512 bytes each: `none` when the text with its NUL does not fit, or when the
-- window has so many columns that `line` has no room for them and a NUL. The text is cut at the width of
-- the window.
unfoldable pub printed_line : (ws_col : ℕ) → List ℕ → Option (List ℕ)
printed_line ws_col text =
    if ltb (length text) 512 && ltb ws_col 512 then some (take ws_col text) else none

abbrev pub pid_title : List ℕ
pid_title = b'P' ∷ b'I' ∷ b'D' ∷ []

abbrev pub tty_title : List ℕ
tty_title = b'T' ∷ b'T' ∷ b'Y' ∷ []

abbrev pub stat_title : List ℕ
stat_title = b'S' ∷ b'T' ∷ b'A' ∷ b'T' ∷ []

abbrev pub time_title : List ℕ
time_title = b'T' ∷ b'I' ∷ b'M' ∷ b'E' ∷ []

abbrev pub cmd_title : List ℕ
cmd_title = b'C' ∷ b'M' ∷ b'D' ∷ []

-- The headline of `print_default`, and of the others
unfoldable pub default_headline : (ws_col : ℕ) → Option (List ℕ)
unfolding printed_line
default_headline ws_col = printed_line ws_col (
    right_aligned 6 pid_title
    ++ b' ' ∷ (left_aligned 7 tty_title ++ b' ' ∷ (right_aligned 8 time_title ++ b' ' ∷ cmd_title)))

unfoldable pub state_headline : (ws_col : ℕ) → Option (List ℕ)
unfolding printed_line
state_headline ws_col = printed_line ws_col (
    right_aligned 6 pid_title
    ++ b' '
      ∷ (left_aligned 7 tty_title
          ++ b' '
            ∷ (left_aligned 5 stat_title
                ++ b' ' ∷ (right_aligned 5 time_title ++ b' ' ∷ cmd_title))))

unfoldable pub default_line : (clk_tck ws_col : ℕ) → (bash_tty : Tty) → Process → Option (List ℕ)
unfolding printed_line
default_line clk_tck ws_col bash_tty p = printed_line ws_col (
    right_aligned 6 (decimal p.pid)
    ++ b' '
      ∷ (left_aligned 7 (tty_text bash_tty)
          ++ b' ' ∷ (long_time (runtime clk_tck p) ++ b' ' ∷ p.cmdline)))

unfoldable pub state_line : (clk_tck ws_col : ℕ) → Tty → Process → Option (List ℕ)
unfolding printed_line
state_line clk_tck ws_col t p = printed_line ws_col (
    right_aligned 6 (decimal p.pid)
    ++ b' '
      ∷ (left_aligned 7 (tty_text t)
          ++ b' '
            ∷ (left_aligned 5 (get_state p)
                ++ b' ' ∷ (short_time (runtime clk_tck p) ++ b' ' ∷ p.cmdline))))
