-- ===== src/Ps/Columns.antt =====
-- The columns of the lines: where they stand, what fits into them, and what the times tell.
use ssuos_mminos.Base.{
  ℤ, pos, negsuc, ltb, ◌==◌, if◌then◌else◌, length, take, replicate, length-append,
  length-replicate, ℕ, ◌+◌, ◌-◌, ◌*◌, ◌≤◌, ◌<◌, ◌≡◌, refl, sym, ap, ◌∙◌, Bool, true, false, some,
  List, [], ◌∷◌, ◌++◌, map, arith, length-reverse, append_assoc,
}
use ssuos_mminos.Printf.Numbers.{length-digits_ten, length-map}
use ssuos_mminos.Printf.{digits}
use ssuos_mminos.Ps.{Process, Tty, tty, tty_s, pts, no_tty, get_state, nice_mark, is_pos}
use ssuos_mminos.Ps.Lines.{
  decimal, right_aligned, left_aligned, tty_text, runtime, tm_hour, tm_min, tm_sec, long_time,
  short_time, default_line, state_line, printed_line, default_headline, state_headline, time_title,
  cmd_title, pid_title, tty_title, stat_title,
}

length-decimal_three : (n : ℕ) → n < 1000 → length (decimal n) ≤ 3
unfolding decimal
length-decimal_three n lt = omega (
  arith,
  length-reverse {0} (map (λ d. 48 + d) (digits 32 10 n)),
  length-map (λ d. 48 + d) (digits 32 10 n),
  length-digits_ten 32 2 n (omega (arith, lt)),
)

length-decimal_six : (n : ℕ) → n < 1000000 → length (decimal n) ≤ 6
unfolding decimal
length-decimal_six n lt = omega (
  arith,
  length-reverse {0} (map (λ d. 48 + d) (digits 32 10 n)),
  length-map (λ d. 48 + d) (digits 32 10 n),
  length-digits_ten 32 5 n (omega (arith, lt)),
)

abbrev pub number_of : Tty → ℕ
number_of (tty n) = n
number_of (tty_s n) = n
number_of (pts n) = n
number_of no_tty = 0

length-tty_text : (t : Tty) → number_of t < 1000 → length (tty_text t) ≤ 7
unfolding tty_text
length-tty_text (tty n) lt = omega (arith, length-decimal_three n lt)
length-tty_text (tty_s n) lt = omega (arith, length-decimal_three n lt)
length-tty_text (pts n) lt = omega (arith, length-decimal_three n lt)
length-tty_text no_tty lt = omega arith

length-optional : (test : Bool) (c : ℕ) → length (if test then c ∷ [] else []) ≤ 1
length-optional true c = omega arith
length-optional false c = omega arith

length-nice_mark : (n : ℤ) → length (nice_mark n) ≤ 1
unfolding nice_mark
length-nice_mark (pos n) = length-optional (ltb 4 n) 78
length-nice_mark (negsuc n) = length-optional (ltb 3 n) 60

length-four :
    (marks session threads front : List ℕ)
    → length marks ≤ 1
    → length session ≤ 1
    → length threads ≤ 1
    → length front ≤ 1
    → length (marks ++ session ++ threads ++ front) ≤ 4
length-four marks session threads front a b c d = omega (
  arith,
  a,
  b,
  c,
  d,
  length-append {0} ((marks ++ session) ++ threads) front,
  length-append {0} (marks ++ session) threads,
  length-append {0} marks session,
)

length-get_state : (p : Process) → length (get_state p) ≤ 5
unfolding get_state
length-get_state p =
    let rest =
      length-four (nice_mark p.nice) (if p.pid == p.sid then 115 ∷ [] else [])
        (if ltb 1 p.num_threads then 108 ∷ [] else [])
        (if is_pos p.tpgid p.pgrp then 43 ∷ [] else []) (length-nice_mark p.nice)
        (length-optional (p.pid == p.sid) 115) (length-optional (ltb 1 p.num_threads) 108)
        (length-optional (is_pos p.tpgid p.pgrp) 43) in
    omega (arith, rest)

length-right_aligned :
    (width : ℕ) (xs : List ℕ) → length xs ≤ width → length (right_aligned width xs) ≡ width
length-right_aligned width xs le = omega (
  arith,
  le,
  length-append {0} (replicate (width - length xs) b' ') xs,
  length-replicate {0} {A = ℕ} (width - length xs) b' ',
)

length-left_aligned :
    (width : ℕ) (xs : List ℕ) → length xs ≤ width → length (left_aligned width xs) ≡ width
length-left_aligned width xs le = omega (
  arith,
  le,
  length-append {0} xs (replicate (width - length xs) b' '),
  length-replicate {0} {A = ℕ} (width - length xs) b' ',
)

printed_line-fits :
    (ws_col : ℕ) (front rest : List ℕ)
    → length front + length rest < 512
    → ws_col < 512
    → printed_line ws_col (front ++ rest) ≡ some (take ws_col (front ++ rest))
unfolding printed_line
printed_line-fits ws_col front rest lt cols = ground (arith, lt, cols, length-append {0} front rest)

-- The headlines up to the column TIME
abbrev default_title : List ℕ
default_title = right_aligned 6 pid_title ++ b' ' ∷ (left_aligned 7 tty_title ++ b' ' ∷ [])

abbrev state_title : List ℕ
state_title =
    right_aligned 6 pid_title
    ++ b' ' ∷ (left_aligned 7 tty_title ++ b' ' ∷ (left_aligned 5 stat_title ++ b' ' ∷ []))

-- For a process id of at most 6 digits, a terminal with a number of at most 3, a command line of at most 484
-- characters and a window of at most 511 columns: the bytes of `tty` and of `state` have room for their texts
-- with the NUL, the lines fit their arrays, and the times and command lines stand below their titles. The
-- column TIME takes the 8 characters behind the first 15 in the lines of `print_default`, and the 5 behind the
-- first 21 in those with the column STAT; its title takes the same characters of the headlines, and CMD begins
-- where the command lines do.
pub columns_lem :
    (clk_tck ws_col : ℕ) (t : Tty) (p : Process)
    → p.pid < 1000000
    → number_of t < 1000
    → length p.cmdline < 485
    → ws_col < 512
    → (length (tty_text t) ≤ 7)
      × (length (get_state p) ≤ 5)
      × ((front title : List ℕ) × (length front ≡ 15)
          × (length title ≡ 15)
          × (length (long_time (runtime clk_tck p)) ≡ 8)
          × (default_line clk_tck ws_col t p
              ≡ some (take ws_col (front ++ (long_time (runtime clk_tck p) ++ b' ' ∷ p.cmdline))))
          × (default_headline ws_col
              ≡ some (take ws_col (title ++ (right_aligned 8 time_title ++ b' ' ∷ cmd_title)))))
      × ((front title : List ℕ) × (length front ≡ 21)
          × (length title ≡ 21)
          × (length (short_time (runtime clk_tck p)) ≡ 5)
          × (state_line clk_tck ws_col t p
              ≡ some (take ws_col (front ++ (short_time (runtime clk_tck p) ++ b' ' ∷ p.cmdline))))
          × (state_headline ws_col
              ≡ some (take ws_col (title ++ (right_aligned 5 time_title ++ b' ' ∷ cmd_title)))))
unfolding default_line state_line default_headline state_headline long_time short_time
columns_lem clk_tck ws_col t p pid_fits tty_fits cmd_fits cols =
    let pid = right_aligned 6 (decimal p.pid) in
    let terminal = left_aligned 7 (tty_text t) in
    let state = left_aligned 5 (get_state p) in
    let blank : List ℕ = b' ' ∷ [] in
    let pid_width = length-right_aligned 6 (decimal p.pid) (length-decimal_six p.pid pid_fits) in
    let tty_width = length-left_aligned 7 (tty_text t) (length-tty_text t tty_fits) in
    let state_width = length-left_aligned 5 (get_state p) (length-get_state p) in
    let long_rest = long_time (runtime clk_tck p) ++ b' ' ∷ p.cmdline in
    let short_rest = short_time (runtime clk_tck p) ++ b' ' ∷ p.cmdline in
    let front = pid ++ b' ' ∷ (terminal ++ blank) in
    let front_width : length front ≡ 15 = omega (
      arith,
      pid_width,
      tty_width,
      length-append {0} pid (b' ' ∷ (terminal ++ blank)),
      length-append {0} terminal blank,
    ) in
    let state_front = pid ++ b' ' ∷ (terminal ++ b' ' ∷ (state ++ blank)) in
    let state_front_width : length state_front ≡ 21 = omega (
      arith,
      pid_width,
      tty_width,
      state_width,
      length-append {0} pid (b' ' ∷ (terminal ++ b' ' ∷ (state ++ blank))),
      length-append {0} terminal (b' ' ∷ (state ++ blank)),
      length-append {0} state blank,
    ) in
    (
      length-tty_text t tty_fits,
      length-get_state p,
      (
        front,
        default_title,
        front_width,
        refl,
        refl,
        ap (printed_line ws_col) (two_fields pid terminal long_rest)
            ∙ printed_line-fits ws_col front long_rest (omega (arith, front_width, cmd_fits)) cols,
        printed_line-fits ws_col default_title (right_aligned 8 time_title ++ b' ' ∷ cmd_title)
            (omega arith) cols,
      ),
      (
        state_front,
        state_title,
        state_front_width,
        refl,
        refl,
        ap (printed_line ws_col) (
              ap (λ xs. pid ++ b' ' ∷ xs) (two_fields terminal state short_rest)
              ∙ sym (append_assoc pid (b' ' ∷ (terminal ++ b' ' ∷ (state ++ blank))) short_rest))
            ∙ printed_line-fits ws_col state_front short_rest
                (omega (arith, state_front_width, cmd_fits)) cols,
        printed_line-fits ws_col state_title (right_aligned 5 time_title ++ b' ' ∷ cmd_title)
            (omega arith) cols,
      ),
    )
  where
    two_fields :
        (xs ys rest : List ℕ)
        → xs ++ b' ' ∷ (ys ++ b' ' ∷ rest) ≡ (xs ++ b' ' ∷ (ys ++ b' ' ∷ [])) ++ rest
    two_fields xs ys rest =
        ap (λ l. xs ++ b' ' ∷ l) (sym (append_assoc ys (b' ' ∷ []) rest))
        ∙ sym (append_assoc xs (b' ' ∷ (ys ++ b' ' ∷ [])) rest)

-- The column TIME of `print_default` is the same again when a day of processor time has gone, and the one
-- of the other functions when an hour has.
pub times_repeat :
    (r k : ℕ)
    → (long_time (r + 86400 * k) ≡ long_time r) × (short_time (r + 3600 * k) ≡ short_time r)
unfolding long_time short_time
times_repeat r k =
    let hour : tm_hour (r + 86400 * k) ≡ tm_hour r = omega arith in
    let min : tm_min (r + 86400 * k) ≡ tm_min r = omega arith in
    let sec : tm_sec (r + 86400 * k) ≡ tm_sec r = omega arith in
    let min' : tm_min (r + 3600 * k) ≡ tm_min r = omega arith in
    let sec' : tm_sec (r + 3600 * k) ≡ tm_sec r = omega arith in
    (rw (hour, min, sec) refl, rw (min', sec') refl)
