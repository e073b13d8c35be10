-- ===== src/Console.antt =====
-- 설계 3번/xv6/console.c: the input of the console, from the interrupt to `consoleread`. The indices of
-- `input` are words of 32 bits that wrap around. What is echoed is left out, and so are the locks, as
-- each call runs under cons.lock but for its sleeps.
pub mod Cells
pub mod Edit
pub mod Typing
pub mod Taking
pub mod Lines
pub mod RoundTrip
mod Tests
use ssuos_mminos.Base.{
  ltb, ◌==◌, if◌then◌else◌, update, ℕ, zero, suc, ◌+◌, ◌-◌, ◌%◌, Bool, true, not, ◌&&◌, ◌||◌, List,
  [], ◌∷◌,
}

-- INPUT_BUF
abbrev pub input_buf : ℕ
input_buf = 128

-- `input`
pub record Input : Type 0 where
  pub buf : ℕ → ℕ
  pub r : ℕ
  pub w : ℕ
  pub e : ℕ

abbrev pub next : ℕ → ℕ
next i = (i + 1) % 4294967296

abbrev pub before : ℕ → ℕ
before i = (i + 4294967295) % 4294967296

-- `input.e--`
abbrev pub rub_out : Input → Input
rub_out c = record c { e = before c.e }

unfoldable pub backspace : Input → Input
backspace c = if c.e == c.w then c else rub_out c

-- The loop of control-U; a round for each cell is enough.
unfoldable pub kill_line : (rounds : ℕ) → Input → Input
kill_line zero c = c
kill_line (suc n) c =
    let rest = kill_line n (rub_out c) in
    if c.e == c.w || (c.buf (before c.e % input_buf) == 10) then c else rest

-- A character that is stored, with `\r` turned into `\n`; the end of a line hands the line over.
unfoldable pub store : ℕ → Input → Input
store k c =
    let c' = record c { buf = update c.buf (c.e % input_buf) k; e = next c.e } in
    if k == 10 || (k == 4) || (c'.e == (c.r + input_buf) % 4294967296)
    then record c' { w = c'.e }
    else c'

abbrev pub as_newline : ℕ → ℕ
as_newline k = if k == 13 then 10 else k

unfoldable pub type_char : ℕ → Input → Input
type_char k c =
    if not (k == 0) && ltb ((c.e + 4294967296 - c.r) % 4294967296) input_buf
    then store (as_newline k) c
    else c

-- A round of the loop of `consoleintr`, for a character from `getc`.
unfoldable pub consoleintr : ℕ → Input → Input
consoleintr k c =
    if k == 16
    then c
    else if k == 21
    then kill_line input_buf c
    else if k == 8 || (k == 127)
    then backspace c
    else type_char k c

-- What `consoleread` has copied so far, when it returns, sleeps, or is interrupted by a kill.
pub data Read : Type 0 where
  returns : List ℕ → Input → Read
  sleeps : List ℕ → Input → Read
  interrupted : Input → Read

abbrev pub read_more : ℕ → Read → Read
read_more k (returns ks c) = returns (k ∷ ks) c
read_more k (sleeps ks c) = sleeps (k ∷ ks) c
read_more k (interrupted c) = interrupted c

-- The loop of `consoleread` for `n` more bytes, where `some_read` says whether `n < target`.
unfoldable pub consoleread : (killed some_read : Bool) → (n : ℕ) → Input → Read
consoleread killed some_read zero c = returns [] c
consoleread killed some_read (suc n) c =
    let k = c.buf (c.r % input_buf) in
    let c' = record c { r = next c.r } in
    let rest = read_more k (consoleread killed true n c') in
    if c.r == c.w
    then if killed then interrupted c else sleeps [] c
    else if k == 4
    then returns [] (if some_read then c else c')
    else if k == 10
    then returns (k ∷ []) c'
    else rest
