-- ===== src/Printf.antt =====
-- 설계 3번/xv6/printf.c, `printint` and `cprintf` of console.c, and `atoi` of ulib.c. What is printed is a
-- list of byte codes, and so is a string, without its NUL; `text` gives the string at an address.
pub mod Numbers
pub mod Formats
mod Tests
use ssuos_mminos.Base.{
  ltb, leb, ◌==◌, if◌then◌else◌, ℕ, zero, suc, ◌+◌, ◌-◌, ◌*◌, ◌/◌, ◌%◌, Bool, true, false, ◌&&◌,
  ◌||◌, List, [], ◌∷◌, ◌++◌, map, reverse,
}

-- `digits` of printf.c, and of console.c
abbrev pub upper : ℕ → ℕ
upper n = if ltb n 10 then 48 + n else 55 + n

abbrev pub lower : ℕ → ℕ
lower n = if ltb n 10 then 48 + n else 87 + n

-- The digits of `x` in `buf`, the last one first. A round for each bit of `x` is enough.
unfoldable pub digits : (rounds base x : ℕ) → List ℕ
digits zero base x = []
digits (suc n) base x =
    let rest = digits n base (x / base) in (x % base) ∷ (if x / base == 0 then [] else rest)

-- `buf` in `printint` of the word `xx`.
unfoldable pub buffer : (digit : ℕ → ℕ) → (xx base : ℕ) → (sgn : Bool) → List ℕ
buffer digit xx base sgn =
    if sgn && leb 2147483648 xx
    then map digit (digits 32 base (4294967296 - xx)) ++ b'-' ∷ []
    else map digit (digits 32 base xx)

unfoldable pub printint : (digit : ℕ → ℕ) → (xx base : ℕ) → (sgn : Bool) → List ℕ
printint digit xx base sgn = reverse (buffer digit xx base sgn)

-- The string of `%s`; "(null)" for the null pointer.
abbrev pub shown : (text : ℕ → List ℕ) → ℕ → List ℕ
shown text s = if s == 0 then b'(' ∷ b'n' ∷ b'u' ∷ b'l' ∷ b'l' ∷ b')' ∷ [] else text s

-- The next argument, and those behind it. What stands behind the last one is not known; it is 0 here.
abbrev pub next_arg : List ℕ → ℕ
next_arg [] = 0
next_arg (a ∷ args) = a

abbrev pub later_args : List ℕ → List ℕ
later_args [] = []
later_args (a ∷ args) = args

-- What `printf` does with the character behind a `%`: what is printed, and whether an argument is used.
pub data Conversion : Type 0 where
  decimal hexadecimal string char percent unknown : Conversion

abbrev pub conversion : ℕ → Conversion
conversion c =
    if c == b'd'
    then decimal
    else if c == b'x' || (c == b'p')
    then hexadecimal
    else if c == b's'
    then string
    else if c == b'c'
    then char
    else if c == b'%'
    then percent
    else unknown

module _ (text : ℕ → List ℕ) where
  abbrev pub converted : Conversion → (c : ℕ) → List ℕ → List ℕ
  converted decimal c args = printint upper (next_arg args) 10 true
  converted hexadecimal c args = printint upper (next_arg args) 16 false
  converted string c args = shown text (next_arg args)
  converted char c args = (next_arg args % 256) ∷ []
  converted percent c args = c ∷ []
  converted unknown c args = b'%' ∷ c ∷ []

  abbrev pub used : Conversion → List ℕ → List ℕ
  used percent args = args
  used unknown args = args
  used _ args = later_args args

  -- The loop of `printf`; `state` says whether a `%` has just been read.
  unfoldable pub printf : (state : Bool) → List ℕ → List ℕ → List ℕ
  printf state [] args = []
  printf false (c ∷ fmt) args =
      let opened = printf true fmt args in
      let rest = printf false fmt args in if c == b'%' then opened else c ∷ rest
  printf true (c ∷ fmt) args =
      converted (conversion c) c args ++ printf false fmt (used (conversion c) args)

  -- `cprintf`, which knows no `%c`.
  abbrev pub kernel_conversion : ℕ → Conversion
  kernel_conversion c =
      if c == b'd'
      then decimal
      else if c == b'x' || (c == b'p')
      then hexadecimal
      else if c == b's'
      then string
      else if c == b'%'
      then percent
      else unknown

  abbrev pub kernel_converted : Conversion → (c : ℕ) → List ℕ → List ℕ
  kernel_converted decimal c args = printint lower (next_arg args) 10 true
  kernel_converted hexadecimal c args = printint lower (next_arg args) 16 false
  kernel_converted string c args = shown text (next_arg args)
  kernel_converted char c args = []
  kernel_converted percent c args = b'%' ∷ []
  kernel_converted unknown c args = b'%' ∷ c ∷ []

  unfoldable pub cprintf : List ℕ → List ℕ → List ℕ
  cprintf [] args = []
  cprintf (c ∷ []) args = if c == b'%' then [] else c ∷ []
  cprintf (c ∷ d ∷ fmt) args =
      let plain = cprintf (d ∷ fmt) args in
      let rest = cprintf fmt (used (kernel_conversion d) args) in
      if c == b'%' then kernel_converted (kernel_conversion d) d args ++ rest else c ∷ plain

-- The loop of `atoi` from `n` on.
unfoldable pub atoi_from : ℕ → List ℕ → ℕ
atoi_from n [] = n
atoi_from n (c ∷ cs) = if leb 48 c && leb c 57 then atoi_from (n * 10 + (c - 48)) cs else n

unfoldable pub atoi : List ℕ → ℕ
atoi s = atoi_from 0 s
