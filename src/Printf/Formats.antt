-- ===== src/Printf/Formats.antt =====
-- What `printf` and `cprintf` print for a format, piece by piece.
use Prim.{Unit}
use ssuos_mminos.Base.{
  ltb, leb, ◌==◌, if◌then◌else◌, Bool-cases, ℕ, zero, suc, ◌+◌, ◌-◌, ◌/◌, ◌%◌, ◌≡◌, refl, ap, ◌∙◌,
  ◌≢◌, inl, inr, true, false, List, [], ◌∷◌, ◌++◌, map, arith, reverse,
}
use ssuos_mminos.Printf.{upper, lower, digits, buffer, printint, printf, cprintf}

-- A character, or a conversion with its argument.
pub data Piece : Type 0 where
  plain : ℕ → Piece
  number : ℕ → Piece
  hex : ℕ → Piece
  pointer : ℕ → Piece
  str : ℕ → Piece
  byte : ℕ → Piece
  percent_sign : Piece

abbrev pub format : List Piece → List ℕ
format [] = []
format (plain c ∷ ps) = c ∷ format ps
format (number w ∷ ps) = b'%' ∷ b'd' ∷ format ps
format (hex w ∷ ps) = b'%' ∷ b'x' ∷ format ps
format (pointer w ∷ ps) = b'%' ∷ b'p' ∷ format ps
format (str w ∷ ps) = b'%' ∷ b's' ∷ format ps
format (byte w ∷ ps) = b'%' ∷ b'c' ∷ format ps
format (percent_sign ∷ ps) = b'%' ∷ b'%' ∷ format ps

abbrev pub arguments : List Piece → List ℕ
arguments [] = []
arguments (plain c ∷ ps) = arguments ps
arguments (number w ∷ ps) = w ∷ arguments ps
arguments (hex w ∷ ps) = w ∷ arguments ps
arguments (pointer w ∷ ps) = w ∷ arguments ps
arguments (str w ∷ ps) = w ∷ arguments ps
arguments (byte w ∷ ps) = w ∷ arguments ps
arguments (percent_sign ∷ ps) = arguments ps

-- The character of a digit below 16, where `a` is the letter for 10.
abbrev pub numeral : (a d : ℕ) → ℕ
numeral a d = if ltb d 10 then b'0' + d else a + (d - 10)

-- A number in a base, the first digit in front; a round for each bit is enough.
pub numerals : (rounds a base w : ℕ) → List ℕ
numerals zero a base w = []
numerals (suc n) a base w =
    let front = numerals n a base (w / base) in
    (if w / base == 0 then [] else front) ++ numeral a (w % base) ∷ []

-- A word as a signed number in base 10: from 2 ^ 31 on it is negative.
abbrev pub signed : ℕ → List ℕ
signed w =
    if ltb w 2147483648 then numerals 32 b'a' 10 w else b'-' ∷ numerals 32 b'a' 10 (4294967296 - w)

abbrev null_text : List ℕ
null_text = b'(' ∷ b'n' ∷ b'u' ∷ b'l' ∷ b'l' ∷ b')' ∷ []

-- What is to be printed, with `a` for the digit 10: hexadecimal numbers are unsigned, and `(null)` stands
-- for the null pointer.
module _ (text : ℕ → List ℕ) (a : ℕ) where
  abbrev pub output : List Piece → List ℕ
  output [] = []
  output (plain c ∷ ps) = c ∷ output ps
  output (number w ∷ ps) = signed w ++ output ps
  output (hex w ∷ ps) = numerals 32 a 16 w ++ output ps
  output (pointer w ∷ ps) = numerals 32 a 16 w ++ output ps
  output (str w ∷ ps) = (if w == 0 then null_text else text w) ++ output ps
  output (byte w ∷ ps) = (w % 256) ∷ output ps
  output (percent_sign ∷ ps) = b'%' ∷ output ps

-- The characters outside of the conversions are no `%`; and there is no `%c`.
abbrev pub IsPlain : List Piece → Type 0
IsPlain [] = Unit {0}
IsPlain (plain c ∷ ps) = (c ≢ b'%') × IsPlain ps
IsPlain (_ ∷ ps) = IsPlain ps

abbrev pub NoByte : List Piece → Type 0
NoByte [] = Unit {0}
NoByte (byte w ∷ ps) = ⊥
NoByte (_ ∷ ps) = NoByte ps

digits-numerals :
    (a : ℕ) (digit : ℕ → ℕ) (base : ℕ) (same : (w : ℕ) → digit (w % base) ≡ numeral a (w % base))
    (n w : ℕ)
    → reverse (map digit (digits n base w)) ≡ numerals n a base w
unfolding digits numerals
digits-numerals a digit base same zero w = refl
digits-numerals a digit base same (suc n) w = elim (Bool-cases (w / base == 0)) [
  | inl last ↦ rw last (ap (λ d. d ∷ []) (same w))
  | inr more ↦ rw more (
      ap (λ l. l ++ digit (w % base) ∷ []) (digits-numerals a digit base same n (w / base))
      ∙ ap (λ d. numerals n a base (w / base) ++ d ∷ []) (same w))
]

upper-numeral : (d : ℕ) → upper d ≡ numeral b'A' d
upper-numeral d = ground arith

lower-numeral : (d : ℕ) → lower d ≡ numeral b'a' d
lower-numeral d = ground arith

printint-hex :
    (a : ℕ) (digit : ℕ → ℕ) (w : ℕ)
    → ((d : ℕ) → digit d ≡ numeral a d)
    → printint digit w 16 false ≡ numerals 32 a 16 w
unfolding printint buffer
printint-hex a digit w same = digits-numerals a digit 16 (λ v. same (v % 16)) 32 w

decimal_digit : (a w : ℕ) → numeral a (w % 10) ≡ numeral b'a' (w % 10)
decimal_digit a w = ground arith

reverse-snoc : (xs : List ℕ) (y : ℕ) → reverse (xs ++ y ∷ []) ≡ y ∷ reverse xs
reverse-snoc [] y = refl
reverse-snoc (x ∷ xs) y = ap (λ l. l ++ x ∷ []) (reverse-snoc xs y)

printint-signed :
    (a : ℕ) (digit : ℕ → ℕ) (w : ℕ)
    → ((d : ℕ) → digit d ≡ numeral a d)
    → printint digit w 10 true ≡ signed w
unfolding printint buffer
printint-signed a digit w same =
    let digit_same = λ (v : ℕ). same (v % 10) ∙ decimal_digit a v in
    elim (Bool-cases (ltb w 2147483648)) [
      | inl low ↦
          let not_high : leb 2147483648 w ≡ false = ground (arith, low) in
          rw (low, not_high) (digits-numerals b'a' digit 10 digit_same 32 w)
      | inr high ↦
          let is_high : leb 2147483648 w ≡ true = ground (arith, high) in
          rw (high, is_high)
            (reverse-snoc (map digit (digits 32 10 (4294967296 - w))) b'-'
              ∙ ap (λ l. b'-' ∷ l) (digits-numerals b'a' digit 10 digit_same 32 (4294967296 - w)))
    ]

module _ (text : ℕ → List ℕ) where
  printf-pieces :
      (ps : List Piece)
      → IsPlain ps
      → printf text false (format ps) (arguments ps) ≡ output text b'A' ps
  unfolding printf
  printf-pieces [] ok = refl
  printf-pieces (plain c ∷ ps) (ne, ok) = ground (arith, ne, printf-pieces ps ok)
  printf-pieces (number w ∷ ps) ok =
      ap (λ l. l ++ printf text false (format ps) (arguments ps))
        (printint-signed b'A' upper w upper-numeral)
      ∙ ap (λ l. signed w ++ l) (printf-pieces ps ok)
  printf-pieces (hex w ∷ ps) ok =
      ap (λ l. l ++ printf text false (format ps) (arguments ps))
        (printint-hex b'A' upper w upper-numeral)
      ∙ ap (λ l. numerals 32 b'A' 16 w ++ l) (printf-pieces ps ok)
  printf-pieces (pointer w ∷ ps) ok =
      ap (λ l. l ++ printf text false (format ps) (arguments ps))
        (printint-hex b'A' upper w upper-numeral)
      ∙ ap (λ l. numerals 32 b'A' 16 w ++ l) (printf-pieces ps ok)
  printf-pieces (str w ∷ ps) ok =
      ap (λ l. (if w == 0 then null_text else text w) ++ l) (printf-pieces ps ok)
  printf-pieces (byte w ∷ ps) ok = ap (λ l. (w % 256) ∷ l) (printf-pieces ps ok)
  printf-pieces (percent_sign ∷ ps) ok = ap (λ l. b'%' ∷ l) (printf-pieces ps ok)

  cprintf-plain :
      (c : ℕ) (fmt args : List ℕ)
      → c ≢ b'%'
      → cprintf text (c ∷ fmt) args ≡ c ∷ cprintf text fmt args
  unfolding cprintf
  cprintf-plain c [] args ne = ground (arith, ne)
  cprintf-plain c (d ∷ fmt) args ne = ground (arith, ne)

  cprintf-pieces :
      (ps : List Piece)
      → IsPlain ps
      → NoByte ps
      → cprintf text (format ps) (arguments ps) ≡ output text b'a' ps
  unfolding cprintf
  cprintf-pieces [] ok no_byte = refl
  cprintf-pieces (plain c ∷ ps) (ne, ok) no_byte =
      cprintf-plain c (format ps) (arguments ps) ne ∙ ap (λ l. c ∷ l) (cprintf-pieces ps ok no_byte)
  cprintf-pieces (number w ∷ ps) ok no_byte =
      ap (λ l. l ++ cprintf text (format ps) (arguments ps))
        (printint-signed b'a' lower w lower-numeral)
      ∙ ap (λ l. signed w ++ l) (cprintf-pieces ps ok no_byte)
  cprintf-pieces (hex w ∷ ps) ok no_byte =
      ap (λ l. l ++ cprintf text (format ps) (arguments ps))
        (printint-hex b'a' lower w lower-numeral)
      ∙ ap (λ l. numerals 32 b'a' 16 w ++ l) (cprintf-pieces ps ok no_byte)
  cprintf-pieces (pointer w ∷ ps) ok no_byte =
      ap (λ l. l ++ cprintf text (format ps) (arguments ps))
        (printint-hex b'a' lower w lower-numeral)
      ∙ ap (λ l. numerals 32 b'a' 16 w ++ l) (cprintf-pieces ps ok no_byte)
  cprintf-pieces (str w ∷ ps) ok no_byte =
      ap (λ l. (if w == 0 then null_text else text w) ++ l) (cprintf-pieces ps ok no_byte)
  cprintf-pieces (byte w ∷ ps) ok no_byte = elim no_byte [ ]
  cprintf-pieces (percent_sign ∷ ps) ok no_byte = ap (λ l. b'%' ∷ l) (cprintf-pieces ps ok no_byte)

-- For a format put together of characters other than `%` and of conversions, with their arguments, `printf`
-- prints the characters and the arguments in their order: a signed decimal number, a hexadecimal number with
-- capital letters, a string or `(null)`, or a byte. So does `cprintf`, with small letters in hexadecimal
-- numbers, when no conversion is `%c`.
pub printed :
    (text : ℕ → List ℕ) (ps : List Piece)
    → IsPlain ps
    → (printf text false (format ps) (arguments ps) ≡ output text b'A' ps)
      × (NoByte ps → cprintf text (format ps) (arguments ps) ≡ output text b'a' ps)
printed text ps ok = (printf-pieces text ps ok, cprintf-pieces text ps ok)
