-- ===== src/Printf/Tests.antt =====
-- "pid 407\n" and its number.
use ssuos_mminos.Base.{◌≡◌, refl, true, false, List, [], ◌∷◌, ◌++◌, arith}
use ssuos_mminos.Printf.{upper, printint, atoi, buffer, digits, printf, cprintf}
use ssuos_mminos.Printf.Numbers.{atoi-printint}
use ssuos_mminos.Printf.Formats.{
  Piece, plain, number, hex, format, arguments, output, NoByte, printed,
}

most_negative :
    printint upper 2147483648 10 true
    ≡ b'-' ∷ b'2' ∷ b'1' ∷ b'4' ∷ b'7' ∷ b'4' ∷ b'8' ∷ b'3' ∷ b'6' ∷ b'4' ∷ b'8' ∷ []
unfolding printint buffer digits
most_negative = refl

atoi-printint_example : atoi (printint upper 407 10 true ++ b' ' ∷ []) ≡ 407
atoi-printint_example = atoi-printint 407 true (b' ' ∷ []) (omega arith) refl

abbrev pieces : List Piece
pieces = plain b'p' ∷ plain b' ' ∷ number 407 ∷ hex 255 ∷ []

printed_example :
    (printf (λ a. []) false (format pieces) (arguments pieces) ≡ output (λ a. []) b'A' pieces)
    × (NoByte pieces
        → cprintf (λ a. []) (format pieces) (arguments pieces) ≡ output (λ a. []) b'a' pieces)
printed_example = printed (λ a. []) pieces (omega arith)
