-- ===== src/Console/Tests.antt =====
-- "hi" is typed with a slip that is rubbed out, where the indices are about to wrap around.
use Prim.{tt}
use ssuos_mminos.Base.{
  ◌==◌, if◌then◌else◌, get_or, ℕ, zero, suc, ◌+◌, ◌%◌, ◌<◌, ◌≡◌, refl, Bool, false, List, [], ◌∷◌,
  ◌++◌, arith,
}
use ssuos_mminos.Console.{
  Input, returns, sleeps, consoleintr, consoleread, backspace, type_char, store,
}
use ssuos_mminos.Console.Cells.{Holds}
use ssuos_mminos.Console.Typing.{typed, Held, consoleintr-typed}
use ssuos_mminos.Console.Lines.{behind_eof, consoleread_lem}
use ssuos_mminos.Console.RoundTrip.{type_all, consoleread-type_all}

abbrev quiet : Input
quiet = record { buf = λ i. 0; r = 4294967295; w = 4294967295; e = 4294967295 }

quiet-Holds : Holds quiet [] []
quiet-Holds = record {
  r_fits = omega arith;
  w_at = refl;
  e_at = refl;
  room = omega arith;
  cells = λ i lt. absurd (omega (arith, lt));
}

rubbed_out :
    (c : Input) × (consoleread false false 9 (type_all (b'h' ∷ b'o' ∷ 127 ∷ b'i' ∷ 13 ∷ []) quiet)
      ≡ returns (b'h' ∷ b'i' ∷ 10 ∷ []) c)
unfolding consoleintr consoleread backspace type_char store
rubbed_out = (_, refl)

consoleintr-typed_example : Held (consoleintr b'h' quiet) (typed b'h' ([], []))
consoleintr-typed_example = consoleintr-typed b'h' quiet [] [] (quiet-Holds, refl)

consoleread-type_all_example :
    (c' : Input) × Holds c' [] []
    × (consoleread false false (2 + suc 6) (type_all (b'h' ∷ b'i' ∷ 13 ∷ []) quiet)
        ≡ returns (b'h' ∷ b'i' ∷ 10 ∷ []) c')
consoleread-type_all_example =
    consoleread-type_all false 6 (b'h' ∷ b'i' ∷ []) quiet quiet-Holds (refl, (refl, tt))
      (omega arith)

abbrev loaded : Input
loaded = record {
  buf = λ i. if i == 0 then b'h' else if i == 1 then b'i' else 10;
  r = 0;
  w = 3;
  e = 3;
}

loaded-Holds : Holds loaded (b'h' ∷ b'i' ∷ 10 ∷ []) []
loaded-Holds = record {
  r_fits = omega arith;
  w_at = refl;
  e_at = refl;
  room = omega arith;
  cells = cells_lem;
}
  where
    cells_lem :
        (i : ℕ) → i < 3 → loaded.buf ((0 + i) % 128) ≡ get_or ((b'h' ∷ b'i' ∷ 10 ∷ []) ++ []) i 0
    cells_lem zero lt = refl
    cells_lem (suc zero) lt = refl
    cells_lem (suc (suc zero)) lt = refl
    cells_lem (suc (suc (suc i))) lt = absurd (omega (arith, lt))

abbrev typed_end : List ℕ
typed_end = 10 ∷ []

consoleread_example :
    (c' : Input) × Holds c' typed_end []
    × ((killed : Bool) → consoleread killed false 2 loaded ≡ returns (b'h' ∷ b'i' ∷ []) c')
    × ((killed : Bool) (n : ℕ) (behind : List ℕ)
        → typed_end ≡ 10 ∷ behind
        → (c'' : Input) × Holds c'' behind []
          × (consoleread killed false (2 + suc n) loaded ≡ returns (b'h' ∷ b'i' ∷ 10 ∷ []) c''))
    × ((killed : Bool) (n : ℕ) (behind : List ℕ)
        → typed_end ≡ 4 ∷ behind
        → (c'' : Input) × Holds c'' (behind_eof (b'h' ∷ b'i' ∷ []) behind) []
          × (consoleread killed false (2 + suc n) loaded ≡ returns (b'h' ∷ b'i' ∷ []) c''))
    × ((n : ℕ)
        → typed_end ≡ []
        → consoleread false false (2 + suc n) loaded ≡ sleeps (b'h' ∷ b'i' ∷ []) c')
consoleread_example = consoleread_lem (b'h' ∷ b'i' ∷ []) typed_end [] loaded refl refl loaded-Holds
