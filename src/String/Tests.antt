-- ===== src/String/Tests.antt =====
-- A string and overlapping bytes.
use ssuos_mminos.Base.{ℕ, ◌≡◌, refl, inl, inr, some, arith}
use ssuos_mminos.String.{memmove, strlen, safestrcpy}
use ssuos_mminos.String.Move.{moved, memmove-moved}
use ssuos_mminos.String.Copy.{Copied, strlen-safestrcpy}

-- byte `i` is `i`
abbrev numbers : ℕ → ℕ
numbers i = i

memmove-moved_example : memmove 2 0 5 numbers 4 ≡ moved 2 0 5 numbers 4
memmove-moved_example = memmove-moved 2 0 5 numbers 4

strlen-safestrcpy_example :
    Copied 30 5 3 4 numbers (safestrcpy 30 5 4 numbers)
    × (strlen 4 30 (safestrcpy 30 5 4 numbers) ≡ some 3)
strlen-safestrcpy_example =
    strlen-safestrcpy 30 5 4 3 numbers (omega arith) (λ i lt e. omega (arith, e)) (inl refl)
      (inr (omega arith))
