-- ===== src/Pipe/Tests.antt =====
-- A pipe that is written, read and written again.
use ssuos_mminos.Base.{length, ℕ, ◌≡◌, refl, ◌⊎◌, Bool, true, false, some, List, [], ◌∷◌, ◌++◌}
use ssuos_mminos.Pipe.{Pipe, pipealloc, pipewrite, piperead, read_loop, read, is_full}
use ssuos_mminos.Pipe.Cells.{Holds}
use ssuos_mminos.Pipe.Fifo.{
  System, Reach, here, later, writes, reads, start, pipe_after, left, Reach-fifo,
}

abbrev new_pipe : (p : Pipe) × (pipealloc true (some (λ i. 0)) ≡ some p)
new_pipe = (_, refl)

-- Three bytes are written and two of them read.
abbrev two_of_three : (s : System) × Reach (start new_pipe.0) s
unfolding pipewrite piperead read_loop
two_of_three = (
  _,
  later (later here (writes false (5 ∷ 6 ∷ 7 ∷ []) (5 ∷ 6 ∷ 7 ∷ []) refl))
      (reads false 2 (5 ∷ 6 ∷ []) _ refl),
)

Reach-fifo_example :
    (q : List ℕ) × Holds two_of_three.0.pipe q
    × (two_of_three.0.got ++ q ≡ two_of_three.0.sent)
    × ((killed : Bool) (bytes : List ℕ)
        → (left (pipewrite killed bytes two_of_three.0.pipe) ≡ [])
          ⊎ (is_full (pipe_after (pipewrite killed bytes two_of_three.0.pipe)) ≡ true))
    × ((killed : Bool) (n : ℕ) (bytes : List ℕ) (p' : Pipe)
        → piperead killed n two_of_three.0.pipe ≡ read bytes p'
        → (length bytes ≡ n) ⊎ (bytes ≡ q))
Reach-fifo_example = Reach-fifo (λ i. 0) new_pipe.0 new_pipe.1 two_of_three.1
