-- ===== src/MasterWorker/Tests.antt =====
-- The theorems at a run of one master and one worker.
use ssuos_mminos.Base.{
  ltb, if◌then◌else◌, update, ℕ, ◌+◌, ◌≤◌, ◌≡◌, refl, false, List, [], ◌∷◌, arith,
}
use ssuos_mminos.MasterWorker.{
  Config, System, Reach, master, worker, here, next, initial, generate_request, generate_work,
}
use ssuos_mminos.MasterWorker.Invariant.{count, down_from, exactly_once}
use ssuos_mminos.MasterWorker.Progress.{can_finish, no_buffer_no_end}

abbrev pair : Config
pair = record { total_items = 1; max_buf_size = 1; num_workers = 1; num_masters = 1 }

abbrev Run : Config → Type 0
Run c = (s : System) × Reach c initial s

-- the item is produced
abbrev produced : Run pair
unfolding generate_request
produced = (_, next here (master 0 (omega arith) refl))

-- it is consumed, and the worker ends
abbrev ended : Run pair
unfolding generate_request generate_work
ended = (_, next (next produced.1 (worker 0 (omega arith) refl)) (worker 0 (omega arith) refl))

exactly_once_example :
    (1 ≤ 1)
    × (◌≡◌ {A = List ℕ} (0 ∷ []) (down_from 1))
    × ((x : ℕ) → count x [] + count x (0 ∷ []) ≡ (if ltb x 1 then 1 else 0))
unfolding generate_request
exactly_once_example = exactly_once produced.1

can_finish_example :
    (t : System) × Reach pair initial t
    × (t.shared.item_to_produce ≡ 1)
    × (t.shared.curr_buf_size ≡ 0)
can_finish_example = can_finish {c = pair} (omega arith) (omega arith) (omega arith) here

abbrev no_room : Config
no_room = record pair { max_buf_size = 0 }

no_buffer_no_end_example :
    (◌≡◌ {A = ℕ} 0 0)
    × ((i : ℕ) → update (λ j. false) 0 false i ≡ false)
    × ((j : ℕ) → false ≡ false)
unfolding generate_request
no_buffer_no_end_example =
    no_buffer_no_end {c = no_room} refl (omega arith) (next here (master 0 (omega arith) refl))
