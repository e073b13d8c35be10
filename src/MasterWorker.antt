-- ===== src/MasterWorker.antt =====
-- 설계 4/1/master-worker.c: masters produce the items 0, 1, 2, … into a bounded buffer, workers take
-- them out. All shared state is used under one mutex, so a round of a thread's loop is one step.
-- The counts on the command line are not negative.
pub mod Invariant
pub mod Progress
mod Tests
use ssuos_mminos.Base.{
  leb, ◌==◌, if◌then◌else◌, update, ℕ, ◌+◌, ◌-◌, ◌<◌, ◌≡◌, Bool, true, false, Option, none, some,
  List, [], ◌∷◌,
}

pub record Config : Type 0 where
  pub total_items : ℕ
  pub max_buf_size : ℕ
  pub num_workers : ℕ
  pub num_masters : ℕ

-- the globals under the mutex
pub record Shared : Type 0 where
  pub item_to_produce : ℕ
  pub curr_buf_size : ℕ
  pub buffer : ℕ → ℕ

-- Whether the loop ends, the item that is printed, and the shared state after the round.
pub record Round : Type 0 where
  pub stop : Bool
  pub item : Option ℕ
  pub shared : Shared

abbrev round : Bool → Option ℕ → Shared → Round
round b o s = record { stop = b; item = o; shared = s }

-- one round of `generate_requests_loop`
unfoldable pub generate_request : Config → Shared → Round
generate_request c s =
    if leb c.total_items s.item_to_produce
    then round true none s
    else if leb c.max_buf_size s.curr_buf_size
    then round false none s
    else round false (some s.item_to_produce) (record {
      buffer = update s.buffer s.curr_buf_size s.item_to_produce;
      curr_buf_size = s.curr_buf_size + 1;
      item_to_produce = s.item_to_produce + 1;
    })

-- one round of `generate_working_loop`
unfoldable pub generate_work : Config → Shared → Round
generate_work c s =
    if s.curr_buf_size == 0
    then if leb c.total_items s.item_to_produce then round true none s else round false none s
    else round false (some (s.buffer (s.curr_buf_size - 1)))
        (record s { curr_buf_size = s.curr_buf_size - 1 })

-- The threads that have left their loop, and what has been printed, latest first.
pub record System : Type 0 where
  pub shared : Shared
  pub master_done : ℕ → Bool
  pub worker_done : ℕ → Bool
  pub produced : List ℕ
  pub consumed : List ℕ

abbrev pub print : Option ℕ → List ℕ → List ℕ
print none l = l
print (some x) l = x ∷ l

abbrev pub after_master : System → ℕ → Round → System
after_master s i r = record s {
  shared = r.shared;
  master_done = update s.master_done i r.stop;
  produced = print r.item s.produced;
}

abbrev pub after_worker : System → ℕ → Round → System
after_worker s j r = record s {
  shared = r.shared;
  worker_done = update s.worker_done j r.stop;
  consumed = print r.item s.consumed;
}

-- Any thread that has not left its loop may take the mutex next.
pub data Step (c : Config) (s : System) : System → Type 0 where
  master :
      (i : ℕ)
      → i < c.num_masters
      → s.master_done i ≡ false
      → Step c s (after_master s i (generate_request c s.shared))
  worker :
      (j : ℕ)
      → j < c.num_workers
      → s.worker_done j ≡ false
      → Step c s (after_worker s j (generate_work c s.shared))

-- `main`, when it has created the threads
abbrev pub initial : System
initial = record {
  shared = record { item_to_produce = 0; curr_buf_size = 0; buffer = λ i. 0 };
  master_done = λ i. false;
  worker_done = λ j. false;
  produced = [];
  consumed = [];
}

pub data Reach (c : Config) (s : System) : System → Type 0 where
  here : Reach c s s
  next : {t u : System} → Reach c s t → Step c t u → Reach c s u
