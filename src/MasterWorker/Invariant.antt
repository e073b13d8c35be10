-- ===== src/MasterWorker/Invariant.antt =====
-- Every item is produced in order and consumed exactly once, and the buffer stays within its size.
use ssuos_mminos.Base.{
  ltb, ◌==◌, if◌then◌else◌, update, ℕ, zero, suc, ◌+◌, ◌-◌, ◌≤◌, ◌≡◌, refl, ap, ◌∙◌, ◌≢◌, true,
  List, [], ◌∷◌, arith,
}
use ssuos_mminos.MasterWorker.{
  Config, Shared, System, Step, Reach, master, worker, here, next, initial, generate_request,
  generate_work,
}

abbrev pub count : ℕ → List ℕ → ℕ
count x [] = 0
count x (y ∷ ys) = if x == y then suc (count x ys) else count x ys

-- the `n` items in the buffer, the last one first
abbrev pub contents : (ℕ → ℕ) → ℕ → List ℕ
contents b zero = []
contents b (suc n) = b n ∷ contents b n

-- n - 1, …, 1, 0
abbrev pub down_from : ℕ → List ℕ
down_from zero = []
down_from (suc n) = n ∷ down_from n

contents-above : (b : ℕ → ℕ) (n k v : ℕ) → n ≤ k → contents (update b k v) n ≡ contents b n
contents-above b zero k v h = refl
contents-above b (suc n) k v h = ground (arith, contents-above b n k v)

contents-pred : (b : ℕ → ℕ) (n : ℕ) → n ≢ 0 → contents b n ≡ b (n - 1) ∷ contents b (n - 1)
contents-pred b zero h = absurd (h refl)
contents-pred b (suc n) h = ap (λ k. b k ∷ contents b k) (omega arith)

contents-add-one : (b : ℕ → ℕ) (n : ℕ) → contents b (n + 1) ≡ b n ∷ contents b n
contents-add-one b n =
    contents-pred b (n + 1) (omega arith) ∙ ap (λ k. b k ∷ contents b k) (omega arith)

down_from-add-one : (n : ℕ) → down_from (n + 1) ≡ n ∷ down_from n
down_from-add-one n = let e : n + 1 ≡ suc n = omega arith in ap down_from e

abbrev pub in_buffer : Shared → List ℕ
in_buffer s = contents s.buffer s.curr_buf_size

pub record Inv (c : Config) (s : System) : Type 0 where
  pub within : s.shared.curr_buf_size ≤ c.max_buf_size
  pub bounded : s.shared.item_to_produce ≤ c.total_items
  pub in_order : s.produced ≡ down_from s.shared.item_to_produce
  pub once :
      (x : ℕ)
      → count x s.consumed + count x (in_buffer s.shared)
        ≡ (if ltb x s.shared.item_to_produce then 1 else 0)
  pub master_ends : (i : ℕ) → s.master_done i ≡ true → c.total_items ≤ s.shared.item_to_produce
  pub worker_ends :
      (j : ℕ)
      → s.worker_done j ≡ true
      → (c.total_items ≤ s.shared.item_to_produce) × (s.shared.curr_buf_size ≡ 0)

initial-Inv : (c : Config) → Inv c initial
initial-Inv c = record {
  within = omega arith;
  bounded = omega arith;
  in_order = refl;
  once = λ x. ground arith;
  master_ends = λ i h. cc;
  worker_ends = λ j h. cc;
}

pub Step-Inv : {c : Config} {s t : System} → Step c s t → Inv c s → Inv c t
unfolding generate_request generate_work
Step-Inv {c} {s} (master i lt live) v =
    let b = s.shared.buffer in
    let n = s.shared.curr_buf_size in
    let k = s.shared.item_to_produce in
    record {
      within = ground arith;
      bounded = ground arith;
      in_order = ground (arith, down_from-add-one k);
      once =
          λ x. ground (arith, v.once x, contents-add-one (update b n k) n, contents-above b n n k);
      master_ends = λ a h. ground (arith, v.master_ends a);
      worker_ends = λ a h. ground (arith, v.worker_ends a);
    }
Step-Inv {c} {s} (worker j lt live) v =
    let b = s.shared.buffer in
    let n = s.shared.curr_buf_size in
    record {
      within = ground arith;
      bounded = ground arith;
      in_order = ground arith;
      once = λ x. ground (arith, v.once x, contents-pred b n);
      master_ends = λ a h. ground (arith, v.master_ends a);
      worker_ends = λ a h. ground (arith, v.worker_ends a);
    }

pub Reach-Inv : {c : Config} {s : System} → Reach c initial s → Inv c s
Reach-Inv {c} here = initial-Inv c
Reach-Inv (next r st) = Step-Inv st (Reach-Inv r)

-- In every reachable state the buffer holds no more than `max_buf_size` items, the masters have
-- produced 0, 1, … in order, and each of the items produced has been consumed, or is in the
-- buffer, exactly once, and no other item has.
pub exactly_once :
    {c : Config} {s : System}
    → Reach c initial s
    → (s.shared.curr_buf_size ≤ c.max_buf_size)
      × (s.produced ≡ down_from s.shared.item_to_produce)
      × ((x : ℕ)
          → count x s.consumed + count x (in_buffer s.shared)
            ≡ (if ltb x s.shared.item_to_produce then 1 else 0))
exactly_once r = let v = Reach-Inv r in (v.within, v.in_order, v.once)

-- Once any worker has left its loop, each item below `total_items` has been consumed exactly once,
-- no other item has been consumed, and the buffer is empty.
pub all_consumed :
    {c : Config} {s : System}
    → Reach c initial s
    → (j : ℕ) → s.worker_done j ≡ true
    → (s.shared.curr_buf_size ≡ 0)
      × ((x : ℕ) → count x s.consumed ≡ (if ltb x c.total_items then 1 else 0))
all_consumed {c} {s} r j done =
    let v = Reach-Inv r in
    let (all, empty) = v.worker_ends j done in
    let produced : s.shared.item_to_produce ≡ c.total_items = omega (arith, v.bounded) in
    (empty, λ x. ground (arith, v.once x))
