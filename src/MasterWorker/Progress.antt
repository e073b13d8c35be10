-- ===== src/MasterWorker/Progress.antt =====
-- The run can always be completed when there is a buffer, a master and a worker, and never ends
-- without a buffer.
use ssuos_mminos.Base.{
  ◌==◌, Bool-cases, ℕ, zero, suc, ◌+◌, ◌-◌, ◌*◌, ◌≤◌, ◌<◌, ◌≡◌, refl, inl, inr, false, arith,
}
use native.Mathlib.Decide.{dec_lt}
use ssuos_mminos.MasterWorker.{
  Config, System, Step, Reach, master, worker, here, next, initial, generate_request, generate_work,
}
use ssuos_mminos.MasterWorker.Invariant.{Inv, Step-Inv, Reach-Inv}

-- items to produce, counted twice, and items in the buffer
abbrev pub remaining : Config → System → ℕ
remaining c s = 2 * (c.total_items - s.shared.item_to_produce) + s.shared.curr_buf_size

Reach-first : {c : Config} {s t u : System} → Step c s t → Reach c t u → Reach c s u
Reach-first st here = next here st
Reach-first st (next r st') = next (Reach-first st r) st'

module _ {c : Config} (buffer : 0 < c.max_buf_size) (masters : 0 < c.num_masters)
    (workers : 0 < c.num_workers) where
  -- While work remains some thread's next round does a part of it.
  progress :
      {s : System}
      → Inv c s
      → 0 < remaining c s
      → (t : System) × Step c s t × (remaining c t < remaining c s)
  unfolding generate_request generate_work
  progress {s} v more = elim (Bool-cases (s.shared.curr_buf_size == 0)) [
    | inl empty ↦
        let live : s.master_done 0 ≡ false = elim (Bool-cases (s.master_done 0)) [
          | inl done ↦ absurd (ground (arith, v.master_ends 0 done))
          | inr live ↦ live
        ] in
        (_, master 0 masters live, ground arith)
    | inr some_left ↦
        let live : s.worker_done 0 ≡ false = elim (Bool-cases (s.worker_done 0)) [
          | inl done ↦ absurd (ground (arith, v.worker_ends 0 done))
          | inr live ↦ live
        ] in
        (_, worker 0 workers live, ground arith)
  ]

  finish :
      (n : ℕ) {s : System}
      → Inv c s
      → remaining c s ≤ n
      → (t : System) × Reach c s t × (remaining c t ≡ 0) × Inv c t
  finish zero {s} v le = (s, here, omega arith, v)
  finish (suc n) {s} v le = elim (dec_lt 0 (remaining c s)) [
    | no done ↦ (s, here, omega arith, v)
    | yes more ↦
        let (t, st, less) = progress v more in
        let (u, r, done, v') = finish n (Step-Inv st v) (omega arith) in
        (u, Reach-first st r, done, v')
  ]

  -- With room for an item, a master and a worker, every reachable state leads to one in which all
  -- items have been produced and taken out of the buffer.
  pub can_finish :
      {s : System}
      → Reach c initial s
      → (t : System) × Reach c s t
        × (t.shared.item_to_produce ≡ c.total_items)
        × (t.shared.curr_buf_size ≡ 0)
  can_finish {s} r =
      let (t, r', done, v) = finish (remaining c s) (Reach-Inv r) (omega arith) in
      (t, r', omega (arith, v.bounded), omega arith)

-- With `max_buf_size` 0 and items to produce, nothing is ever produced and no thread ends, in any reachable state.
pub no_buffer_no_end :
    {c : Config} {s : System}
    → c.max_buf_size ≡ 0
    → 0 < c.total_items
    → Reach c initial s
    → (s.shared.item_to_produce ≡ 0)
      × ((i : ℕ) → s.master_done i ≡ false)
      × ((j : ℕ) → s.worker_done j ≡ false)
unfolding generate_request generate_work
no_buffer_no_end none_fit some_items here = (refl, λ i. refl, λ j. refl)
no_buffer_no_end none_fit some_items (next r (master i lt live)) =
    let (zero_made, masters, workers) = no_buffer_no_end none_fit some_items r in
    (ground arith, λ a. ground (arith, masters a), workers)
no_buffer_no_end none_fit some_items (next r (worker j lt live)) =
    let (zero_made, masters, workers) = no_buffer_no_end none_fit some_items r in
    let v = Reach-Inv r in (ground arith, masters, λ a. ground (arith, workers a, v.within))
