-- ===== src/Semaphore/Overrun.antt =====
-- The test of the key and its decrement are two statements, and a waiting thread makes both without the
-- mutex: a thread on the fast path can come in between.
use ssuos_mminos.Base.{
  pos, minus_one, ℕ, ◌+◌, ◌≡◌, refl, ap, ◌∙◌, ◌≢◌, true, false, Option, none, some, arith,
}
use ssuos_mminos.Semaphore.{
  Sem, Pc, outside, locked, fast, fast_write, unlocking, spin, check, chosen, taking, taking_write,
  removing, Effect, act, down, after, System, move, Reach, here, later,
}

-- Thread `i` makes its next statement in `SSU_Sem_down`.
go_on :
    {s : System} (t : System) (i : ℕ) (p : Pc) (r : Effect)
    → Reach s t
    → t.pc i ≡ p
    → act false i t.sem p ≡ some r
    → Reach s (after t i r)
go_on t i p r reach at e = later reach (move i false r (ap (act false i t.sem) at ∙ e))

abbrev still : Sem → Pc → Effect
still s p = record { sem = s; pc = p; raised = 0; took = 0; returns = 0 }

abbrev takes : Sem → Pc → Effect
takes s p = record { sem = s; pc = p; raised = 0; took = 1; returns = 0 }

-- Thread `i` waits at the head of the queue and one key is there.
abbrev pub one_key :
    (i : ℕ) (next : ℕ → Option ℕ) (pc : ℕ → Pc) (ups taken : ℕ) (took_by returns_of : ℕ → ℕ)
    → System
one_key i next pc ups taken took_by returns_of = record {
  sem = record { key = pos 1; head = some i; next = next; mutex = none; wait_lock = false };
  pc = pc;
  ups = ups;
  taken = taken;
  took_by = took_by;
  returns_of = returns_of;
}

-- Thread `i` has seen the key, and thread `j` has taken it since.
abbrev key_taken :
    (i j : ℕ) (next : ℕ → Option ℕ) (pc : ℕ → Pc) (ups taken : ℕ) (took_by returns_of : ℕ → ℕ)
    → System
key_taken i j next pc ups taken took_by returns_of = record {
  sem = record { key = pos 0; head = some i; next = next; mutex = some j; wait_lock = false };
  pc = pc;
  ups = ups;
  taken = taken;
  took_by = took_by;
  returns_of = returns_of;
}

waiting_takes :
    {s : System} (i j : ℕ) (next : ℕ → Option ℕ) (pc : ℕ → Pc) (ups taken : ℕ)
    (took_by returns_of : ℕ → ℕ)
    → i ≢ j
    → Reach s (key_taken i j next pc ups taken took_by returns_of)
    → pc i ≡ check
    → pc j ≡ unlocking
    → (t : System) × Reach s t
      × (t.sem.key ≡ minus_one)
      × (t.taken ≡ taken + 1)
      × (t.ups ≡ ups)
      × (t.pc i ≡ removing)
      × (t.pc j ≡ unlocking)
unfolding act down
waiting_takes i j next pc ups taken took_by returns_of ne g₀ at_i at_j =
    let s₀ = key_taken i j next pc ups taken took_by returns_of in
    let r₁ = still s₀.sem chosen in
    let s₁ = after s₀ i r₁ in
    let g₁ = go_on s₀ i check r₁ g₀ at_i (ground arith) in
    let r₂ = still (record s₀.sem { wait_lock = true }) taking in
    let s₂ = after s₁ i r₂ in
    let g₂ = go_on s₁ i chosen r₂ g₁ (ground arith) refl in
    let r₃ = still r₂.sem (taking_write (pos 0)) in
    let s₃ = after s₂ i r₃ in
    let g₃ = go_on s₂ i taking r₃ g₂ (ground arith) refl in
    let r₄ = takes (record r₂.sem { key = minus_one }) removing in
    let s₄ = after s₃ i r₄ in
    let g₄ = go_on s₃ i (taking_write (pos 0)) r₄ g₃ (ground arith) refl in
    (s₄, g₄, refl, omega arith, omega arith, ground arith, ground (arith, at_j, ne))

calling_takes :
    (i j : ℕ) (next : ℕ → Option ℕ) (pc : ℕ → Pc) (ups taken : ℕ) (took_by returns_of : ℕ → ℕ)
    → i ≢ j
    → pc i ≡ spin
    → pc j ≡ outside
    → (pc' : ℕ → Pc) × (ups' taken' : ℕ) × (took_by' returns_of' : ℕ → ℕ) × Reach
        (one_key i next pc ups taken took_by returns_of)
        (key_taken i j next pc' ups' taken' took_by' returns_of')
      × (taken' ≡ taken + 1)
      × (ups' ≡ ups)
      × (pc' i ≡ check)
      × (pc' j ≡ unlocking)
unfolding act down
calling_takes i j next pc ups taken took_by returns_of ne at_i at_j =
    let s₀ = one_key i next pc ups taken took_by returns_of in
    let r₁ = still s₀.sem check in
    let s₁ = after s₀ i r₁ in
    let g₁ = go_on s₀ i spin r₁ here at_i refl in
    let r₂ = still (record s₀.sem { mutex = some j }) locked in
    let s₂ = after s₁ j r₂ in
    let g₂ = go_on s₁ j outside r₂ g₁ (ground (arith, at_j)) refl in
    let r₃ = still r₂.sem fast in
    let s₃ = after s₂ j r₃ in
    let g₃ = go_on s₂ j locked r₃ g₂ (ground arith) refl in
    let r₄ = still r₂.sem (fast_write (pos 1)) in
    let s₄ = after s₃ j r₄ in
    let g₄ = go_on s₃ j fast r₄ g₃ (ground arith) refl in
    let r₅ = takes (record r₂.sem { key = pos 0 }) unlocking in
    let s₅ = after s₄ j r₅ in
    let g₅ = go_on s₄ j (fast_write (pos 1)) r₅ g₄ (ground arith) refl in
    (
      s₅.pc,
      s₅.ups,
      s₅.taken,
      s₅.took_by,
      s₅.returns_of,
      g₅,
      omega arith,
      omega arith,
      ground (arith, ne),
      ground arith,
    )

-- When a thread waits at the head of the queue, one key is there, and another thread calls
-- `SSU_Sem_down`, both can take a key: the key is -1 then.
pub one_key-overrun :
    (i j : ℕ) (next : ℕ → Option ℕ) (pc : ℕ → Pc) (ups taken : ℕ) (took_by returns_of : ℕ → ℕ)
    → i ≢ j
    → pc i ≡ spin
    → pc j ≡ outside
    → (t : System) × Reach (one_key i next pc ups taken took_by returns_of) t
      × (t.sem.key ≡ minus_one)
      × (t.taken ≡ taken + 2)
      × (t.ups ≡ ups)
      × (t.pc i ≡ removing)
      × (t.pc j ≡ unlocking)
one_key-overrun i j next pc ups taken took_by returns_of ne at_i at_j =
    let (pc', ups', taken', took_by', returns_of', reach, more, same, at_check, at_end) =
      calling_takes i j next pc ups taken took_by returns_of ne at_i at_j in
    let (t, reach', key, taken_all, ups_all, at_i', at_j') =
      waiting_takes i j next pc' ups' taken' took_by' returns_of' ne reach at_check at_end in
    (t, reach', key, omega (arith, more, taken_all), ups_all ∙ same, at_i', at_j')
