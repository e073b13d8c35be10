-- ===== src/Proc/Sched.antt =====
-- `scheduler`: which process it switches to.
use ssuos_mminos.Base.{
  not-some, ltb, if◌then◌else◌, Bool-cases, Option-cases, ℕ, zero, suc, ◌+◌, ◌-◌, ◌≤◌, ◌<◌, ◌≡◌,
  refl, sym, ◌∙◌, ◌↔◌, inl, inr, Bool, false, ◌&&◌, Option, none, some, arith,
}
use native.Mathlib.Decide.{dec_lt}
use ssuos_mminos.Base.Loops.{find_below, find_below-some, find_below-none}
use ssuos_mminos.Proc.{nproc, runnable, running, Table, is_state, put}

-- `scheduler`, inner loop: `hp` goes to a RUNNABLE process of strictly higher priority.
unfoldable pub highest : Table → (rounds np hp : ℕ) → ℕ
highest t zero np hp = hp
highest t (suc n) np hp =
    let q = t.proc np in
    highest t n (np + 1)
      (if is_state q.state runnable && ltb (t.proc hp).priority q.priority then np else hp)

abbrev ready_at : Table → ℕ → ℕ → Bool
ready_at t p d = is_state (t.proc (p + d)).state runnable

-- The outer loop from index `p` on: the process that is switched to, or the end of the pass.
unfoldable pub choose : Table → (p : ℕ) → Option ℕ
unfolding highest
choose t p = elim (find_below (ready_at t p) (nproc - p)) [
  | none ↦ none
  | some d ↦ some (highest t nproc 0 (p + d))
]

-- before the switch to process `hp`, and when it has switched back
unfoldable pub dispatch : (hp : ℕ) → Table → Table
dispatch hp t = put t hp (record (t.proc hp) { state = running })

unfoldable pub switched_back : (hp : ℕ) → Table → Table
switched_back hp t = put t hp (record (t.proc hp) { nswitch = (t.proc hp).nswitch + 1 })

-- A process below `nproc` that may be switched to.
abbrev pub Ready : Table → ℕ → Type 0
Ready t i = (i < nproc) × ((t.proc i).state ≡ runnable)

highest-lem :
    (t : Table) (n np hp : ℕ)
    → np + n ≡ nproc
    → Ready t hp
    → Ready t (highest t n np hp)
      × ((t.proc hp).priority ≤ (t.proc (highest t n np hp)).priority)
      × ((q : ℕ) → np ≤ q → Ready t q → (t.proc q).priority ≤ (t.proc (highest t n np hp)).priority)
unfolding highest
highest-lem t zero np hp e ready = (ready, omega arith, λ q lo r. absurd (omega arith))
highest-lem t (suc n) np hp e ready =
    elim (Bool-cases
      (is_state (t.proc np).state runnable && ltb (t.proc hp).priority (t.proc np).priority)) [
        | inl better ↦
            let (r, le, max) =
              highest-lem t n (np + 1) np (omega arith) (omega arith, ground arith) in
            rw better (
              r,
              ground arith,
              λ q lo rq. elim (dec_lt np q) [
                | yes lt ↦ max q (omega arith) rq
                | no same ↦ let e' : q ≡ np = omega arith in rw e' le
              ],
            )
        | inr worse ↦
            let (r, le, max) = highest-lem t n (np + 1) hp (omega arith) ready in
            rw worse (
              r,
              le,
              λ q lo rq. elim (dec_lt np q) [
                | yes lt ↦ max q (omega arith) rq
                | no same ↦ let e' : q ≡ np = omega arith in ground arith
              ],
            )
      ]

choose-found :
    (t : Table) (p d : ℕ)
    → find_below (ready_at t p) (nproc - p) ≡ some d
    → choose t p ≡ some (highest t nproc 0 (p + d))
unfolding choose
choose-found t p d e = rw (e, choose)

choose-end : (t : Table) (p : ℕ) → find_below (ready_at t p) (nproc - p) ≡ none → choose t p ≡ none
unfolding choose
choose-end t p e = rw (e, choose)

-- The process that the scheduler switches to is RUNNABLE, and no RUNNABLE process has a higher
-- priority.
pub choose-highest :
    (t : Table) (p h : ℕ)
    → choose t p ≡ some h
    → Ready t h × ((q : ℕ) → Ready t q → (t.proc q).priority ≤ (t.proc h).priority)
choose-highest t p h e = elim (Option-cases (find_below (ready_at t p) (nproc - p))) [
  | inl none_left ↦ absurd (not-some (sym e ∙ choose-end t p none_left))
  | inr (d, found) ↦
      let (lt, on) = find_below-some (ready_at t p) (nproc - p) d found in
      let ready : Ready t (p + d) = (omega arith, ground arith) in
      let (r, le, max) = highest-lem t nproc 0 (p + d) refl ready in
      let at : highest t nproc 0 (p + d) ≡ h = cc (choose-found t p d found) in
      rw (← at) (r, λ q rq. max q (omega arith) rq)
]

-- A pass from the start of the table finds a process exactly when one is RUNNABLE.
pub choose-none : (t : Table) → (choose t 0 ≡ none) ↔ ((q : ℕ) → ¬ Ready t q)
choose-none t = (
  λ e q (lt, state). elim (Option-cases (find_below (ready_at t 0) nproc)) [
    | inl none_left ↦
        let zero-add : 0 + q ≡ q = omega arith in
        let off : is_state (t.proc q).state runnable ≡ false =
          rw zero-add at (find_below-none (ready_at t 0) nproc q none_left lt) in
        ground arith
    | inr (d, found) ↦ absurd (not-some (sym (choose-found t 0 d found) ∙ e))
  ],
  λ all. elim (Option-cases (find_below (ready_at t 0) nproc)) [
    | inl none_left ↦ choose-end t 0 none_left
    | inr (d, found) ↦
        let (lt, on) = find_below-some (ready_at t 0) nproc d found in
        let ready : Ready t (0 + d) = (omega arith, ground arith) in absurd (all (0 + d) ready)
  ],
)
