-- ===== src/Proc/Query.antt =====
-- `get_num_proc`, `get_max_pid` and `get_proc_info`, the system calls that the project added.
use ssuos_mminos.Base.{
  ℤ, pos, minus_one, ltb, leb, ◌==◌, if◌then◌else◌, Bool-cases, ℕ, zero, suc, ◌+◌, ◌≤◌, ◌<◌, ◌≡◌,
  refl, sym, ◌≢◌, ◌⊎◌, inl, inr, Bool, true, false, not, ◌&&◌, none, some, arith,
}
use native.Mathlib.Decide.{dec_lt, ℕ_discrete}
use ssuos_mminos.Base.Loops.{find_below, find_below-some}
use ssuos_mminos.Proc.Valid.{IsValid, Slot, fork-Numbered}
use ssuos_mminos.Proc.{unused, is_state, fork, nproc, Table}

-- The loop of `get_num_proc`.
pub num_from : Table → (rounds i num : ℕ) → ℕ
num_from t zero i num = num
num_from t (suc n) i num = num_from t n (i + 1) (if (t.proc i).pid == 0 then num else num + 1)

unfoldable pub get_num_proc : Table → ℕ
get_num_proc t = num_from t nproc 0 0

-- The loop of `get_max_pid`.
pub max_from : Table → (rounds i max : ℕ) → ℕ
max_from t zero i max = max
max_from t (suc n) i max =
    let p = t.proc i in
    max_from t n (i + 1) (if not (p.pid == 0) && ltb max p.pid then p.pid else max)

unfoldable pub get_max_pid : Table → ℕ
get_max_pid t = max_from t nproc 0 0

-- `struct processInfo`
pub record ProcessInfo : Type 0 where
  pub pid : ℕ
  pub ppid : ℕ
  pub psize : ℕ
  pub nswitch : ℕ

-- The result and what is written through the pointer; nothing is when the pid is not there.
unfoldable pub get_proc_info : (pid : ℕ) → Table → ProcessInfo → ℤ × ProcessInfo
get_proc_info pid t info = elim (find_below (λ i. (t.proc i).pid == pid) nproc) [
  | none ↦ (minus_one, info)
  | some i ↦
      let p = t.proc i in
      (pos 0, record { pid = p.pid; ppid = p.ppid; psize = p.sz; nswitch = p.nswitch })
]

max_from-bound :
    (t : Table) (n i max j : ℕ)
    → (max ≤ max_from t n i max) × (i ≤ j → j < i + n → (t.proc j).pid ≤ max_from t n i max)
unfolding max_from
max_from-bound t zero i max j = (omega arith, λ lo hi. absurd (omega arith))
max_from-bound t (suc n) i max j =
    elim (Bool-cases (not ((t.proc i).pid == 0) && ltb max (t.proc i).pid)) [
      | inl more ↦
          let (le, all) = max_from-bound t n (i + 1) (t.proc i).pid j in
          rw more (
            ground arith,
            λ lo hi. elim (dec_lt i j) [
              | yes lt ↦ all (omega arith) (omega arith)
              | no same ↦ let e : j ≡ i = omega arith in rw e le
            ],
          )
      | inr less ↦
          let (le, all) = max_from-bound t n (i + 1) max j in
          rw less (
            le,
            λ lo hi. elim (dec_lt i j) [
              | yes lt ↦ all (omega arith) (omega arith)
              | no same ↦ let e : j ≡ i = omega arith in ground arith
            ],
          )
    ]

max_from-attained :
    (t : Table) (n i max : ℕ)
    → (max_from t n i max ≡ max) ⊎ ((j : ℕ) × (j < i + n) × ((t.proc j).pid ≡ max_from t n i max))
unfolding max_from
max_from-attained t zero i max = inl refl
max_from-attained t (suc n) i max =
    elim (Bool-cases (not ((t.proc i).pid == 0) && ltb max (t.proc i).pid)) [
      | inl more ↦ rw more (elim (max_from-attained t n (i + 1) (t.proc i).pid) [
        | inl e ↦ inr (i, omega arith, sym e)
        | inr (j, lt, e) ↦ inr (j, omega arith, e)
      ])
      | inr less ↦ rw less (elim (max_from-attained t n (i + 1) max) [
        | inl e ↦ inl e
        | inr (j, lt, e) ↦ inr (j, omega arith, e)
      ])
    ]

-- `get_max_pid` returns a pid of the table that no other pid exceeds, or 0 when every slot has
-- pid 0.
pub get_max_pid_lem :
    (t : Table)
    → ((j : ℕ) → j < nproc → (t.proc j).pid ≤ get_max_pid t)
      × ((get_max_pid t ≡ 0) ⊎ ((j : ℕ) × (j < nproc) × ((t.proc j).pid ≡ get_max_pid t)))
unfolding get_max_pid
get_max_pid_lem t = (
  λ j lt. (max_from-bound t nproc 0 0 j).1 (omega arith) (omega arith),
  max_from-attained t nproc 0 0,
)

num_from-add : (t : Table) (n i num : ℕ) → num_from t n i (num + 1) ≡ num_from t n i num + 1
unfolding num_from
num_from-add t zero i num = refl
num_from-add t (suc n) i num = elim (Bool-cases ((t.proc i).pid == 0)) [
  | inl e ↦ rw e (num_from-add t n (i + 1) num)
  | inr e ↦ rw e (num_from-add t n (i + 1) (num + 1))
]

-- Slot `s`, that had pid 0, has got a pid; the other slots keep theirs.
num_from-new :
    (t t' : Table) (n i num s q : ℕ)
    → ((j : ℕ) → (t'.proc j).pid ≡ (if s == j then q else (t.proc j).pid))
    → q ≢ 0
    → (t.proc s).pid ≡ 0
    → num_from t' n i num ≡ num_from t n i num + (if leb i s && ltb s (i + n) then 1 else 0)
unfolding num_from
num_from-new t t' zero i num s q h ne e = ground arith
num_from-new t t' (suc n) i num s q h ne e = elim (ℕ_discrete s i) [
  | yes here ↦
      let at : ((t'.proc i).pid == 0) ≡ false = ground (arith, h i) in
      let was : ((t.proc i).pid == 0) ≡ true = ground (arith, e) in
      let rest = num_from-new t t' n (i + 1) (num + 1) s q h ne e in
      rw (at, was) (ground (arith, rest, num_from-add t n (i + 1) num))
  | no there ↦
      let at : (t'.proc i).pid ≡ (t.proc i).pid = ground (arith, h i) in
      let rest =
        num_from-new t t' n (i + 1) (if (t.proc i).pid == 0 then num else num + 1) s q h ne e in
      rw at (ground (arith, rest))
]

-- When the first UNUSED slot of a valid table has pid 0, a call of `fork` adds one to `get_num_proc`, also when it
-- fails for want of memory and returns -1.
pub fork-counts :
    (k c : Bool) (cur i : ℕ) (t : Table)
    → IsValid t
    → Slot t i
    → (t.proc i).pid ≡ 0
    → get_num_proc (fork k c cur t).1 ≡ get_num_proc t + 1
unfolding get_num_proc
fork-counts k c cur i t v e zero_pid =
    let (lt, on) = find_below-some (λ j. is_state (t.proc j).state unused) nproc i e in
    let (next, ids) = fork-Numbered k c cur t i e in
    let count =
      num_from-new t (fork k c cur t).1 nproc 0 0 i t.nextpid (λ j. (ids j).0)
        (omega (arith, v.started)) zero_pid in
    ground (arith, count)

-- In a valid table `get_max_pid` is below the next pid.
pub get_max_pid-fresh : (t : Table) → IsValid t → get_max_pid t < t.nextpid
get_max_pid-fresh t v = elim (get_max_pid_lem t).1 [
  | inl e ↦ omega (arith, e, v.started)
  | inr (j, lt, e) ↦ omega (arith, e, v.fresh j)
]
