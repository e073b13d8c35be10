-- ===== src/Proc/Life.antt =====
-- The life of a process: `kill`, `exit` and what its parent gets from `wait`.
use ssuos_mminos.Base.{
  ℤ, pos, minus_one, ◌==◌, if◌then◌else◌, Option-cases, ℕ, zero, suc, ◌+◌, ◌≤◌, ◌<◌, ◌≡◌, refl, sym,
  ap, ◌∙◌, ◌≢◌, ◌⊎◌, inl, inr, true, false, ◌&&◌, some, arith,
}
use native.Mathlib.Decide.{ℕ_discrete}
use ssuos_mminos.Base.Loops.{find_below, find_below-some, find_below-none}
use ssuos_mminos.Proc.Valid.{IsValid, dead_child, wait-reaped}
use ssuos_mminos.Proc.{
  nproc, sleeping, zombie, Chan, same_chan, Table, put, is_state, kill, exit, wait, reaped,
  clear_slot, parent_is, parent_chan, wakeup1, reparent, reparent_one,
}

-- What `kill` gives: no slot has the pid and nothing changes, or one slot does.
pub Killed : (pid : ℕ) → (t : Table) → ℤ × Table → Type 0
Killed pid t (r, t') =
    ((r ≡ minus_one) × (t' ≡ t) × ((j : ℕ) → j < nproc → (t.proc j).pid ≢ pid))
    ⊎ ((i : ℕ) × (i < nproc)
        × (r ≡ pos 0)
        × ((t.proc i).pid ≡ pid)
        × ((t'.proc i).killed ≡ true)
        × ((t'.proc i).state ≢ sleeping)
        × ((j : ℕ) → j < nproc → i ≢ j → ((t.proc j).pid ≢ pid) × (t'.proc j ≡ t.proc j)))

-- `kill` of a pid that is not 0 in a valid table: with no such process it returns -1; otherwise it
-- returns 0, and the one slot with the pid is marked and no longer SLEEPING.
pub kill-Killed : (pid : ℕ) (t : Table) → IsValid t → pid ≢ 0 → Killed pid t (kill pid t)
unfolding kill Killed
kill-Killed pid t v ne = elim (Option-cases (find_below (λ i. (t.proc i).pid == pid) nproc)) [
  | inl none_has ↦
      rw (none_has, kill)
        (inl (
          refl,
          refl,
          λ j lt. ground (arith, find_below-none (λ i. (t.proc i).pid == pid) nproc j none_has lt),
        ))
  | inr (i, e) ↦
      let (lt, on) = find_below-some (λ i. (t.proc i).pid == pid) nproc i e in
      let same : (t.proc i).pid ≡ pid = ground arith in
      rw (e, kill)
        (inr (
          i,
          lt,
          refl,
          same,
          ground arith,
          ground arith,
          λ j hj other.
              (λ e'. other (v.distinct i j lt hj (ground arith) (same ∙ sym e')), ground arith),
        ))
]

-- One round of `exit` changes the parent of slot `i` only.
reparent_one-parent :
    (initproc cur i : ℕ) (t : Table) (j : ℕ)
    → ((reparent_one initproc cur i t).proc j).parent
      ≡ (if i == j && parent_is (t.proc j).parent cur then some initproc else (t.proc j).parent)
unfolding reparent_one wakeup1
reparent_one-parent initproc cur i t j = ground arith

reparent-other :
    (initproc cur n i : ℕ) (t : Table) (j : ℕ)
    → parent_is (t.proc j).parent cur ≡ false
    → ((reparent initproc cur n i t).proc j).parent ≡ (t.proc j).parent
unfolding reparent
reparent-other initproc cur zero i t j e = refl
reparent-other initproc cur (suc n) i t j e =
    let one : ((reparent_one initproc cur i t).proc j).parent ≡ (t.proc j).parent =
      ground (arith, reparent_one-parent initproc cur i t j) in
    reparent-other initproc cur n (i + 1) (reparent_one initproc cur i t) j (rw one e) ∙ one

-- After the loop of `exit` no slot has the process as its parent.
reparent-parent :
    (initproc cur n i : ℕ) (t : Table) (j : ℕ)
    → initproc ≢ cur
    → i ≤ j
    → j < i + n
    → parent_is ((reparent initproc cur n i t).proc j).parent cur ≡ false
unfolding reparent
reparent-parent initproc cur zero i t j ne lo hi = absurd (omega arith)
reparent-parent initproc cur (suc n) i t j ne lo hi = elim (ℕ_discrete i j) [
  | yes here ↦
      let one : parent_is ((reparent_one initproc cur i t).proc j).parent cur ≡ false =
        ground (arith, reparent_one-parent initproc cur i t j) in
      rw (reparent-other initproc cur n (i + 1) (reparent_one initproc cur i t) j one) one
  | no there ↦
      reparent-parent initproc cur n (i + 1) (reparent_one initproc cur i t) j ne (omega arith)
        (omega arith)
]

-- A change of the table that keeps the channels and puts nobody to sleep.
abbrev Calmer : Table → Table → Type 0
Calmer t t' =
    (j : ℕ)
    → ((t'.proc j).chan ≡ (t.proc j).chan)
      × (is_state (t'.proc j).state sleeping ≡ true → is_state (t.proc j).state sleeping ≡ true)

reparent-Calmer : (initproc cur n i : ℕ) (t : Table) → Calmer t (reparent initproc cur n i t)
unfolding reparent reparent_one wakeup1
reparent-Calmer initproc cur zero i t j = (refl, λ e. e)
reparent-Calmer initproc cur (suc n) i t j =
    let (c, s) = reparent-Calmer initproc cur n (i + 1) (reparent_one initproc cur i t) j in
    (ground (arith, c), λ e. ground (arith, s e))

-- Nobody sleeps on channel `c`.
abbrev pub NoneAsleep : Chan → Table → Type 0
NoneAsleep c t =
    (j : ℕ)
    → j < nproc
    → is_state (t.proc j).state sleeping ≡ true
    → same_chan (t.proc j).chan c ≡ false

-- `wakeup` leaves nobody asleep on the channel.
pub wakeup1-NoneAsleep : (c : Chan) (t : Table) → NoneAsleep c (wakeup1 c t)
unfolding wakeup1
wakeup1-NoneAsleep c t j lt = ground arith

exit-other :
    (initproc cur : ℕ) (t : Table)
    → initproc ≢ cur
    → let t₂ = reparent initproc cur nproc 0 (wakeup1 (parent_chan (t.proc cur).parent) t) in
      exit initproc cur t ≡ some (put t₂ cur (record (t₂.proc cur) { state = zombie }))
unfolding exit
exit-other initproc cur t ne = let e : (cur == initproc) ≡ false = ground arith in rw (e, exit)

-- Every process but init can exit. It is a ZOMBIE then, no slot has it as its parent, and nobody
-- sleeps on the channel of its parent.
pub exit-leaves :
    (initproc cur : ℕ) (t : Table)
    → initproc ≢ cur
    → (t' : Table) × (exit initproc cur t ≡ some t')
      × ((t'.proc cur).state ≡ zombie)
      × ((j : ℕ) → j < nproc → parent_is (t'.proc j).parent cur ≡ false)
      × NoneAsleep (parent_chan (t.proc cur).parent) t'
exit-leaves initproc cur t ne =
    let t₁ = wakeup1 (parent_chan (t.proc cur).parent) t in
    let t₂ = reparent initproc cur nproc 0 t₁ in
    (
      put t₂ cur (record (t₂.proc cur) { state = zombie }),
      exit-other initproc cur t ne,
      ground arith,
      λ j lt.
          ground (arith, reparent-parent initproc cur nproc 0 t₁ j ne (omega arith) (omega arith)),
      λ j lt s. ground (
        arith,
        reparent-Calmer initproc cur nproc 0 t₁ j,
        wakeup1-NoneAsleep (parent_chan (t.proc cur).parent) t j lt,
      ),
    )

wait-reaps :
    (cur i : ℕ) (t : Table)
    → i < nproc
    → (t.proc i).parent ≡ some cur
    → (t.proc i).state ≡ zombie
    → (j : ℕ) × ((t.proc j).parent ≡ some cur)
      × (wait cur t ≡ reaped (t.proc j).pid (put t j (clear_slot (t.proc j))))
wait-reaps cur i t lt par st = elim (Option-cases (find_below (dead_child t cur) nproc)) [
  | inl none_dead ↦
      let off = find_below-none (dead_child t cur) nproc i none_dead lt in
      absurd (ground (arith, off, ap (λ o. parent_is o cur) par))
  | inr (j, e) ↦ let (_, p, _, w) = wait-reaped cur j t e in (j, p, w)
]

-- When a process other than init exits whose parent is another process, the next `wait` of the parent
-- does not sleep: it reaps a child of its own.
pub wait-exit :
    (initproc cur q : ℕ) (t : Table)
    → initproc ≢ cur
    → cur < nproc
    → q ≢ cur
    → (t.proc cur).parent ≡ some q
    → (t' : Table) × (exit initproc cur t ≡ some t')
      × ((j : ℕ) × ((t'.proc j).parent ≡ some q)
          × (wait q t' ≡ reaped (t'.proc j).pid (put t' j (clear_slot (t'.proc j)))))
unfolding wakeup1
wait-exit initproc cur q t ne lt neq par =
    let t₁ = wakeup1 (parent_chan (t.proc cur).parent) t in
    let t₂ = reparent initproc cur nproc 0 t₁ in
    let t' = put t₂ cur (record (t₂.proc cur) { state = zombie }) in
    let same : (t₂.proc cur).parent ≡ (t₁.proc cur).parent =
      reparent-other initproc cur nproc 0 t₁ cur (ground arith) in
    (t', exit-other initproc cur t ne, wait-reaps q cur t' lt (ground arith) (ground arith))
