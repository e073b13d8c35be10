-- ===== src/Log/Atomic.antt =====
-- A power failure in `end_op`, and restarts after it.
use ssuos_mminos.Base.{
  ltb, ◌==◌, if◌then◌else◌, Bool-cases, ℕ, ◌-◌, ◌≤◌, ◌<◌, ◌≡◌, sym, ◌∙◌, inl, inr, Bool, true, ◌&&◌,
  some, List, arith,
}
use mathlib.Core.Path.{subst}
use ssuos_mminos.Log.{Log, Machine, end_op, commit, initlog, restart}
use ssuos_mminos.Log.Replay.{Home, replayed, Sound, replayed-empty, empty-Sound}
use ssuos_mminos.Log.Recover.{restarts, restarts-same, initlog-Recovered}
use ssuos_mminos.Log.Commit.{InTransaction, commit-Committed}
use ssuos_mminos.Log.Runs.{
  System, Reach, booted, booted-InTransaction, Reach-InTransaction, same_log,
}

-- What a recovery that is not cut off gives, after any number that are.
recovered :
    (start size : ℕ) (ks : List ℕ) (last : ℕ) (d : ℕ → ℕ → ℕ)
    → Sound start size d
    → size ≤ last
    → (b : ℕ) → Home start size b
    → (initlog start size (restart last (restarts start size ks d))).1.disk b ≡ replayed start d b
recovered start size ks last d v enough b home =
    let d' = restarts start size ks d in
    let (sound, same) = restarts-same start size ks d v in
    let r = initlog-Recovered start size last d' sound in
    sym (
      replayed-empty start (initlog start size (restart last d')).1.disk b
        (r.erased (omega (arith, sound.fits))))
    ∙ r.same b home
    ∙ same b home

-- `end_op` with the power for `k` writes: the disk stands for the new blocks if this call commits and
-- the header gets written.
abbrev pub commits : Log → Bool
commits l = l.outstanding - 1 == 0

end_op-stands_for :
    (l l' : Log) (m m' : Machine)
    → InTransaction l m
    → end_op l m ≡ some (l', m')
    → Sound l.start l.size m'.disk
      × ((b : ℕ)
          → Home l.start l.size b
          → replayed l.start m'.disk b
            ≡ (if commits l && ltb l.lh.n m.power then m.data_of b else m.disk b))
unfolding end_op
end_op-stands_for l l' m m' v e = elim (Bool-cases l.committing) [
  | inl busy ↦ absurd (ground (arith, e, busy))
  | inr free ↦ elim (Bool-cases (commits l)) [
    | inr others ↦
        let eq : m' ≡ m = ground (arith, e, free, others) in
        subst
          (λ x.
            Sound l.start l.size x.disk
            × ((b : ℕ)
                → Home l.start l.size b
                → replayed l.start x.disk b
                  ≡ (if commits l && ltb l.lh.n m.power then m.data_of b else m.disk b)))
          (sym eq)
          (
            empty-Sound l.start l.size m.disk v.head_empty (omega (arith, v.fits)),
            λ b home. rw others (replayed-empty l.start m.disk b v.head_empty),
          )
    | inl last ↦
        let committing = record l { outstanding = l.outstanding - 1; committing = true } in
        let done = commit-Committed committing m (same_log l m (l.outstanding - 1) true v) in
        let eq : m' ≡ (commit committing m).1 = ground (arith, e, free, last) in
        subst
          (λ x.
            Sound l.start l.size x.disk
            × ((b : ℕ)
                → Home l.start l.size b
                → replayed l.start x.disk b
                  ≡ (if commits l && ltb l.lh.n m.power then m.data_of b else m.disk b)))
          (sym eq) (done.sound, λ b home. rw last (done.stands_for b home))
  ]
]

-- Take a system that has come up from a sound disk and has run with the power on: calls have begun,
-- written blocks and ended in any order. When the power fails in an `end_op` after `k` writes, and
-- again in any number of recoveries, a recovery with the power for as many writes as the log has
-- blocks gives every block outside of the log area its new contents if the call was the last one and
-- the header was written, so `n < k`; otherwise it gives every block the contents that the disk had
-- before.
pub Reach-atomic :
    (start size power : ℕ) (d : ℕ → ℕ → ℕ) {s : System}
    → Sound start size d
    → d start 0 < power
    → Reach (booted start size power d) s
    → (k : ℕ) (l : Log) (m : Machine) → end_op s.log (record s.machine { power = k }) ≡ some (l, m)
    → (ks : List ℕ) (last : ℕ) → s.log.size ≤ last
    → (b : ℕ) → Home s.log.start s.log.size b
    → (initlog s.log.start s.log.size
          (restart last (restarts s.log.start s.log.size ks m.disk))).1.disk
        b
      ≡ (if commits s.log && ltb s.log.lh.n k then s.machine.data_of b else s.machine.disk b)
Reach-atomic start size power d {s} v more r k l m e ks last enough b home =
    let w = Reach-InTransaction (booted-InTransaction start size power d v more) r in
    let at_k : InTransaction s.log (record s.machine { power = k }) = record {
      apart = w.apart;
      homes = w.homes;
      fits = w.fits;
      head_empty = w.head_empty;
      clean = w.clean;
    } in
    let (sound, stands_for) = end_op-stands_for s.log l (record s.machine { power = k }) m at_k e in
    recovered s.log.start s.log.size ks last m.disk sound enough b home ∙ stands_for b home
