-- ===== src/Log/Runs.antt =====
-- The log in use: system calls begin, write blocks and end in any order, and the last to end commits.
use ssuos_mminos.Base.{
  update-ne, ◌==◌, Bool-cases, update, ℕ, ◌+◌, ◌-◌, ◌<◌, ◌≡◌, sym, ◌∙◌, inl, inr, Bool, true, false,
  some, arith,
}
use mathlib.Core.Path.{subst}
use ssuos_mminos.Log.{
  Log, Machine, begin_op, log_write, absorb, end_op, commit, recover_from_log, initlog, restart,
}
use ssuos_mminos.Log.Patch.{Distinct}
use ssuos_mminos.Log.Absorb.{absorb-Distinct, absorb-each, absorb-n, absorb-out}
use ssuos_mminos.Log.Replay.{Home, Sound}
use ssuos_mminos.Log.Recover.{initlog-Recovered}
use ssuos_mminos.Log.Commit.{InTransaction, commit-Committed}

pub record System : Type 0 where
  pub log : Log
  pub machine : Machine

-- A step of a system whose power stays on. A call changes a block in its buffer and calls `log_write`.
pub data Step (s : System) : System → Type 0 where
  begins : (l : Log) → begin_op s.log ≡ some l → Step s (record s { log = l })
  writes :
      (b : ℕ) (words : ℕ → ℕ) (l : Log)
      → Home s.log.start s.log.size b
      → log_write b s.log ≡ some l
      → Step s (record {
        log = l;
        machine = record s.machine { data_of = update s.machine.data_of b words };
      })
  ends :
      (power : ℕ) (l : Log) (m : Machine)
      → s.log.lh.n + s.log.lh.n + 1 < power
      → end_op s.log (record s.machine { power = power }) ≡ some (l, m)
      → Step s (record { log = l; machine = m })

pub data Reach (s : System) : System → Type 0 where
  here : Reach s s
  later : {t u : System} → Reach s t → Step t u → Reach s u

-- The system after `initlog`.
abbrev pub booted : (start size power : ℕ) → (ℕ → ℕ → ℕ) → System
booted start size power d =
    let (l, m) = initlog start size (restart power d) in record { log = l; machine = m }

pub booted-InTransaction :
    (start size power : ℕ) (d : ℕ → ℕ → ℕ)
    → Sound start size d
    → d start 0 < power
    → InTransaction (booted start size power d).log (booted start size power d).machine
unfolding initlog recover_from_log Distinct
booted-InTransaction start size power d v more =
    let r = initlog-Recovered start size power d v in
    record {
      apart = λ i j hi hj e. absurd (omega arith);
      homes = λ i hi. absurd (omega arith);
      fits = omega (arith, v.fits);
      head_empty = r.erased more;
      clean = λ b home out. r.buffers b home more;
    }

-- What is counted of the calls does not matter.
pub same_log :
    (l : Log) (m : Machine) (outstanding : ℕ) (committing : Bool)
    → InTransaction l m
    → InTransaction (record l { outstanding = outstanding; committing = committing }) m
same_log l m outstanding committing v = record {
  apart = v.apart;
  homes = v.homes;
  fits = v.fits;
  head_empty = v.head_empty;
  clean = v.clean;
}

begin_op-InTransaction :
    (l l' : Log) (m : Machine) → begin_op l ≡ some l' → InTransaction l m → InTransaction l' m
unfolding begin_op
begin_op-InTransaction l l' m e v =
    let eq : l' ≡ record l { outstanding = l.outstanding + 1 } = ground (arith, e) in
    subst (λ x. InTransaction x m) (sym eq) (same_log l m (l.outstanding + 1) l.committing v)

log_write-InTransaction :
    (l l' : Log) (m : Machine) (b : ℕ) (words : ℕ → ℕ)
    → Home l.start l.size b
    → log_write b l ≡ some l'
    → InTransaction l m
    → InTransaction l' (record m { data_of = update m.data_of b words })
unfolding log_write
log_write-InTransaction l l' m b words home e v =
    let eq : l' ≡ record l { lh = absorb l.lh b } = ground (arith, e) in
    let room : l.lh.n + 1 < l.size = ground (arith, e) in
    subst (λ x. InTransaction x (record m { data_of = update m.data_of b words })) (sym eq)
      (record {
        apart = absorb-Distinct l.lh b v.apart;
        homes = absorb-each l.lh b (Home l.start l.size) home v.homes;
        fits = omega (arith, absorb-n l.lh b, room);
        head_empty = v.head_empty;
        clean = λ x at_home out.
            let (others, not_b) = absorb-out l.lh b x out in
            update-ne m.data_of b x words not_b ∙ v.clean x at_home others;
      })

end_op-InTransaction :
    (l l' : Log) (m m' : Machine)
    → l.lh.n + l.lh.n + 1 < m.power
    → end_op l m ≡ some (l', m')
    → InTransaction l m
    → InTransaction l' m'
unfolding end_op
end_op-InTransaction l l' m m' more e v = elim (Bool-cases l.committing) [
  | inl busy ↦ absurd (ground (arith, e, busy))
  | inr free ↦ elim (Bool-cases (l.outstanding - 1 == 0)) [
    | inr others ↦
        let eq : ◌≡◌ {A = Log × Machine} (l', m')
            (record l { outstanding = l.outstanding - 1 }, m) =
          ground (arith, e, free, others) in
        subst (λ x. InTransaction x.0 x.1) (sym eq)
          (same_log l m (l.outstanding - 1) l.committing v)
    | inl last ↦
        let ready = same_log l m (l.outstanding - 1) true v in
        let (l'', m'') =
          commit (record l { outstanding = l.outstanding - 1; committing = true }) m in
        let eq : ◌≡◌ {A = Log × Machine} (l', m') (record l'' { committing = false }, m'') =
          ground (arith, e, free, last) in
        let after =
          (commit-Committed (record l { outstanding = l.outstanding - 1; committing = true }) m
              ready).closed
            more in
        subst (λ x. InTransaction x.0 x.1) (sym eq) (same_log l'' m'' l''.outstanding false after)
  ]
]

-- The header names different blocks outside of the log area and leaves room, the disk has no
-- transaction in its log, and only the named blocks differ from their buffers.
pub Reach-InTransaction :
    {s t : System} → InTransaction s.log s.machine → Reach s t → InTransaction t.log t.machine
Reach-InTransaction v here = v
Reach-InTransaction v (later {t = t} r (begins l e)) =
    begin_op-InTransaction t.log l t.machine e (Reach-InTransaction v r)
Reach-InTransaction v (later {t = t} r (writes b words l home e)) =
    log_write-InTransaction t.log l t.machine b words home e (Reach-InTransaction v r)
Reach-InTransaction v (later {t = t} r (ends power l m more e)) =
    let w = Reach-InTransaction v r in
    end_op-InTransaction t.log l (record t.machine { power = power }) m more e
      (record {
        apart = w.apart;
        homes = w.homes;
        fits = w.fits;
        head_empty = w.head_empty;
        clean = w.clean;
      })
