-- ===== src/Log/Commit.antt =====
-- `commit`: before the header is written the disk stands for the old blocks, and behind it for the new.
use ssuos_mminos.Base.{
  update_self, update-ne, ltb, if◌then◌else◌, update, ℕ, ◌+◌, ◌≤◌, ◌<◌, ◌≡◌, refl, sym, ap, ◌∙◌,
  ◌≢◌, inl, inr, Bool, true, false, arith,
}
use mathlib.Core.Path.{subst}
use native.Mathlib.Decide.{dec_le, dec_lt}
use ssuos_mminos.Log.{
  Log, Machine, header_words, write_log, install_trans, write_head, cleared, commit,
}
use ssuos_mminos.Log.Patch.{Distinct, find_entry, patch, patch-outside, patch-at}
use ssuos_mminos.Log.Copies.{
  copies, Apart, copies-power, copies-data_of, copies-disk_full, copies-disk_cut,
}
use ssuos_mminos.Log.Replay.{
  Home, replayed, Sound, replayed-empty, empty-Sound, header_words-n, header_words-block,
  write_head-on, write_head-off, write_head-power, write_head-data_of,
}
use ssuos_mminos.Log.Finish.{Complete, Finished, installs, install_trans-Finished}

-- The log in a transaction: nothing of it is on the disk, and only its blocks differ from the disk.
pub record InTransaction (l : Log) (m : Machine) : Type 0 where
  pub apart : Distinct l.lh.n l.lh.block
  pub homes : (i : ℕ) → i < l.lh.n → Home l.start l.size (l.lh.block i)
  pub fits : l.lh.n < l.size
  pub head_empty : m.disk l.start 0 ≡ 0
  pub clean :
      (b : ℕ)
      → Home l.start l.size b
      → ((i : ℕ) → i < l.lh.n → l.lh.block i ≢ b)
      → m.data_of b ≡ m.disk b

-- What `commit` leaves: the disk stands for the new blocks as soon as the header has been written.
pub record Committed (l : Log) (m : Machine) (l' : Log) (m' : Machine) : Type 0 where
  pub sound : Sound l.start l.size m'.disk
  pub stands_for :
      (b : ℕ)
      → Home l.start l.size b
      → replayed l.start m'.disk b ≡ (if ltb l.lh.n m.power then m.data_of b else m.disk b)
  pub buffers : (b : ℕ) → Home l.start l.size b → m'.data_of b ≡ m.data_of b
  pub closed : l.lh.n + l.lh.n + 1 < m.power → InTransaction l' m'

module _ (l : Log) (m : Machine) (v : InTransaction l m) where
  abbrev slot : ℕ → ℕ
  slot i = l.start + i + 1

  abbrev logged : Machine
  logged = copies l.lh.n slot l.lh.block m

  abbrev headed : Machine
  headed = write_head l logged

  abbrev values : ℕ → ℕ → ℕ
  values i = m.data_of (l.lh.block i)

  to_slots : Apart l.lh.n slot l.lh.block
  unfolding Apart Home
  to_slots i j hi hj e = ground (arith, v.homes j hj, v.fits, e)

  not_log : (b : ℕ) → Home l.start l.size b → (l.start ≢ b) × ((i : ℕ) → i < l.lh.n → slot i ≢ b)
  unfolding Home
  not_log b home = (λ e. ground (arith, home, v.fits, e), λ i hi e. ground (arith, home, v.fits, e))

  -- a block outside of the log area, before the header
  kept-data_of : (b : ℕ) → Home l.start l.size b → headed.data_of b ≡ m.data_of b
  kept-data_of b home =
      let (no_start, no_slot) = not_log b home in
      write_head-data_of l logged b
      ∙ update-ne logged.data_of l.start b (header_words l.lh (logged.data_of l.start)) no_start
      ∙ copies-data_of slot l.lh.block m l.lh.n b to_slots
      ∙ patch-outside l.lh.n slot values m.data_of b no_slot

  slots_apart : Distinct l.lh.n slot
  unfolding Distinct
  slots_apart i j hi hj e = omega (arith, e)

  slot-data_of : (i : ℕ) → i < l.lh.n → headed.data_of (slot i) ≡ values i
  slot-data_of i hi =
      write_head-data_of l logged (slot i)
      ∙ update-ne logged.data_of l.start (slot i) (header_words l.lh (logged.data_of l.start))
          (λ e. omega (arith, e))
      ∙ copies-data_of slot l.lh.block m l.lh.n (slot i) to_slots
      ∙ patch-at l.lh.n slot values m.data_of i slots_apart hi

  -- To install the log over blocks that agree with the buffers elsewhere gives the buffers.
  gives_new :
      (d : ℕ → ℕ → ℕ) (b : ℕ)
      → (((i : ℕ) → i < l.lh.n → l.lh.block i ≢ b) → d b ≡ m.data_of b)
      → installs l headed d b ≡ m.data_of b
  gives_new d b elsewhere = elim (find_entry l.lh.n l.lh.block b) [
    | inl (i, hi, e) ↦
        subst (λ x. installs l headed d x ≡ m.data_of x) e
          (patch-at l.lh.n l.lh.block (λ i. headed.data_of (slot i)) d i v.apart hi
            ∙ slot-data_of i hi)
    | inr out ↦
        patch-outside l.lh.n l.lh.block (λ i. headed.data_of (slot i)) d b out ∙ elsewhere out
  ]

  abbrev installed : Machine
  installed = copies l.lh.n l.lh.block slot headed

  abbrev last_machine : Machine
  last_machine = write_head (cleared l) installed

  from_slots : Apart l.lh.n l.lh.block slot
  unfolding Apart
  from_slots i j hi hj e = to_slots j i hj hi (sym e)

  last-data_of : (b : ℕ) → Home l.start l.size b → last_machine.data_of b ≡ m.data_of b
  last-data_of b home =
      write_head-data_of (cleared l) installed b
      ∙ update-ne installed.data_of l.start b
          (header_words (cleared l).lh (installed.data_of l.start)) (not_log b home).0
      ∙ copies-data_of l.lh.block slot headed l.lh.n b from_slots
      ∙ gives_new headed.data_of b (λ out. kept-data_of b home)

  module _ (lost : m.power ≤ l.lh.n) where
    no_power : headed.power ≡ 0
    no_power = omega (arith, write_head-power l logged, copies-power slot l.lh.block m l.lh.n)

    none_installed : (b : ℕ) → last_machine.disk b ≡ headed.disk b
    none_installed b =
        write_head-off (cleared l) installed b
          (omega (arith, no_power, copies-power l.lh.block slot headed l.lh.n))
        ∙ copies-disk_cut l.lh.block slot headed l.lh.n b from_slots (omega (arith, no_power))
        ∙ ap (λ k. patch k l.lh.block (λ i. headed.data_of (slot i)) headed.disk b) no_power

    lost-disk : (b : ℕ) → ((i : ℕ) → i < l.lh.n → slot i ≢ b) → last_machine.disk b ≡ m.disk b
    lost-disk b no_slot =
        none_installed b
        ∙ write_head-off l logged b (omega (arith, copies-power slot l.lh.block m l.lh.n))
        ∙ copies-disk_cut slot l.lh.block m l.lh.n b to_slots lost
        ∙ patch-outside m.power slot values m.disk b (λ i hi. no_slot i (omega arith))

    lost-Committed : Committed l m (cleared l) last_machine
    lost-Committed =
        let head = ap (λ w. w 0) (lost-disk l.start (λ i hi e. omega (arith, e))) ∙ v.head_empty in
        let before : ltb l.lh.n m.power ≡ false = ground (arith, lost) in
        record {
          sound = empty-Sound l.start l.size last_machine.disk head (omega (arith, v.fits));
          stands_for = λ b home.
              rw before
                (replayed-empty l.start last_machine.disk b head ∙ lost-disk b (not_log b home).1);
          buffers = last-data_of;
          closed = λ more. absurd (omega arith);
        }

  module _ (written : l.lh.n < m.power) where
    abbrev words : ℕ → ℕ
    words = header_words l.lh (logged.data_of l.start)

    headed-disk : (b : ℕ) → headed.disk b ≡ update logged.disk l.start words b
    headed-disk b = write_head-on l logged b (omega (arith, copies-power slot l.lh.block m l.lh.n))

    logged-disk : (b : ℕ) → logged.disk b ≡ patch l.lh.n slot values m.disk b
    logged-disk b = copies-disk_full slot l.lh.block m l.lh.n b to_slots (omega arith)

    headed-Complete : Complete l headed
    headed-Complete =
        let head = headed-disk l.start ∙ update_self logged.disk l.start words in
        record {
          head_n = ap (λ w. w 0) head ∙ header_words-n l.lh (logged.data_of l.start);
          head_block = λ i hi.
              ap (λ w. w (i + 1)) head ∙ header_words-block l.lh (logged.data_of l.start) i hi;
          slots = λ i hi.
              headed-disk (slot i)
              ∙ update-ne logged.disk l.start (slot i) words (λ e. omega (arith, e))
              ∙ logged-disk (slot i)
              ∙ patch-at l.lh.n slot values m.disk i slots_apart hi
              ∙ sym (slot-data_of i hi);
          apart = v.apart;
          homes = v.homes;
          fits = v.fits;
        }

    kept-disk : (b : ℕ) → Home l.start l.size b → headed.disk b ≡ m.disk b
    kept-disk b home =
        let (no_start, no_slot) = not_log b home in
        headed-disk b
        ∙ update-ne logged.disk l.start b words no_start
        ∙ logged-disk b
        ∙ patch-outside l.lh.n slot values m.disk b no_slot

    written-Committed : Committed l m (cleared l) last_machine
    unfolding Distinct install_trans
    written-Committed =
        let done : Finished l headed last_machine =
          install_trans-Finished l headed headed-Complete in
        let behind : ltb l.lh.n m.power ≡ true = ground (arith, written) in
        let new : (b : ℕ)
            → Home l.start l.size b
            → replayed l.start last_machine.disk b ≡ m.data_of b =
          λ b home.
            done.stands_for b home
            ∙ gives_new headed.disk b (λ out. kept-disk b home ∙ sym (v.clean b home out)) in
        record {
          sound = done.sound;
          stands_for = λ b home. rw behind (new b home);
          buffers = last-data_of;
          closed = λ more.
              let erased =
                done.erased (
                  omega
                    (arith, write_head-power l logged, copies-power slot l.lh.block m l.lh.n)) in
              record {
                apart = λ i j hi hj e. absurd (omega arith);
                homes = λ i hi. absurd (omega arith);
                fits = omega (arith, v.fits);
                head_empty = erased;
                clean = λ b home out.
                    last-data_of b home
                    ∙ sym (new b home)
                    ∙ replayed-empty l.start last_machine.disk b erased;
              };
        }

  nothing-Committed : l.lh.n ≡ 0 → Committed l m l m
  nothing-Committed e =
      let same : (b : ℕ) → Home l.start l.size b → m.data_of b ≡ m.disk b =
        λ b home. v.clean b home (λ i hi. absurd (omega (arith, e))) in
      record {
        sound = empty-Sound l.start l.size m.disk v.head_empty (omega (arith, v.fits));
        stands_for = λ b home.
            replayed-empty l.start m.disk b v.head_empty
            ∙ either (ltb l.lh.n m.power) (same b home);
        buffers = λ b home. refl;
        closed = λ more. v;
      }
    where
      either : (t : Bool) {x y : ℕ → ℕ} → x ≡ y → y ≡ (if t then x else y)
      either true e = sym e
      either false e = refl

  pub commit-Committed : Committed l m (commit l m).0 (commit l m).1
  unfolding commit write_log install_trans
  commit-Committed = elim (dec_lt 0 l.lh.n) [
    | no none_logged ↦
        let skips : ltb 0 l.lh.n ≡ false = ground (arith, none_logged) in
        rw skips (nothing-Committed (omega arith))
    | yes some_logged ↦
        let goes : ltb 0 l.lh.n ≡ true = ground (arith, some_logged) in
        rw goes (elim (dec_le m.power l.lh.n) [
          | yes lost ↦ lost-Committed lost
          | no written ↦ written-Committed (omega arith)
        ])
  ]
