-- ===== src/Log/Finish.antt =====
-- `install_trans` and the erasing of the header, from a disk whose log is complete: what `commit` does
-- last and `recover_from_log` first.
use ssuos_mminos.Base.{
  update_self, update-ne, update, ℕ, ◌+◌, ◌≤◌, ◌<◌, ◌≡◌, refl, ap, ◌∙◌, ◌≢◌, arith,
}
use native.Mathlib.Decide.{dec_le}
use ssuos_mminos.Log.{Log, Machine, install_trans, write_head, cleared, header_words}
use ssuos_mminos.Log.Patch.{Distinct, patch, patch-outside, patch-again, patch-ext}
use ssuos_mminos.Log.Copies.{
  copies, Apart, copies-power, copies-data_of, copies-disk_full, copies-disk_cut,
}
use ssuos_mminos.Log.Replay.{
  Home, replayed, Sound, replayed-patch, replayed-empty, empty-Sound, make-Sound, header_words-n,
  write_head-on, write_head-off, write_head-data_of,
}

-- The log on the disk is the one in memory, and its blocks are in the buffers.
pub record Complete (l : Log) (m : Machine) : Type 0 where
  pub head_n : m.disk l.start 0 ≡ l.lh.n
  pub head_block : (i : ℕ) → i < l.lh.n → m.disk l.start (i + 1) ≡ l.lh.block i
  pub slots : (i : ℕ) → i < l.lh.n → m.disk (l.start + i + 1) ≡ m.data_of (l.start + i + 1)
  pub apart : Distinct l.lh.n l.lh.block
  pub homes : (i : ℕ) → i < l.lh.n → Home l.start l.size (l.lh.block i)
  pub fits : l.lh.n < l.size

abbrev pub installs : Log → Machine → (ℕ → ℕ → ℕ) → ℕ → ℕ → ℕ
installs l m d b = patch l.lh.n l.lh.block (λ i. m.data_of (l.start + i + 1)) d b

-- What is left of the log, whether the power fails or not.
pub record Finished (l : Log) (m m' : Machine) : Type 0 where
  pub sound : Sound l.start l.size m'.disk
  pub stands_for :
      (b : ℕ) → Home l.start l.size b → replayed l.start m'.disk b ≡ installs l m m.disk b
  pub erased : l.lh.n < m.power → m'.disk l.start 0 ≡ 0
  pub buffers : (b : ℕ) → Home l.start l.size b → m'.data_of b ≡ installs l m m.data_of b

module _ (l : Log) (m : Machine) (v : Complete l m) where
  abbrev slot : ℕ → ℕ
  slot i = l.start + i + 1

  abbrev contents : ℕ → ℕ → ℕ
  contents i = m.data_of (slot i)

  abbrev installed : Machine
  installed = copies l.lh.n l.lh.block slot m

  abbrev last_machine : Machine
  last_machine = write_head (cleared l) installed

  not_in_log : (i x : ℕ) → i < l.lh.n → l.start ≤ x → x ≤ l.start + l.lh.n → l.lh.block i ≢ x
  unfolding Home
  not_in_log i x hi lo up e = ground (arith, v.homes i hi, v.fits, e)

  from_slots : Apart l.lh.n l.lh.block slot
  unfolding Apart
  from_slots i j hi hj = not_in_log i (slot j) hi (omega arith) (omega arith)

  not_start : (b : ℕ) → Home l.start l.size b → l.start ≢ b
  unfolding Home
  not_start b home e = ground (arith, home, v.fits, e)

  last-buffers : (b : ℕ) → Home l.start l.size b → last_machine.data_of b ≡ installs l m m.data_of b
  last-buffers b home =
      write_head-data_of (cleared l) installed b
      ∙ update-ne installed.data_of l.start b
          (header_words (cleared l).lh (installed.data_of l.start)) (not_start b home)
      ∙ copies-data_of l.lh.block slot m l.lh.n b from_slots

  -- The power fails in the loop of `install_trans`, or behind it.
  cut-Finished : m.power ≤ l.lh.n → Finished l m last_machine
  cut-Finished cut =
      let at : (b : ℕ) → last_machine.disk b ≡ patch m.power l.lh.block contents m.disk b = λ b.
        write_head-off (cleared l) installed b
          (omega (arith, copies-power l.lh.block slot m l.lh.n))
        ∙ copies-disk_cut l.lh.block slot m l.lh.n b from_slots cut in
      let in_log : (x : ℕ) → l.start ≤ x → x ≤ l.start + l.lh.n → last_machine.disk x ≡ m.disk x =
        λ x lo up.
          at x
          ∙ patch-outside m.power l.lh.block contents m.disk x
              (λ i hi. not_in_log i x (omega arith) lo up) in
      let head = in_log l.start (omega arith) (omega arith) in
      let head_n = ap (λ w. w 0) head ∙ v.head_n in
      let head_block : (i : ℕ) → i < l.lh.n → last_machine.disk l.start (i + 1) ≡ l.lh.block i =
        λ i hi. ap (λ w. w (i + 1)) head ∙ v.head_block i hi in
      record {
        sound =
            make-Sound l.start l.size last_machine.disk l.lh head_n head_block v.apart v.homes
              v.fits;
        stands_for = λ b home.
            replayed-patch l.start last_machine.disk b l.lh.n l.lh.block contents head_n head_block
              (λ i hi. in_log (slot i) (omega arith) (omega arith) ∙ v.slots i hi)
            ∙ patch-ext l.lh.n l.lh.block l.lh.block contents contents last_machine.disk
                (patch m.power l.lh.block contents m.disk) b (λ i hi. refl) (λ i hi. refl) (at b)
            ∙ patch-again l.lh.n m.power l.lh.block contents m.disk b v.apart cut;
        erased = λ more. absurd (omega arith);
        buffers = last-buffers;
      }

  full-Finished : l.lh.n < m.power → Finished l m last_machine
  full-Finished more =
      let words = header_words (cleared l).lh (installed.data_of l.start) in
      let at : (b : ℕ) → last_machine.disk b ≡ update installed.disk l.start words b = λ b.
        write_head-on (cleared l) installed b
          (omega (arith, copies-power l.lh.block slot m l.lh.n)) in
      let erased : last_machine.disk l.start 0 ≡ 0 =
        ap (λ w. w 0) (at l.start ∙ update_self installed.disk l.start words)
        ∙ header_words-n (cleared l).lh (installed.data_of l.start) in
      record {
        sound = empty-Sound l.start l.size last_machine.disk erased (omega (arith, v.fits));
        stands_for = λ b home.
            replayed-empty l.start last_machine.disk b erased
            ∙ at b
            ∙ update-ne installed.disk l.start b words (not_start b home)
            ∙ copies-disk_full l.lh.block slot m l.lh.n b from_slots (omega arith);
        erased = λ m. erased;
        buffers = last-buffers;
      }

  pub install_trans-Finished : Finished l m (write_head (cleared l) (install_trans l m))
  unfolding install_trans
  install_trans-Finished = elim (dec_le m.power l.lh.n) [
    | yes cut ↦ cut-Finished cut
    | no more ↦ full-Finished (omega arith)
  ]
