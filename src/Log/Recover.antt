-- ===== src/Log/Recover.antt =====
-- Recovery from any sound disk, cut off any number of times.
use ssuos_mminos.Base.{ℕ, ◌+◌, ◌<◌, ◌≡◌, refl, sym, ◌∙◌, false, List, [], ◌∷◌}
use mathlib.Core.Path.{subst}
use ssuos_mminos.Log.{
  Log, Machine, header_of, read_head, install_trans, write_head, cleared, recover_from_log, initlog,
  restart,
}
use ssuos_mminos.Log.Patch.{Distinct}
use ssuos_mminos.Log.Replay.{Home, replayed, Sound, replayed-patch, replayed-empty, header_of-block}
use ssuos_mminos.Log.Finish.{Complete, install_trans-Finished}

-- The power fails in one recovery after the other, after so many writes.
pub restarts : (start size : ℕ) → List ℕ → (ℕ → ℕ → ℕ) → ℕ → ℕ → ℕ
restarts start size [] d = d
restarts start size (k ∷ ks) d = restarts start size ks (initlog start size (restart k d)).1.disk

-- What a recovery with `k` writes makes of a disk.
pub record Recovered (start size k : ℕ) (d : ℕ → ℕ → ℕ) (m : Machine) : Type 0 where
  pub sound : Sound start size m.disk
  pub same : (b : ℕ) → Home start size b → replayed start m.disk b ≡ replayed start d b
  pub erased : d start 0 < k → m.disk start 0 ≡ 0
  pub buffers : (b : ℕ) → Home start size b → d start 0 < k → m.data_of b ≡ m.disk b

abbrev fresh : (start size : ℕ) → Log
fresh start size = record {
  start = start;
  size = size;
  outstanding = 0;
  committing = false;
  lh = record { n = 0; block = λ i. 0 };
}

read_head-Complete :
    (start size k : ℕ) (d : ℕ → ℕ → ℕ)
    → Sound start size d
    → Complete (read_head (fresh start size) (restart k d)) (restart k d)
unfolding read_head Distinct
read_head-Complete start size k d v =
    let block : (i : ℕ) → i < d start 0 → (header_of (d start) (λ i. 0)).block i ≡ d start (i + 1) =
      header_of-block (d start) (λ i. 0) in
    record {
      head_n = refl;
      head_block = λ i hi. sym (block i hi);
      slots = λ i hi. refl;
      apart = λ i j hi hj e. v.apart i j hi hj (sym (block i hi) ∙ e ∙ block j hj);
      homes = λ i hi. subst (Home start size) (sym (block i hi)) (v.homes i hi);
      fits = v.fits;
    }

pub initlog-Recovered :
    (start size k : ℕ) (d : ℕ → ℕ → ℕ)
    → Sound start size d
    → Recovered start size k d (initlog start size (restart k d)).1
unfolding initlog recover_from_log read_head
initlog-Recovered start size k d v =
    let l = read_head (fresh start size) (restart k d) in
    let c = read_head-Complete start size k d v in
    let done = install_trans-Finished l (restart k d) c in
    record {
      sound = done.sound;
      same = λ b home.
          done.stands_for b home
          ∙ sym (
              replayed-patch start d b (d start 0) l.lh.block (λ i. d (start + i + 1)) refl
                c.head_block (λ i hi. refl));
      erased = done.erased;
      buffers = λ b home more.
          done.buffers b home
          ∙ sym (done.stands_for b home)
          ∙ replayed-empty start (write_head (cleared l) (install_trans l (restart k d))).disk b
              (done.erased more);
    }

pub restarts-same :
    (start size : ℕ) (ks : List ℕ) (d : ℕ → ℕ → ℕ)
    → Sound start size d
    → Sound start size (restarts start size ks d)
      × ((b : ℕ)
          → Home start size b
          → replayed start (restarts start size ks d) b ≡ replayed start d b)
unfolding restarts
restarts-same start size [] d v = (v, λ b home. refl)
restarts-same start size (k ∷ ks) d v =
    let r = initlog-Recovered start size k d v in
    let (sound, same) =
      restarts-same start size ks (initlog start size (restart k d)).1.disk r.sound in
    (sound, λ b home. same b home ∙ r.same b home)
