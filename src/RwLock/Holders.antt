-- ===== src/RwLock/Holders.antt =====
-- Who holds the lock of the thread library: many readers or one writer.
use ssuos_mminos.Base.{
  Bool-cases, update, ℕ, ◌+◌, ◌<◌, ◌≡◌, refl, sym, ap, ◌∙◌, inl, inr, Bool, true, false, ◌&&◌, ◌||◌,
  some, arith,
}
use mathlib.Core.Path.{subst}
use native.Mathlib.Decide.{ℕ_discrete}
use ssuos_mminos.RwLock.{Api, Pc, outside, reading, w_got, writing}
use ssuos_mminos.RwLock.Count.{bit, count, count-update, count-zero, count-pos, count-two}

abbrev pub reads : Pc → Bool
reads reading = true
reads _ = false

abbrev pub writes : Pc → Bool
writes w_got = true
writes writing = true
writes _ = false

module _ (api : Api) where
  open api use {
    Lock, init, rdlock, wrlock, unlock, readers, writer, init_free, rdlock_law, wrlock_law,
    unlock_read, unlock_write,
  }

  -- What the statements of a thread do with the lock.
  pub data Use (l : Lock) (p p' : Pc) (l' : Lock) : Type 0 where
    none_of_it : l' ≡ l → reads p' ≡ reads p → writes p' ≡ writes p → Use l p p' l'
    gets_read :
        rdlock l ≡ some l'
        → (reads p || writes p) ≡ false
        → (reads p' ≡ true)
        → (writes p' ≡ false)
        → Use l p p' l'
    gets_write :
        wrlock l ≡ some l'
        → (reads p || writes p) ≡ false
        → (reads p' ≡ false)
        → (writes p' ≡ true)
        → Use l p p' l'
    leaves_it :
        l' ≡ unlock l
        → (reads p || writes p) ≡ true
        → (reads p && writes p) ≡ false
        → (reads p' || writes p') ≡ false
        → Use l p p' l'

  -- Threads below `n` hold the lock the way it counts them.
  pub record Held (n : ℕ) (l : Lock) (pc : ℕ → Pc) : Type 0 where
    pub readers_held : readers l ≡ count reads pc n
    pub writer_held : bit (writer l) ≡ count writes pc n
    pub apart : writer l ≡ true → readers l ≡ 0

  pub init-Held : (n : ℕ) → Held n init (λ i. outside)
  init-Held n =
      let (none_read, none_write) = init_free in
      record {
        readers_held = omega (arith, none_read, count-zero reads (λ i. outside) n (λ i. refl));
        writer_held = ground (arith, none_write, count-zero writes (λ i. outside) n (λ i. refl));
        apart = λ on. none_read;
      }

  pub Use-Held :
      (n : ℕ) (pc : ℕ → Pc) (i : ℕ) (p' : Pc) (l l' : Lock)
      → i < n
      → Use l (pc i) p' l'
      → Held n l pc
      → Held n l' (update pc i p')
  Use-Held n pc i p' l l' lt (none_of_it same r w) v =
      let cr = count-update reads pc n i p' lt in
      let cw = count-update writes pc n i p' lt in
      record {
        readers_held = omega (arith, cr, v.readers_held, ap bit r, ap readers same);
        writer_held = omega (arith, cw, v.writer_held, ap bit w, ap (λ x. bit (writer x)) same);
        apart = λ on. ap readers same ∙ v.apart (ap writer (sym same) ∙ on);
      }
  Use-Held n pc i p' l l' lt (gets_read e free r w) v =
      let cr = count-update reads pc n i p' lt in
      let cw = count-update writes pc n i p' lt in
      let law = rdlock_law l l' e in
      record {
        readers_held = ground (arith, cr, v.readers_held, law, free, r);
        writer_held = ground (arith, cw, v.writer_held, law, free, w);
        apart = λ on. ground (arith, law, on);
      }
  Use-Held n pc i p' l l' lt (gets_write e free r w) v =
      let cr = count-update reads pc n i p' lt in
      let cw = count-update writes pc n i p' lt in
      let law = wrlock_law l l' e in
      record {
        readers_held = ground (arith, cr, v.readers_held, law, free, r);
        writer_held = ground (arith, cw, v.writer_held, law, free, w);
        apart = λ on. ground (arith, law);
      }
  Use-Held n pc i p' l l' lt (leaves_it gone holds not_both free) v =
      elim (Bool-cases (writes (pc i))) [
        | inl w ↦
            let cr = count-update reads pc n i p' lt in
            let cw = count-update writes pc n i p' lt in
            let some_writer = count-pos writes pc n i lt w in
            let on : writer l ≡ true = ground (arith, v.writer_held, some_writer) in
            let law =
              subst (λ x. (readers x ≡ readers l) × (writer x ≡ false)) (sym gone)
                (unlock_write l on) in
            record {
              readers_held = ground (arith, cr, v.readers_held, law, w, not_both, free);
              writer_held = ground (arith, cw, v.writer_held, law, w, free, on);
              apart = λ on'. ground (arith, law, on');
            }
        | inr r ↦
            let cr = count-update reads pc n i p' lt in
            let cw = count-update writes pc n i p' lt in
            let some_reader = count-pos reads pc n i lt (ground (arith, holds, r)) in
            let off : writer l ≡ false = ground (arith, v.apart, v.readers_held, some_reader) in
            let law =
              subst (λ x. (readers x + 1 ≡ readers l) × (writer x ≡ false)) (sym gone)
                (unlock_read l (omega (arith, v.readers_held)) off) in
            record {
              readers_held = ground (arith, cr, v.readers_held, law, holds, r, free);
              writer_held = ground (arith, cw, v.writer_held, law, r, free, off);
              apart = λ on'. ground (arith, law, on');
            }
      ]

  -- Two threads that hold the lock are both readers.
  pub Held-readers :
      (n : ℕ) (l : Lock) (pc : ℕ → Pc) (i j : ℕ)
      → Held n l pc
      → i < n
      → j < n
      → writes (pc i) ≡ true
      → (reads (pc j) || writes (pc j)) ≡ true
      → i ≡ j
  Held-readers n l pc i j v hi hj w holds =
      let on : writer l ≡ true = ground (arith, v.writer_held, count-pos writes pc n i hi w) in
      elim (Bool-cases (reads (pc j))) [
        | inl r ↦ absurd (omega (arith, v.apart on, v.readers_held, count-pos reads pc n j hj r))
        | inr no_read ↦ elim (ℕ_discrete i j) [
          | yes same ↦ same
          | no other ↦ absurd (
              ground (
                arith,
                v.writer_held,
                count-two writes pc n i j hi hj other w (ground (arith, holds, no_read)),
              ))
        ]
      ]
