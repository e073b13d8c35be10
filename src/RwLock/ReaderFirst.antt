-- ===== src/RwLock/ReaderFirst.antt =====
-- rw_lock-r-test.c: a writer spins until the first reader has called `r_lock`.
use ssuos_mminos.Base.{
  ◌==◌, if◌then◌else◌, Bool-cases, Option-cases, update, ℕ, ◌<◌, ◌≡◌, refl, inl, inr, Bool, true,
  false, ◌||◌, Option, none, some, arith, update_each,
}
use ssuos_mminos.RwLock.{
  Api, Pc, outside, r_asking, r_entering, reading, w_asking, w_entering, w_got, writing,
}
use ssuos_mminos.RwLock.Holders.{
  reads, writes, Use, none_of_it, gets_read, gets_write, leaves_it, Held, init-Held, Use-Held,
  Held-readers,
}

module _ (api : Api) where
  open api use {Lock, init, rdlock, wrlock, unlock}

  -- `struct rw_lock`
  pub record Shared : Type 0 where
    pub lock : Lock
    pub r_flag : ℕ

  -- `init_rwlock`
  abbrev pub init_rwlock : Shared
  init_rwlock = record { lock = init; r_flag = 0 }

  -- The next statement of a thread in `r_lock`, `r_unlock`, `w_lock` or `w_unlock`; a thread outside
  -- calls `r_lock` or `w_lock`. `none` means that it waits for the lock. No thread of this lock is at
  -- `w_got`.
  unfoldable pub act : (to_read : Bool) → Shared → Pc → Option (Shared × Pc)
  act to_read s outside = some (s, if to_read then r_asking else w_asking)
  act to_read s r_asking = some (if s.r_flag == 0 then record s { r_flag = 1 } else s, r_entering)
  act to_read s r_entering = elim (rdlock s.lock) [
    | none ↦ none
    | some l ↦ some (record s { lock = l }, reading)
  ]
  act to_read s reading = some (record s { lock = unlock s.lock }, outside)
  act to_read s w_asking = some (s, if s.r_flag == 0 then w_asking else w_entering)
  act to_read s w_entering = elim (wrlock s.lock) [
    | none ↦ none
    | some l ↦ some (record s { lock = l }, writing)
  ]
  act to_read s w_got = none
  act to_read s writing = some (record s { lock = unlock s.lock }, outside)

  pub record System : Type 0 where
    pub shared : Shared
    pub pc : ℕ → Pc

  pub data Step (n : ℕ) (s : System) : System → Type 0 where
    move :
        (i : ℕ) (to_read : Bool) (s' : Shared) (p' : Pc)
        → i < n
        → act to_read s.shared (s.pc i) ≡ some (s', p')
        → Step n s (record { shared = s'; pc = update s.pc i p' })

  abbrev pub start : System
  start = record { shared = init_rwlock; pc = λ i. outside }

  pub data Reach (n : ℕ) (s : System) : System → Type 0 where
    here : Reach n s s
    later : {t u : System} → Reach n s t → Step n t u → Reach n s u

  -- The thread is behind the statement on the flag in `r_lock` or `w_lock`.
  abbrev pub beyond : Pc → Bool
  beyond outside = false
  beyond r_asking = false
  beyond w_asking = false
  beyond _ = true

  act-Use :
      (b : Bool) (s : Shared) (p : Pc) (s' : Shared) (p' : Pc)
      → act b s p ≡ some (s', p')
      → Use api s.lock p p' s'.lock
  unfolding act
  act-Use b s outside s' p' e =
      none_of_it (ground (arith, e)) (ground (arith, e)) (ground (arith, e))
  act-Use b s r_asking s' p' e = elim (Bool-cases (s.r_flag == 0)) [
    | inl z ↦ none_of_it (ground (arith, e, z)) (ground (arith, e)) (ground (arith, e))
    | inr nz ↦ none_of_it (ground (arith, e, nz)) (ground (arith, e)) (ground (arith, e))
  ]
  act-Use b s r_entering s' p' e = elim (Option-cases (rdlock s.lock)) [
    | inl waits ↦ absurd (ground (arith, e, waits))
    | inr (l, got) ↦
        gets_read (ground (arith, e, got)) refl (ground (arith, e, got)) (ground (arith, e, got))
  ]
  act-Use b s reading s' p' e = leaves_it (ground (arith, e)) refl refl (ground (arith, e))
  act-Use b s w_asking s' p' e =
      none_of_it (ground (arith, e)) (ground (arith, e)) (ground (arith, e))
  act-Use b s w_entering s' p' e = elim (Option-cases (wrlock s.lock)) [
    | inl waits ↦ absurd (ground (arith, e, waits))
    | inr (l, got) ↦
        gets_write (ground (arith, e, got)) refl (ground (arith, e, got)) (ground (arith, e, got))
  ]
  act-Use b s w_got s' p' e = absurd (ground (arith, e))
  act-Use b s writing s' p' e = leaves_it (ground (arith, e)) refl refl (ground (arith, e))

  act-beyond :
      (b : Bool) (s : Shared) (p : Pc) (s' : Shared) (p' : Pc)
      → act b s p ≡ some (s', p')
      → s'.r_flag ≡ 0
      → (s.r_flag ≡ 0) × (beyond p ≡ false → beyond p' ≡ false)
  unfolding act
  act-beyond b s outside s' p' e off = ground (arith, e, off)
  act-beyond b s r_asking s' p' e off = ground (arith, e, off)
  act-beyond b s r_entering s' p' e off = ground (arith, e, off)
  act-beyond b s reading s' p' e off = ground (arith, e, off)
  act-beyond b s w_asking s' p' e off = ground (arith, e, off)
  act-beyond b s w_entering s' p' e off = ground (arith, e, off)
  act-beyond b s w_got s' p' e off = absurd (ground (arith, e))
  act-beyond b s writing s' p' e off = ground (arith, e, off)

  pub record Inv (n : ℕ) (s : System) : Type 0 where
    pub held : Held api n s.shared.lock s.pc
    pub behind : s.shared.r_flag ≡ 0 → (i : ℕ) → i < n → beyond (s.pc i) ≡ false

  Reach-Inv : (n : ℕ) {s : System} → Reach n start s → Inv n s
  Reach-Inv n here = record { held = init-Held api n; behind = λ off i lt. refl }
  Reach-Inv n (later {t = t} r (move i b s' p' lt e)) =
      let v = Reach-Inv n r in
      record {
        held =
            Use-Held api n t.pc i p' t.shared.lock s'.lock lt (act-Use b t.shared (t.pc i) s' p' e)
              v.held;
        behind = λ off.
            let (was_off, stays) = act-beyond b t.shared (t.pc i) s' p' e off in
            update_each (λ j p. j < n → beyond p ≡ false) t.pc i p'
              (λ hi. stays (v.behind was_off i hi)) (λ j other. v.behind was_off j);
      }

  -- Whatever the order of the statements: as long as `r_flag` is 0, no thread has passed the statement
  -- on the flag, so that no writer has the lock or stands before it; and a thread that has the lock
  -- for writing is the only one that has it.
  pub Reach-reader_first :
      (n : ℕ) {s : System}
      → Reach n start s
      → (s.shared.r_flag ≡ 0 → (i : ℕ) → i < n → beyond (s.pc i) ≡ false)
        × ((i j : ℕ)
            → i < n
            → j < n
            → writes (s.pc i) ≡ true
            → (reads (s.pc j) || writes (s.pc j)) ≡ true
            → i ≡ j)
  Reach-reader_first n {s} r =
      let v = Reach-Inv n r in
      (v.behind, λ i j hi hj. Held-readers api n s.shared.lock s.pc i j v.held hi hj)
