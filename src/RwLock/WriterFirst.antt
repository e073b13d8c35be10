-- ===== src/RwLock/WriterFirst.antt =====
-- rw_lock-w-test.c: a reader waits as long as a writer has asked for the lock. The spin lock `busy`
-- makes each change of `w_request` one step.
use ssuos_mminos.Base.{
  ◌==◌, if◌then◌else◌, Bool-cases, Option-cases, update, ℕ, ◌+◌, ◌-◌, ◌<◌, ◌≡◌, refl, sym, ◌∙◌, inl,
  inr, Bool, true, false, ◌||◌, Option, none, some, arith,
}
use ssuos_mminos.RwLock.{
  Api, Pc, outside, r_asking, r_entering, reading, w_asking, w_entering, w_got, writing,
}
use ssuos_mminos.RwLock.Count.{bit, count, count-update, count-zero, count-pos}
use ssuos_mminos.RwLock.Holders.{
  reads, writes, Use, none_of_it, gets_read, gets_write, leaves_it, Held, init-Held, Use-Held,
  Held-readers,
}

module _ (api : Api) where
  open api use {Lock, init, rdlock, wrlock, unlock}

  -- `struct rw_lock`
  pub record Shared : Type 0 where
    pub lock : Lock
    pub w_request : ℕ

  -- `init_rwlock`
  abbrev pub init_rwlock : Shared
  init_rwlock = record { lock = init; w_request = 0 }

  -- The next statement of a thread in `r_lock`, `r_unlock`, `w_lock` or `w_unlock`; a thread outside
  -- calls `r_lock` or `w_lock`. `none` means that it waits for the lock.
  unfoldable pub act : (to_read : Bool) → Shared → Pc → Option (Shared × Pc)
  act to_read s outside = some (s, if to_read then r_asking else w_asking)
  act to_read s r_asking = some (s, if s.w_request == 0 then r_entering else r_asking)
  act to_read s r_entering = elim (rdlock s.lock) [
    | none ↦ none
    | some l ↦ some (record s { lock = l }, reading)
  ]
  act to_read s reading = some (record s { lock = unlock s.lock }, outside)
  act to_read s w_asking = some (record s { w_request = s.w_request + 1 }, w_entering)
  act to_read s w_entering = elim (wrlock s.lock) [
    | none ↦ none
    | some l ↦ some (record s { lock = l }, w_got)
  ]
  act to_read s w_got = some (record s { w_request = s.w_request - 1 }, writing)
  act to_read s writing = some (record s { lock = unlock s.lock }, outside)

  pub record System : Type 0 where
    pub shared : Shared
    pub pc : ℕ → Pc

  pub data Step (n : ℕ) (s : System) : System → Type 0 where
    move :
        (i : ℕ) (to_read : Bool) (s' : Shared) (p' : Pc)
        → i < n
        → act to_read s.shared (s.pc i) ≡ some (s', p')
        → Step n s (record { shared = s'; pc = update s.pc i p' })

  abbrev pub start : System
  start = record { shared = init_rwlock; pc = λ i. outside }

  pub data Reach (n : ℕ) (s : System) : System → Type 0 where
    here : Reach n s s
    later : {t u : System} → Reach n s t → Step n t u → Reach n s u

  -- The thread has asked to write and not yet taken its request back.
  abbrev pub requests : Pc → Bool
  requests w_entering = true
  requests w_got = true
  requests _ = false

  act-Use :
      (b : Bool) (s : Shared) (p : Pc) (s' : Shared) (p' : Pc)
      → act b s p ≡ some (s', p')
      → Use api s.lock p p' s'.lock
  unfolding act
  act-Use b s outside s' p' e =
      none_of_it (ground (arith, e)) (ground (arith, e)) (ground (arith, e))
  act-Use b s r_asking s' p' e =
      none_of_it (ground (arith, e)) (ground (arith, e)) (ground (arith, e))
  act-Use b s r_entering s' p' e = elim (Option-cases (rdlock s.lock)) [
    | inl waits ↦ absurd (ground (arith, e, waits))
    | inr (l, got) ↦
        gets_read (ground (arith, e, got)) refl (ground (arith, e, got)) (ground (arith, e, got))
  ]
  act-Use b s reading s' p' e = leaves_it (ground (arith, e)) refl refl (ground (arith, e))
  act-Use b s w_asking s' p' e =
      none_of_it (ground (arith, e)) (ground (arith, e)) (ground (arith, e))
  act-Use b s w_entering s' p' e = elim (Option-cases (wrlock s.lock)) [
    | inl waits ↦ absurd (ground (arith, e, waits))
    | inr (l, got) ↦
        gets_write (ground (arith, e, got)) refl (ground (arith, e, got)) (ground (arith, e, got))
  ]
  act-Use b s w_got s' p' e = none_of_it (ground (arith, e)) (ground (arith, e)) (ground (arith, e))
  act-Use b s writing s' p' e = leaves_it (ground (arith, e)) refl refl (ground (arith, e))

  act-requests :
      (b : Bool) (s : Shared) (p : Pc) (s' : Shared) (p' : Pc)
      → act b s p ≡ some (s', p')
      → (requests p ≡ true → 0 < s.w_request)
      → s'.w_request + bit (requests p) ≡ s.w_request + bit (requests p')
  unfolding act
  act-requests b s p s' p' e some_request = ground (arith, e, some_request)

  pub record Inv (n : ℕ) (s : System) : Type 0 where
    pub held : Held api n s.shared.lock s.pc
    pub asked : s.shared.w_request ≡ count requests s.pc n

  Reach-Inv : (n : ℕ) {s : System} → Reach n start s → Inv n s
  Reach-Inv n here = record {
    held = init-Held api n;
    asked = sym (count-zero requests (λ i. outside) n (λ i. refl));
  }
  Reach-Inv n (later {t = t} r (move i b s' p' lt e)) =
      let v = Reach-Inv n r in
      let some_request : requests (t.pc i) ≡ true → 0 < t.shared.w_request =
        λ on. omega (arith, v.asked, count-pos requests t.pc n i lt on) in
      record {
        held =
            Use-Held api n t.pc i p' t.shared.lock s'.lock lt (act-Use b t.shared (t.pc i) s' p' e)
              v.held;
        asked = omega (
          arith,
          act-requests b t.shared (t.pc i) s' p' e some_request,
          count-update requests t.pc n i p' lt,
          v.asked,
        );
      }

  r_lock-none_asked :
      (b : Bool) (s : Shared) (s' : Shared)
      → act b s r_asking ≡ some (s', r_entering)
      → s.w_request ≡ 0
  unfolding act
  r_lock-none_asked b s s' e = elim (Bool-cases (s.w_request == 0)) [
    | inl none_asked ↦ ground (arith, none_asked)
    | inr asked ↦ absurd (ground (arith, e, asked))
  ]

  -- Whatever the order of the statements: `w_request` is the number of writers that have asked and not
  -- yet taken their request back; a reader passes its test only when there is no such writer; and a
  -- thread that has the lock for writing is the only one that has it.
  pub Reach-exclusive :
      (n : ℕ) {s : System}
      → Reach n start s
      → (s.shared.w_request ≡ count requests s.pc n)
        × ((b : Bool) (s' : Shared)
            → act b s.shared r_asking ≡ some (s', r_entering)
            → count requests s.pc n ≡ 0)
        × ((i j : ℕ)
            → i < n
            → j < n
            → writes (s.pc i) ≡ true
            → (reads (s.pc j) || writes (s.pc j)) ≡ true
            → i ≡ j)
  Reach-exclusive n {s} r =
      let v = Reach-Inv n r in
      (
        v.asked,
        λ b s' e. sym v.asked ∙ r_lock-none_asked b s.shared s' e,
        λ i j hi hj. Held-readers api n s.shared.lock s.pc i j v.held hi hj,
      )
