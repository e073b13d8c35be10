-- ===== src/RwLock/Plain.antt =====
-- A readers-writer lock that keeps the laws of `Api`, for tests of the two locks.
use ssuos_mminos.Base.{
  ◌==◌, if◌then◌else◌, ℕ, ◌+◌, ◌-◌, ◌<◌, ◌≡◌, refl, Bool, true, false, Option, none, some, arith,
}
use ssuos_mminos.RwLock.{Api}

-- A lock as the number of its readers and whether a writer has it.
abbrev pub rdlock : (ℕ × Bool) → Option (ℕ × Bool)
rdlock (n, true) = none
rdlock (n, false) = some (n + 1, false)

abbrev pub wrlock : (ℕ × Bool) → Option (ℕ × Bool)
wrlock (n, true) = none
wrlock (n, false) = if n == 0 then some (0, true) else none

abbrev pub unlock : (ℕ × Bool) → (ℕ × Bool)
unlock (n, true) = (n, false)
unlock (n, false) = (n - 1, false)

pub rdlock_law :
    (l l' : ℕ × Bool) → rdlock l ≡ some l' → (l.1 ≡ false) × (l'.0 ≡ l.0 + 1) × (l'.1 ≡ false)
rdlock_law (n, true) (m, c) e = absurd (ground (arith, e))
rdlock_law (n, false) (m, c) e = (refl, ground (arith, e), ground (arith, e))

pub wrlock_law :
    (l l' : ℕ × Bool) → wrlock l ≡ some l' → (l.1 ≡ false) × (l.0 ≡ 0) × (l'.0 ≡ 0) × (l'.1 ≡ true)
wrlock_law (n, true) (m, c) e = absurd (ground (arith, e))
wrlock_law (n, false) (m, c) e = (refl, ground (arith, e), ground (arith, e), ground (arith, e))

pub unlock_read :
    (l : ℕ × Bool) → 0 < l.0 → l.1 ≡ false → ((unlock l).0 + 1 ≡ l.0) × ((unlock l).1 ≡ false)
unlock_read (n, true) some_reader off = absurd (ground (arith, off))
unlock_read (n, false) some_reader off = (omega arith, refl)

pub unlock_write : (l : ℕ × Bool) → l.1 ≡ true → ((unlock l).0 ≡ l.0) × ((unlock l).1 ≡ false)
unlock_write (n, true) on = (refl, refl)
unlock_write (n, false) on = absurd (ground (arith, on))

abbrev pub plain_lock : Api
plain_lock = record {
  Lock = ℕ × Bool;
  init = (0, false);
  rdlock = rdlock;
  wrlock = wrlock;
  unlock = unlock;
  readers = λ l. l.0;
  writer = λ l. l.1;
  init_free = (refl, refl);
  rdlock_law = rdlock_law;
  wrlock_law = wrlock_law;
  unlock_read = unlock_read;
  unlock_write = unlock_write;
}
