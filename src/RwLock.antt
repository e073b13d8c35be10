-- ===== src/RwLock.antt =====
-- 설계 4/2: two readers-writer locks on top of `pthread_rwlock_t`, rw_lock-w-test.c (WriterFirst) and
-- rw_lock-r-test.c (ReaderFirst). The lock of the thread library is a parameter.
pub mod Count
pub mod Holders
pub mod WriterFirst
pub mod ReaderFirst
pub mod Elements
pub mod Plain
mod Tests
mod ReaderTests
use ssuos_mminos.Base.{ℕ, ◌+◌, ◌<◌, ◌≡◌, Bool, true, false, Option, some}

-- `pthread_rwlock_t`: `rdlock` and `wrlock` give `none` when the caller has to wait. The laws are what
-- POSIX says: a write lock excludes all other holders.
pub record Api : Type 1 where
  pub Lock : Type 0
  pub init : Lock
  pub rdlock : Lock → Option Lock
  pub wrlock : Lock → Option Lock
  pub unlock : Lock → Lock
  pub readers : Lock → ℕ
  pub writer : Lock → Bool
  pub init_free : (readers init ≡ 0) × (writer init ≡ false)
  pub rdlock_law :
      (l l' : Lock)
      → rdlock l ≡ some l'
      → (writer l ≡ false) × (readers l' ≡ readers l + 1) × (writer l' ≡ false)
  pub wrlock_law :
      (l l' : Lock)
      → wrlock l ≡ some l'
      → (writer l ≡ false) × (readers l ≡ 0) × (readers l' ≡ 0) × (writer l' ≡ true)
  pub unlock_read :
      (l : Lock)
      → 0 < readers l
      → writer l ≡ false
      → (readers (unlock l) + 1 ≡ readers l) × (writer (unlock l) ≡ false)
  pub unlock_write :
      (l : Lock) → writer l ≡ true → (readers (unlock l) ≡ readers l) × (writer (unlock l) ≡ false)

-- Where a thread stands in the functions of one of the locks.
pub data Pc : Type 0 where
  outside : Pc
  r_asking : Pc  -- in `r_lock`, before the test of the flag
  r_entering : Pc  -- before `pthread_rwlock_rdlock`
  reading : Pc
  w_asking : Pc  -- in `w_lock`, at its start
  w_entering : Pc  -- before `pthread_rwlock_wrlock`
  w_got : Pc  -- behind it, still in `w_lock`
  writing : Pc
