-- ===== src/Lock.antt =====
-- rw_lock.h and rw_lock.cpp: the readers-writers lock, a critical section of its mutex at a time.
-- The codes that the pthread functions return are a parameter, a record of them for one call.
-- The counters are guarded against going below zero, so they are natural numbers.
pub mod Threads
pub mod Exclusion
pub mod Signals
pub mod Waiting
pub mod Calls
use dbs_assignment.Prelude.{
  ℕ, ◌+◌, ◌-◌, Bool, true, false, ◌||◌, Option, none, some, ltb, ◌==◌, if◌then◌else◌,
}
use dbs_assignment.Prelude.Int.{ℤ, pos, neg, is_zero}
use dbs_assignment.Errno.{eperm, einval}

-- `rw_lock_t`, without its mutex and condition variable
pub record RwLock : Type 0 where
  pub num_readers : ℕ
  pub num_writers : ℕ
  pub num_waiting_writers : ℕ

-- `rw_lock_mode_t`
pub data RwLockMode : Type 0 where
  rw_read_lock rw_write_lock : RwLockMode

-- What each pthread function returns in the call at hand.
pub record Pthread : Type 0 where
  pub mutex_init : ℤ
  pub cond_init : ℤ
  pub mutex_destroy : ℤ
  pub cond_destroy : ℤ
  pub mutex_lock : ℤ
  pub mutex_unlock : ℤ

abbrev pub pthread_ok : Pthread
pthread_ok = record {
  mutex_init = pos 0;
  cond_init = pos 0;
  mutex_destroy = pos 0;
  cond_destroy = pos 0;
  mutex_lock = pos 0;
  mutex_unlock = pos 0;
}

-- `RW_LOCK_INITIALIZER`
abbrev pub rw_lock_initializer : RwLock
rw_lock_initializer = record { num_readers = 0; num_writers = 0; num_waiting_writers = 0 }

-- A null pointer is `none`.
unfoldable pub rw_lock_init : Pthread → Option RwLock → ℤ × Option RwLock
rw_lock_init p none = (neg einval, none)
rw_lock_init p (some l) =
    if is_zero p.mutex_init
    then if is_zero p.cond_init
      then (p.cond_init, some rw_lock_initializer)
      else (p.cond_init, some l)
    else (p.mutex_init, some l)

unfoldable pub rw_lock_destroy : Pthread → Option RwLock → ℤ
rw_lock_destroy p none = neg einval
rw_lock_destroy p (some l) =
    if is_zero p.mutex_destroy
    then if is_zero p.cond_destroy then pos 0 else p.cond_destroy
    else p.mutex_destroy

-- A call of `rw_lock_lock` either returns, or it sleeps in `pthread_cond_wait`.
pub data LockCall : Type 0 where
  returned : ℤ → Option RwLock → LockCall
  waiting : RwLock → LockCall

-- The test of the `while` loop.
unfoldable pub must_wait : RwLockMode → RwLock → Bool
must_wait rw_read_lock l = ltb 0 l.num_writers || ltb 0 l.num_waiting_writers
must_wait rw_write_lock l = ltb 0 l.num_writers || ltb 0 l.num_readers

-- What stands before the loop: a writer announces itself.
unfoldable pub announce : RwLockMode → RwLock → RwLock
announce rw_read_lock l = l
announce rw_write_lock l = record l { num_waiting_writers = l.num_waiting_writers + 1 }

-- What stands behind the loop.
unfoldable pub acquire : RwLockMode → RwLock → RwLock
acquire rw_read_lock l = record l { num_readers = l.num_readers + 1 }
acquire rw_write_lock l = record l {
  num_writers = l.num_writers + 1;
  num_waiting_writers = l.num_waiting_writers - 1;
}

-- One round of the loop: at the first test, and after each return of `pthread_cond_wait`.
unfoldable pub lock_round : Pthread → RwLockMode → RwLock → LockCall
unfolding must_wait acquire
lock_round p mode l =
    if must_wait mode l
    then waiting l
    else returned (if is_zero p.mutex_unlock then pos 0 else p.mutex_unlock) (some (acquire mode l))

unfoldable pub rw_lock_lock : Pthread → Option RwLock → RwLockMode → LockCall
unfolding lock_round announce
rw_lock_lock p none mode = returned (neg einval) none
rw_lock_lock p (some l) mode =
    if is_zero p.mutex_lock
    then lock_round p mode (announce mode l)
    else returned p.mutex_lock (some l)

-- The counter that an owner of the mode has raised.
unfoldable pub owners : RwLockMode → RwLock → ℕ
owners rw_read_lock l = l.num_readers
owners rw_write_lock l = l.num_writers

unfoldable pub disown : RwLockMode → RwLock → RwLock
disown rw_read_lock l = record l { num_readers = l.num_readers - 1 }
disown rw_write_lock l = record l { num_writers = l.num_writers - 1 }

-- The code, whether `pthread_cond_broadcast` has been called (its own code is ignored), and the lock.
unfoldable pub rw_lock_unlock : Pthread → Option RwLock → RwLockMode → ℤ × Bool × Option RwLock
unfolding owners disown
rw_lock_unlock p none mode = (neg einval, false, none)
rw_lock_unlock p (some l) mode =
    if is_zero p.mutex_lock
    then if owners mode l == 0
      then (if is_zero p.mutex_unlock then neg eperm else p.mutex_unlock, false, some l)
      else (if is_zero p.mutex_unlock then pos 0 else p.mutex_unlock, true, some (disown mode l))
    else (p.mutex_lock, false, some l)
