-- ===== src/Lock/Calls.antt =====
-- What one call of the functions of rw_lock.cpp returns, on each of its branches.
use dbs_assignment.Prelude.{ℕ, ◌≡◌, ◌↔◌, true, some, arith}
use dbs_assignment.Prelude.Int.{pos, neg}
use dbs_assignment.Errno.{eperm}
use dbs_assignment.Lock.{
  RwLock, RwLockMode, rw_read_lock, rw_write_lock, pthread_ok, returned, rw_lock_lock,
  rw_lock_unlock,
}
use dbs_assignment.Lock.Threads.{System, Reach, is_reader, is_writer, count}
use dbs_assignment.Lock.Exclusion.{Reach-Inv}

-- After a call of `rw_lock_lock` that returns 0 at once, an unlock in the same mode returns 0, wakes
-- the sleepers and puts every counter back, that of the waiting writers included.
pub unlock-lock :
    (m : RwLockMode) (l : RwLock) (l' : RwLock)
    → rw_lock_lock pthread_ok (some l) m ≡ returned (pos 0) (some l')
    → rw_lock_unlock pthread_ok (some l') m ≡ (pos 0, true, some l)
unfolding rw_lock_lock rw_lock_unlock
unlock-lock rw_read_lock l l' h = ground arith
unlock-lock rw_write_lock l l' h = ground arith

-- The test of each mode reads the counter of that mode.
eperm_iff-read :
    (l : RwLock)
    → ((rw_lock_unlock pthread_ok (some l) rw_read_lock).0 ≡ neg eperm) ↔ (l.num_readers ≡ 0)
unfolding rw_lock_unlock
eperm_iff-read l = ground arith

eperm_iff-write :
    (l : RwLock)
    → ((rw_lock_unlock pthread_ok (some l) rw_write_lock).0 ≡ neg eperm) ↔ (l.num_writers ≡ 0)
unfolding rw_lock_unlock
eperm_iff-write l = ground arith

-- However the threads have been interleaved, an unlock in read mode returns -EPERM exactly when no
-- thread holds the lock as a reader, and one in write mode exactly when none holds it as a writer, if
-- the mutex can be taken and given back.
pub unlock-eperm_iff :
    {n : ℕ} {s : System}
    → Reach n s
    → (((rw_lock_unlock pthread_ok (some s.shared) rw_read_lock).0 ≡ neg eperm)
        ↔ (count is_reader s.threads ≡ 0))
      × (((rw_lock_unlock pthread_ok (some s.shared) rw_write_lock).0 ≡ neg eperm)
          ↔ (count is_writer s.threads ≡ 0))
unlock-eperm_iff {s} r =
    let inv = Reach-Inv r in
    rw (← inv.readers, ← inv.writers) (eperm_iff-read s.shared, eperm_iff-write s.shared)
