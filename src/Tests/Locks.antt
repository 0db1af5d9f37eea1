-- ===== src/Tests/Locks.antt =====
-- Examples of the theorems on rw_lock.cpp: a writer, and readers and writers that come after it.
use dbs_assignment.Prelude.{◌≡◌, ◌⊎◌, ◌↔◌, ◌≤◌, refl, some, true, [], ◌∷◌, arith}
use dbs_assignment.Prelude.Int.{pos, neg}
use dbs_assignment.Errno.{eperm}
use dbs_assignment.Lock.{
  RwLock, rw_read_lock, rw_write_lock, pthread_ok, rw_lock_lock, rw_lock_unlock,
}
use dbs_assignment.Lock.Threads.{
  outside, asleep, woken, holding, broadcast, lock, sleep, unlock, System, Step, turn, Reach, begin,
  later, is_reader, is_writer, count,
}
use dbs_assignment.Lock.Exclusion.{mutual_exclusion}
use dbs_assignment.Lock.Waiting.{writer_preference, no_deadlock, GetsLock}
use dbs_assignment.Lock.Calls.{unlock-lock, unlock-eperm_iff}

-- A writer holds the lock.
abbrev written : System
written = record {
  shared = record { num_readers = 0; num_writers = 1; num_waiting_writers = 0 };
  threads = holding rw_write_lock ∷ outside ∷ outside ∷ [];
}

-- A second writer sleeps.
abbrev contended : System
contended = record {
  shared = record { num_readers = 0; num_writers = 1; num_waiting_writers = 1 };
  threads = holding rw_write_lock ∷ asleep rw_write_lock ∷ outside ∷ [];
}

-- The first writer has gone, and has signalled the second, which has not run yet.
abbrev left : System
left = record {
  shared = record { num_readers = 0; num_writers = 0; num_waiting_writers = 1 };
  threads = outside ∷ woken rw_write_lock ∷ outside ∷ [];
}

-- A third thread asks to read meanwhile.
abbrev queued : System
queued = record {
  shared = record { num_readers = 0; num_writers = 0; num_waiting_writers = 1 };
  threads = outside ∷ woken rw_write_lock ∷ asleep rw_read_lock ∷ [];
}

to_written : Reach 3 written
unfolding rw_lock_lock
to_written = later begin (turn [] (outside ∷ outside ∷ []) (lock rw_write_lock refl) refl refl)

to_contended : Reach 3 contended
unfolding rw_lock_lock
to_contended =
    later to_written
      (turn (holding rw_write_lock ∷ []) (outside ∷ []) (sleep rw_write_lock refl) refl refl)

to_left : Reach 3 left
unfolding rw_lock_unlock broadcast
to_left =
    later to_contended
      (turn [] (asleep rw_write_lock ∷ outside ∷ []) (unlock rw_write_lock refl) refl refl)

ask_to_read : Step left queued
unfolding rw_lock_lock
ask_to_read = turn (outside ∷ woken rw_write_lock ∷ []) [] (sleep rw_read_lock refl) refl refl

mutual_exclusion_example :
    (count is_writer contended.threads ≤ 1)
    × ((count is_writer contended.threads ≡ 0) ⊎ (count is_reader contended.threads ≡ 0))
mutual_exclusion_example = mutual_exclusion to_contended

writer_preference_example : count is_reader queued.threads ≤ count is_reader left.threads
unfolding count
writer_preference_example = writer_preference to_left ask_to_read (omega arith)

no_deadlock_example : GetsLock queued
unfolding count
no_deadlock_example = no_deadlock (later to_left ask_to_read) refl refl (omega arith)

abbrev three_readers : RwLock
three_readers = record { num_readers = 3; num_writers = 0; num_waiting_writers = 0 }

abbrev four_readers : RwLock
four_readers = record { num_readers = 4; num_writers = 0; num_waiting_writers = 0 }

unlock-lock_example :
    rw_lock_unlock pthread_ok (some four_readers) rw_read_lock ≡ (pos 0, true, some three_readers)
unfolding rw_lock_lock
unlock-lock_example = unlock-lock rw_read_lock three_readers four_readers refl

unlock-eperm_iff_example :
    (((rw_lock_unlock pthread_ok (some contended.shared) rw_read_lock).0 ≡ neg eperm)
      ↔ (count is_reader contended.threads ≡ 0))
    × (((rw_lock_unlock pthread_ok (some contended.shared) rw_write_lock).0 ≡ neg eperm)
        ↔ (count is_writer contended.threads ≡ 0))
unlock-eperm_iff_example = unlock-eperm_iff to_contended
