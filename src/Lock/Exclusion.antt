-- ===== src/Lock/Exclusion.antt =====
-- The counters of the lock agree with the threads, and so readers and writers exclude one another.
use dbs_assignment.Prelude.{ℕ, ◌+◌, ◌≤◌, ◌≡◌, refl, ◌⊎◌, inl, Bool, arith}
use dbs_assignment.Lock.{
  RwLock, rw_read_lock, rw_write_lock, lock_round, rw_lock_lock, rw_lock_unlock,
}
use dbs_assignment.Lock.Threads.{
  Pc, Move, lock, sleep, wake, sleep_on, spurious, unlock, roused, notify, roused-is_reader,
  roused-is_writer, roused-is_waiting_writer, count-notify, System, Step, turn, start, Reach, begin,
  later, is_reader, is_writer, is_waiting_writer, one_if, count, count-append, count-replicate,
}

-- The counters are what they are named for, and at most one side holds the lock.
pub record Inv (s : System) : Type 0 where
  pub readers : s.shared.num_readers ≡ count is_reader s.threads
  pub writers : s.shared.num_writers ≡ count is_writer s.threads
  pub waiters : s.shared.num_waiting_writers ≡ count is_waiting_writer s.threads
  pub one_writer : s.shared.num_writers ≤ 1
  pub apart : (s.shared.num_writers ≡ 0) ⊎ (s.shared.num_readers ≡ 0)

-- What a move does to the counters, and that it lets nobody in beside a writer.
record Effect (l l' : RwLock) (p q : Pc) : Type 0 where
  readers : l'.num_readers + one_if (is_reader p) ≡ l.num_readers + one_if (is_reader q)
  writers : l'.num_writers + one_if (is_writer p) ≡ l.num_writers + one_if (is_writer q)
  waiters :
      l'.num_waiting_writers + one_if (is_waiting_writer p)
      ≡ l.num_waiting_writers + one_if (is_waiting_writer q)
  one_writer : l.num_writers ≤ 1 → l'.num_writers ≤ 1
  apart : (l.num_writers ≡ 0) ⊎ (l.num_readers ≡ 0) → (l'.num_writers ≡ 0) ⊎ (l'.num_readers ≡ 0)

-- A writer that sleeps has announced itself.
abbrev Announced : RwLock → Pc → Type 0
Announced l p = one_if (is_waiting_writer p) ≤ l.num_waiting_writers

Move-Effect :
    {l l' : RwLock} {b : Bool} {p q : Pc} → Move l l' b p q → Announced l p → Effect l l' p q
unfolding lock_round rw_lock_lock rw_lock_unlock
Move-Effect (lock rw_read_lock e) a = ground arith
Move-Effect (lock rw_write_lock e) a = ground arith
Move-Effect (sleep rw_read_lock e) a = ground arith
Move-Effect (sleep rw_write_lock e) a = ground arith
Move-Effect (wake rw_read_lock e) a = ground arith
Move-Effect (wake rw_write_lock e) a = ground arith
Move-Effect (sleep_on rw_read_lock e) a = ground arith
Move-Effect (sleep_on rw_write_lock e) a = ground arith
Move-Effect (spurious rw_read_lock e) a = ground arith
Move-Effect (spurious rw_write_lock e) a = ground arith
Move-Effect (unlock rw_read_lock e) a = ground arith
Move-Effect (unlock rw_write_lock e) a = ground arith

-- The counters after a step count the threads after it.
Step-Inv : {s t : System} → Step s t → Inv s → Inv t
Step-Inv {s} {t} (turn {b} {p} {q} before behind mv es et) inv = record {
  readers =
      omega (arith, f.readers, inv.readers, counted is_reader, counted' is_reader roused-is_reader);
  writers =
      omega (arith, f.writers, inv.writers, counted is_writer, counted' is_writer roused-is_writer);
  waiters = omega (
    arith,
    f.waiters,
    inv.waiters,
    counted is_waiting_writer,
    counted' is_waiting_writer roused-is_waiting_writer,
  );
  one_writer = f.one_writer inv.one_writer;
  apart = f.apart inv.apart;
}
  where
    counted : (k : Pc → Bool) → count k s.threads ≡ count k before + one_if (k p) + count k behind
    counted k = rw es (count-append k before p behind)

    counted' :
        (k : Pc → Bool)
        → ((x : Pc) → k (roused x) ≡ k x)
        → count k t.threads ≡ count k before + one_if (k q) + count k behind
    counted' k same =
        rw
          (
            et,
            count-append k (notify b before) q (notify b behind),
            count-notify k same b before,
            count-notify k same b behind,
          )
          refl

    f : Effect s.shared t.shared p q
    f = Move-Effect mv (omega (arith, counted is_waiting_writer, inv.waiters))

start-Inv : (n : ℕ) → Inv (start n)
start-Inv n = record {
  readers = omega (arith, count-replicate is_reader n refl);
  writers = omega (arith, count-replicate is_writer n refl);
  waiters = omega (arith, count-replicate is_waiting_writer n refl);
  one_writer = omega arith;
  apart = inl refl;
}

pub Reach-Inv : {n : ℕ} {s : System} → Reach n s → Inv s
Reach-Inv {n} begin = start-Inv n
Reach-Inv (later r st) = Step-Inv st (Reach-Inv r)

-- However the threads are interleaved, at most one of them holds the lock as a writer, and while
-- one does, none holds it as a reader.
pub mutual_exclusion :
    {n : ℕ} {s : System}
    → Reach n s
    → (count is_writer s.threads ≤ 1)
      × ((count is_writer s.threads ≡ 0) ⊎ (count is_reader s.threads ≡ 0))
mutual_exclusion {s} r =
    let inv = Reach-Inv r in
    (
      omega (arith, inv.one_writer, inv.writers),
      ground (arith, inv.apart, inv.writers, inv.readers),
    )
