-- ===== src/Lock/Waiting.antt =====
-- Threads that wait for the lock of rw_lock.cpp: writers come first, and a lock that is free is never
-- left to threads that sleep without a signal.
use dbs_assignment.Prelude.{
  ℕ, ◌+◌, ◌≤◌, ◌<◌, ◌≡◌, refl, ◌⊎◌, inl, inr, Bool, true, false, some, List, [], ◌∷◌, ◌++◌, arith,
}
use dbs_assignment.Prelude.Int.{pos}
use dbs_assignment.Lock.{
  RwLock, RwLockMode, rw_read_lock, rw_write_lock, pthread_ok, returned, lock_round, rw_lock_lock,
  acquire,
}
use dbs_assignment.Lock.Threads.{
  Pc, outside, asleep, woken, holding, Move, lock, sleep, wake, sleep_on, spurious, unlock, notify,
  count-notify, roused-is_reader, System, Step, turn, Reach, is_reader, is_writer,
  is_waiting_writer, one_if, count, count-append, find_counted,
}
use dbs_assignment.Lock.Exclusion.{Inv, Reach-Inv}
use dbs_assignment.Lock.Signals.{is_asleep_writer, is_asleep_reader, Reach-Sleepers}

Move-preference :
    {l l' : RwLock} {b : Bool} {p q : Pc}
    → Move l l' b p q
    → 0 < l.num_waiting_writers
    → one_if (is_reader q) ≤ one_if (is_reader p)
unfolding lock_round rw_lock_lock
Move-preference (lock rw_read_lock e) h = ground arith
Move-preference (wake rw_read_lock e) h = ground arith
Move-preference (lock rw_write_lock e) h = omega arith
Move-preference (sleep m e) h = omega arith
Move-preference (wake rw_write_lock e) h = omega arith
Move-preference (sleep_on m e) h = omega arith
Move-preference (spurious m e) h = omega arith
Move-preference (unlock m e) h = omega arith

-- While a writer waits no thread becomes a reader: no step raises the number of readers.
pub writer_preference :
    {n : ℕ} {s t : System}
    → Reach n s
    → Step s t
    → 0 < count is_waiting_writer s.threads
    → count is_reader t.threads ≤ count is_reader s.threads
writer_preference r (turn {b} {p} {q} before behind mv es et) h =
    rw
      (
        es,
        et,
        count-append is_reader before p behind,
        count-append is_reader (notify b before) q (notify b behind),
        count-notify is_reader roused-is_reader b before,
        count-notify is_reader roused-is_reader b behind,
      )
      (omega (arith, Move-preference mv (omega (arith, (Reach-Inv r).waiters))))

abbrev pub is_waiting : Pc → Bool
is_waiting (asleep m) = true
is_waiting (woken m) = true
is_waiting _ = false

-- On a lock that nobody holds a writer goes through, and a reader too if no writer waits.
lock_round_free :
    (m : RwLockMode) (l : RwLock)
    → l.num_readers ≡ 0
    → l.num_writers ≡ 0
    → (m ≡ rw_write_lock) ⊎ (l.num_waiting_writers ≡ 0)
    → lock_round pthread_ok m l ≡ returned (pos 0) (some (acquire m l))
unfolding lock_round
lock_round_free rw_read_lock l r w h = ground arith
lock_round_free rw_write_lock l r w h = ground arith

-- A thread whose wait is over, and that goes through its loop and holds the lock in its next step.
abbrev pub GetsLock : System → Type 0
GetsLock s =
    (m : RwLockMode) × (before : List Pc) × (behind : List Pc) × (t : System) × (s.threads
      ≡ before ++ woken m ∷ behind)
    × (t.threads ≡ before ++ holding m ∷ behind)
    × Step s t

go_through :
    (s : System) (m : RwLockMode) (before behind : List Pc)
    → s.threads ≡ before ++ woken m ∷ behind
    → lock_round pthread_ok m s.shared ≡ returned (pos 0) (some (acquire m s.shared))
    → GetsLock s
go_through s m before behind e runs = (
  m,
  before,
  behind,
  record { shared = acquire m s.shared; threads = before ++ holding m ∷ behind },
  e,
  refl,
  turn before behind (wake m runs) e refl,
)

-- Who waits: writers and readers, asleep or woken.
abbrev is_woken_writer : Pc → Bool
is_woken_writer (woken rw_write_lock) = true
is_woken_writer _ = false

abbrev is_woken_reader : Pc → Bool
is_woken_reader (woken rw_read_lock) = true
is_woken_reader _ = false

woken_writer-inv : (x : Pc) → is_woken_writer x ≡ true → x ≡ woken rw_write_lock
woken_writer-inv outside h = cc
woken_writer-inv (asleep m) h = cc
woken_writer-inv (woken rw_write_lock) h = refl
woken_writer-inv (woken rw_read_lock) h = cc
woken_writer-inv (holding m) h = cc

woken_reader-inv : (x : Pc) → is_woken_reader x ≡ true → x ≡ woken rw_read_lock
woken_reader-inv outside h = cc
woken_reader-inv (asleep m) h = cc
woken_reader-inv (woken rw_write_lock) h = cc
woken_reader-inv (woken rw_read_lock) h = refl
woken_reader-inv (holding m) h = cc

count-waiting_writers :
    (ps : List Pc)
    → count is_waiting_writer ps ≡ count is_asleep_writer ps + count is_woken_writer ps
unfolding count
count-waiting_writers [] = refl
count-waiting_writers (outside ∷ ps) = omega (arith, count-waiting_writers ps)
count-waiting_writers (asleep rw_read_lock ∷ ps) = omega (arith, count-waiting_writers ps)
count-waiting_writers (asleep rw_write_lock ∷ ps) = omega (arith, count-waiting_writers ps)
count-waiting_writers (woken rw_read_lock ∷ ps) = omega (arith, count-waiting_writers ps)
count-waiting_writers (woken rw_write_lock ∷ ps) = omega (arith, count-waiting_writers ps)
count-waiting_writers (holding m ∷ ps) = omega (arith, count-waiting_writers ps)

count-waiting :
    (ps : List Pc)
    → count is_waiting ps
      ≡ count is_waiting_writer ps + count is_asleep_reader ps + count is_woken_reader ps
unfolding count
count-waiting [] = refl
count-waiting (outside ∷ ps) = omega (arith, count-waiting ps)
count-waiting (asleep rw_read_lock ∷ ps) = omega (arith, count-waiting ps)
count-waiting (asleep rw_write_lock ∷ ps) = omega (arith, count-waiting ps)
count-waiting (woken rw_read_lock ∷ ps) = omega (arith, count-waiting ps)
count-waiting (woken rw_write_lock ∷ ps) = omega (arith, count-waiting ps)
count-waiting (holding m ∷ ps) = omega (arith, count-waiting ps)

-- On a lock that nobody holds no writer sleeps, and no reader does unless a writer waits.
free-Sleepers :
    {n : ℕ} {s : System}
    → Reach n s
    → count is_reader s.threads ≡ 0
    → count is_writer s.threads ≡ 0
    → (count is_asleep_writer s.threads ≡ 0)
      × ((0 < count is_waiting_writer s.threads) ⊎ (count is_asleep_reader s.threads ≡ 0))
free-Sleepers r nr nw =
    let inv = Reach-Inv r in
    let sleepers = Reach-Sleepers r in
    (
      ground (arith, inv.readers, inv.writers, sleepers.asleep_writers),
      ground (arith, inv.writers, inv.waiters, sleepers.asleep_readers),
    )

ℕ-cases : (n : ℕ) → (n ≡ 0) ⊎ (0 < n)
ℕ-cases n = omega arith

-- No deadlock, and no lost signal: if threads wait while nobody holds the lock, the wait of one of
-- them is over, by the broadcast of an unlock or otherwise, and as soon as it runs it goes through its
-- loop and holds the lock.
pub no_deadlock :
    {n : ℕ} {s : System}
    → Reach n s
    → count is_reader s.threads ≡ 0
    → count is_writer s.threads ≡ 0
    → 0 < count is_waiting s.threads
    → GetsLock s
no_deadlock {s} r nr nw h = elim (ℕ-cases (count is_waiting_writer s.threads)) [
  | inl none_waits ↦
      let (before, x, behind, counted, e) =
        find_counted is_woken_reader s.threads
          (ground (arith, free.1, none_waits, count-waiting s.threads)) in
      let ex = woken_reader-inv x counted in
      go_through s rw_read_lock before behind (rw ex at e) (
        lock_round_free rw_read_lock s.shared (omega (arith, inv.readers))
          (omega (arith, inv.writers)) (inr (omega (arith, inv.waiters))))
  | inr waits ↦
      let (before, x, behind, counted, e) =
        find_counted is_woken_writer s.threads
          (omega (arith, free.0, count-waiting_writers s.threads)) in
      let ex = woken_writer-inv x counted in
      go_through s rw_write_lock before behind (rw ex at e) (
        lock_round_free rw_write_lock s.shared (omega (arith, inv.readers))
          (omega (arith, inv.writers)) (inl refl))
]
  where
    inv : Inv s
    inv = Reach-Inv r

    free :
        (count is_asleep_writer s.threads ≡ 0)
        × ((0 < count is_waiting_writer s.threads) ⊎ (count is_asleep_reader s.threads ≡ 0))
    free = free-Sleepers r nr nw
