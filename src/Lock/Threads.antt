-- ===== src/Lock/Threads.antt =====
-- Any number of threads that use one lock of rw_lock.cpp, interleaved in any order. A thread only
-- unlocks what it holds, as rw_lock.h asks, and the pthread functions succeed.
use dbs_assignment.Prelude.{
  ℕ, ◌+◌, ◌<◌, ◌≡◌, refl, ap, Bool, true, false, some, List, [], ◌∷◌, ◌++◌, arith, replicate,
  Bool-cases, inl, inr,
}
use dbs_assignment.Prelude.Int.{pos}
use dbs_assignment.Lock.{
  RwLock, RwLockMode, rw_read_lock, rw_write_lock, pthread_ok, rw_lock_initializer, returned,
  waiting, lock_round, rw_lock_lock, rw_lock_unlock,
}

-- Where a thread stands.
pub data Pc : Type 0 where
  outside : Pc
  asleep : RwLockMode → Pc  -- in `pthread_cond_wait`, not signalled
  woken : RwLockMode → Pc  -- its wait is over, and it has not tested the counters since
  holding : RwLockMode → Pc

-- A step of one thread, from the lock `l` to the lock `l'`; the Boolean says whether it broadcasts.
-- `pthread_cond_wait` may also return without a signal.
pub data Move (l l' : RwLock) : Bool → Pc → Pc → Type 0 where
  lock :
      (m : RwLockMode)
      → rw_lock_lock pthread_ok (some l) m ≡ returned (pos 0) (some l')
      → Move l l' false outside (holding m)
  sleep :
      (m : RwLockMode)
      → rw_lock_lock pthread_ok (some l) m ≡ waiting l'
      → Move l l' false outside (asleep m)
  wake :
      (m : RwLockMode)
      → lock_round pthread_ok m l ≡ returned (pos 0) (some l')
      → Move l l' false (woken m) (holding m)
  sleep_on :
      (m : RwLockMode)
      → lock_round pthread_ok m l ≡ waiting l'
      → Move l l' false (woken m) (asleep m)
  spurious : (m : RwLockMode) → l' ≡ l → Move l l' false (asleep m) (woken m)
  unlock :
      (m : RwLockMode) {b : Bool}
      → rw_lock_unlock pthread_ok (some l) m ≡ (pos 0, b, some l')
      → Move l l' b (holding m) outside

pub record System : Type 0 where
  pub shared : RwLock
  pub threads : List Pc

-- `pthread_cond_broadcast` signals every thread that sleeps.
abbrev pub roused : Pc → Pc
roused outside = outside
roused (asleep m) = woken m
roused (woken m) = woken m
roused (holding m) = holding m

unfoldable pub broadcast : List Pc → List Pc
broadcast [] = []
broadcast (p ∷ ps) = roused p ∷ broadcast ps

abbrev pub notify : Bool → List Pc → List Pc
notify true ps = broadcast ps
notify false ps = ps

-- One thread, with any threads before and behind it, makes a move; they are signalled if it
-- broadcasts.
pub data Step (s t : System) : Type 0 where
  turn :
      {b : Bool} {p q : Pc} (before behind : List Pc)
      → Move s.shared t.shared b p q
      → s.threads ≡ before ++ p ∷ behind
      → t.threads ≡ notify b before ++ q ∷ notify b behind
      → Step s t

-- `n` threads, and a lock that `rw_lock_init` has set up.
abbrev pub start : ℕ → System
start n = record { shared = rw_lock_initializer; threads = replicate n outside }

pub data Reach (n : ℕ) : System → Type 0 where
  begin : Reach n (start n)
  later : {s t : System} → Reach n s → Step s t → Reach n t

-- Which threads are counted.
abbrev pub is_reader : Pc → Bool
is_reader (holding rw_read_lock) = true
is_reader _ = false

abbrev pub is_writer : Pc → Bool
is_writer (holding rw_write_lock) = true
is_writer _ = false

abbrev pub is_waiting_writer : Pc → Bool
is_waiting_writer (asleep rw_write_lock) = true
is_waiting_writer (woken rw_write_lock) = true
is_waiting_writer _ = false

abbrev pub one_if : Bool → ℕ
one_if true = 1
one_if false = 0

unfoldable pub count : (Pc → Bool) → List Pc → ℕ
count p [] = 0
count p (x ∷ xs) = one_if (p x) + count p xs

pub count-append :
    (p : Pc → Bool) (xs : List Pc) (x : Pc) (ys : List Pc)
    → count p (xs ++ x ∷ ys) ≡ count p xs + one_if (p x) + count p ys
unfolding count
count-append p [] x ys = omega arith
count-append p (y ∷ xs) x ys = omega (arith, count-append p xs x ys)

pub count-replicate :
    (p : Pc → Bool) (n : ℕ) → p outside ≡ false → count p (replicate n outside) ≡ 0
unfolding count
count-replicate p ℕ.zero h = refl
count-replicate p (ℕ.suc n) h = ground (arith, count-replicate p n h)

-- A thread that is counted stands somewhere in the list.
pub find_counted :
    (p : Pc → Bool) (xs : List Pc)
    → 0 < count p xs
    → (before : List Pc) × (x : Pc) × (behind : List Pc) × (p x ≡ true)
      × (xs ≡ before ++ x ∷ behind)
unfolding count
find_counted p [] h = absurd (omega arith)
find_counted p (x ∷ xs) h = elim (Bool-cases (p x)) [
  | inl yes_x ↦ ([], x, xs, yes_x, refl)
  | inr no_x ↦
      let (before, y, behind, holds, e) = find_counted p xs (ground (arith, no_x)) in
      (x ∷ before, y, behind, holds, ap (λ l. x ∷ l) e)
]

-- A signal leaves a count as it is that does not tell a thread that sleeps from one that is woken.
pub count-notify :
    (k : Pc → Bool)
    → ((p : Pc) → k (roused p) ≡ k p)
    → (b : Bool) (ps : List Pc) → count k (notify b ps) ≡ count k ps
unfolding count broadcast
count-notify k same true [] = refl
count-notify k same true (p ∷ ps) = rw (same p) (omega (arith, count-notify k same true ps))
count-notify k same false ps = refl

-- After a broadcast nobody is counted who is counted only while asleep.
pub count-broadcast :
    (k : Pc → Bool)
    → ((p : Pc) → k (roused p) ≡ false)
    → (ps : List Pc) → count k (broadcast ps) ≡ 0
unfolding count broadcast
count-broadcast k none [] = refl
count-broadcast k none (p ∷ ps) = rw (none p) (omega (arith, count-broadcast k none ps))

pub roused-is_reader : (p : Pc) → is_reader (roused p) ≡ is_reader p
roused-is_reader outside = refl
roused-is_reader (asleep m) = refl
roused-is_reader (woken m) = refl
roused-is_reader (holding m) = refl

pub roused-is_writer : (p : Pc) → is_writer (roused p) ≡ is_writer p
roused-is_writer outside = refl
roused-is_writer (asleep m) = refl
roused-is_writer (woken m) = refl
roused-is_writer (holding m) = refl

pub roused-is_waiting_writer : (p : Pc) → is_waiting_writer (roused p) ≡ is_waiting_writer p
roused-is_waiting_writer outside = refl
roused-is_waiting_writer (asleep rw_read_lock) = refl
roused-is_waiting_writer (asleep rw_write_lock) = refl
roused-is_waiting_writer (woken m) = refl
roused-is_waiting_writer (holding m) = refl
