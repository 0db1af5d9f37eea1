-- ===== src/Lock/Signals.antt =====
-- What the broadcast at the end of `rw_lock_unlock` is for: who may still sleep without a signal.
use dbs_assignment.Prelude.{
  ℕ, ◌+◌, ◌<◌, ◌≡◌, refl, ◌⊎◌, inl, inr, Bool, true, false, List, ◌∷◌, ◌++◌, arith, Bool-cases,
}
use dbs_assignment.Lock.{
  RwLock, rw_read_lock, rw_write_lock, lock_round, rw_lock_lock, rw_lock_unlock,
}
use dbs_assignment.Lock.Threads.{
  Pc, outside, asleep, woken, holding, Move, lock, sleep, wake, sleep_on, spurious, unlock, System,
  Step, turn, start, Reach, begin, later, roused, broadcast, notify, one_if, count, count-append,
  count-broadcast, count-replicate,
}

abbrev pub is_asleep_writer : Pc → Bool
is_asleep_writer (asleep rw_write_lock) = true
is_asleep_writer _ = false

abbrev pub is_asleep_reader : Pc → Bool
is_asleep_reader (asleep rw_read_lock) = true
is_asleep_reader _ = false

-- A writer sleeps without a signal only while somebody holds the lock, and a reader only while a
-- writer holds it or waits for it.
pub record Sleepers (s : System) : Type 0 where
  pub asleep_writers :
      (0 < s.shared.num_readers + s.shared.num_writers) ⊎ (count is_asleep_writer s.threads ≡ 0)
  pub asleep_readers :
      (0 < s.shared.num_writers + s.shared.num_waiting_writers)
      ⊎ (count is_asleep_reader s.threads ≡ 0)

-- A move without a broadcast, where `n` others sleep.
Move-writers :
    {l l' : RwLock} {b : Bool} {p q : Pc}
    → Move l l' b p q
    → b ≡ false
    → (n : ℕ) → (0 < l.num_readers + l.num_writers) ⊎ (n + one_if (is_asleep_writer p) ≡ 0)
    → (0 < l'.num_readers + l'.num_writers) ⊎ (n + one_if (is_asleep_writer q) ≡ 0)
unfolding lock_round rw_lock_lock rw_lock_unlock
Move-writers (lock rw_read_lock e) f n h = ground arith
Move-writers (lock rw_write_lock e) f n h = ground arith
Move-writers (sleep rw_read_lock e) f n h = ground arith
Move-writers (sleep rw_write_lock e) f n h = ground arith
Move-writers (wake rw_read_lock e) f n h = ground arith
Move-writers (wake rw_write_lock e) f n h = ground arith
Move-writers (sleep_on rw_read_lock e) f n h = ground arith
Move-writers (sleep_on rw_write_lock e) f n h = ground arith
Move-writers (spurious rw_read_lock e) f n h = ground arith
Move-writers (spurious rw_write_lock e) f n h = ground arith
Move-writers (unlock rw_read_lock e) f n h = ground arith
Move-writers (unlock rw_write_lock e) f n h = ground arith

Move-readers :
    {l l' : RwLock} {b : Bool} {p q : Pc}
    → Move l l' b p q
    → b ≡ false
    → (n : ℕ) → (0 < l.num_writers + l.num_waiting_writers) ⊎ (n + one_if (is_asleep_reader p) ≡ 0)
    → (0 < l'.num_writers + l'.num_waiting_writers) ⊎ (n + one_if (is_asleep_reader q) ≡ 0)
unfolding lock_round rw_lock_lock rw_lock_unlock
Move-readers (lock rw_read_lock e) f n h = ground arith
Move-readers (lock rw_write_lock e) f n h = ground arith
Move-readers (sleep rw_read_lock e) f n h = ground arith
Move-readers (sleep rw_write_lock e) f n h = ground arith
Move-readers (wake rw_read_lock e) f n h = ground arith
Move-readers (wake rw_write_lock e) f n h = ground arith
Move-readers (sleep_on rw_read_lock e) f n h = ground arith
Move-readers (sleep_on rw_write_lock e) f n h = ground arith
Move-readers (spurious rw_read_lock e) f n h = ground arith
Move-readers (spurious rw_write_lock e) f n h = ground arith
Move-readers (unlock rw_read_lock e) f n h = ground arith
Move-readers (unlock rw_write_lock e) f n h = ground arith

-- The thread that broadcasts goes outside.
broadcast-outside : {l l' : RwLock} {b : Bool} {p q : Pc} → Move l l' b p q → b ≡ true → q ≡ outside
broadcast-outside (lock m e) h = cc
broadcast-outside (sleep m e) h = cc
broadcast-outside (wake m e) h = cc
broadcast-outside (sleep_on m e) h = cc
broadcast-outside (spurious m e) h = cc
broadcast-outside (unlock m e) h = refl

roused-is_asleep_writer : (p : Pc) → is_asleep_writer (roused p) ≡ false
roused-is_asleep_writer outside = refl
roused-is_asleep_writer (asleep m) = refl
roused-is_asleep_writer (woken m) = refl
roused-is_asleep_writer (holding m) = refl

roused-is_asleep_reader : (p : Pc) → is_asleep_reader (roused p) ≡ false
roused-is_asleep_reader outside = refl
roused-is_asleep_reader (asleep m) = refl
roused-is_asleep_reader (woken m) = refl
roused-is_asleep_reader (holding m) = refl

-- After a broadcast by a thread that goes outside nobody sleeps.
all_roused :
    (k : Pc → Bool) (b : Bool) (before behind : List Pc) (q : Pc)
    → ((p : Pc) → k (roused p) ≡ false)
    → b ≡ true
    → q ≡ outside
    → count k (notify b before ++ q ∷ notify b behind) ≡ 0
all_roused k b before behind q none f e =
    rw (f, e, count-append k (broadcast before) outside (broadcast behind), none outside)
      (omega (arith, count-broadcast k none before, count-broadcast k none behind))

Step-Sleepers : {s t : System} → Step s t → Sleepers s → Sleepers t
Step-Sleepers {s} {t} (turn {b} {p} {q} before behind mv es et) inv = elim (Bool-cases b) [
  | inl f ↦ record {
    asleep_writers = inr (
        rw et (
          all_roused is_asleep_writer b before behind q roused-is_asleep_writer f
            (broadcast-outside mv f)));
    asleep_readers = inr (
        rw et (
          all_roused is_asleep_reader b before behind q roused-is_asleep_reader f
            (broadcast-outside mv f)));
  }
  | inr f ↦ record {
    asleep_writers = ground (
      arith,
      Move-writers mv f (count is_asleep_writer before + count is_asleep_writer behind)
          (ground (arith, inv.asleep_writers, counted is_asleep_writer)),
      counted' is_asleep_writer f,
    );
    asleep_readers = ground (
      arith,
      Move-readers mv f (count is_asleep_reader before + count is_asleep_reader behind)
          (ground (arith, inv.asleep_readers, counted is_asleep_reader)),
      counted' is_asleep_reader f,
    );
  }
]
  where
    counted : (k : Pc → Bool) → count k s.threads ≡ count k before + one_if (k p) + count k behind
    counted k = rw es (count-append k before p behind)

    counted' :
        (k : Pc → Bool)
        → b ≡ false
        → count k t.threads ≡ count k before + one_if (k q) + count k behind
    counted' k f = rw (et, f) (count-append k before q behind)

start-Sleepers : (n : ℕ) → Sleepers (start n)
start-Sleepers n = record {
  asleep_writers = inr (count-replicate is_asleep_writer n refl);
  asleep_readers = inr (count-replicate is_asleep_reader n refl);
}

pub Reach-Sleepers : {n : ℕ} {s : System} → Reach n s → Sleepers s
Reach-Sleepers {n} begin = start-Sleepers n
Reach-Sleepers (later r st) = Step-Sleepers st (Reach-Sleepers r)
