-- ===== src/Server/Locking.antt =====
-- The lock handlers of watdfs_server.cpp, and a lock call that goes on after it has slept, keep the map
-- in step with the clients that have files open.
use text.Mathlib.Text.{◌==◌ as str_eq}
use dbs_assignment.Prelude.{
  ℕ, ◌<◌, ◌≡◌, ◌≢◌, ◌⊎◌, refl, Option, none, some, List, String, arith, subst, Bool-cases, inl, inr,
  eq_iff,
}
use dbs_assignment.Prelude.Int.{ℤ}
use dbs_assignment.Prelude.Dict.{lookup-insert}
use dbs_assignment.Lock.{
  RwLock, RwLockMode, Pthread, lock_round, rw_lock_lock, rw_lock_unlock, returned, waiting,
  LockCall,
}
use dbs_assignment.System.{Os}
use dbs_assignment.Server.{FileStatus, zero_status, Server}
use dbs_assignment.Server.Locks.{
  status_of, with_lock, answered, blocked, server_after, watdfs_lock, resume_lock, watdfs_unlock,
}
use dbs_assignment.Server.Openers.{Handle, openers_of, writers_of, Inv, Entry}

-- A lock that is there is still there after a call.
rw_lock_unlock-some :
    (pt : Pthread) (l : Option RwLock) (mode : RwLockMode)
    → l ≢ none
    → (rw_lock_unlock pt l mode).2 ≢ none
unfolding rw_lock_unlock
rw_lock_unlock-some pt none mode ok = absurd (ok refl)
rw_lock_unlock-some pt (some l) mode ok = ground arith

rw_lock_lock-some :
    (pt : Pthread) (l : Option RwLock) (mode : RwLockMode) (c : ℤ) (l' : Option RwLock)
    → l ≢ none
    → rw_lock_lock pt l mode ≡ returned c l'
    → l' ≢ none
unfolding rw_lock_lock
rw_lock_lock-some pt none mode c l' ok e = absurd (ok refl)
rw_lock_lock-some pt (some l) mode c l' ok e = ground arith

lock_round-some :
    (pt : Pthread) (l : RwLock) (mode : RwLockMode) (c : ℤ) (l' : Option RwLock)
    → lock_round pt mode l ≡ returned c l'
    → l' ≢ none
unfolding lock_round
lock_round-some pt l mode c l' e = ground arith

-- The entry of a file with a client.
opened-Entry :
    (o : Option FileStatus) (n w : ℕ)
    → Entry o n w
    → 0 < n
    → (o ≡ some (elim o [ none ↦ zero_status | some st ↦ st ]))
      × Entry (some (elim o [ none ↦ zero_status | some st ↦ st ])) n w
opened-Entry none n w e h = absurd (omega (arith, e))
opened-Entry (some st) n w e h = (refl, e)

-- The lock of an open file changes to another one.
with_lock-Inv :
    {D : Type 0} (s : Server D) (hs : List Handle) (path : String) (l : Option RwLock)
    → Inv s hs
    → 0 < openers_of path hs
    → l ≢ none
    → Inv (with_lock path l s) hs
with_lock-Inv s hs path l inv h ok p = elim (Bool-cases (str_eq path p)) [
  | inl same ↦
      let e = (opened-Entry _ _ _ (inv path) h).1 in
      rw (lookup-insert, same)
        (subst
          (λ q.
            Entry (some (record (status_of path s) { lock = l })) (openers_of q hs)
              (writers_of q hs))
          ((eq_iff path p).0 same) (e.0, e.1, e.2, e.3, e.4, ok))
  | inr differ ↦ rw (lookup-insert, differ) (inv p)
]

-- The lock of an open file is not null.
status_of-lock :
    {D : Type 0} (s : Server D) (hs : List Handle) (path : String)
    → Inv s hs
    → 0 < openers_of path hs
    → (status_of path s).lock ≢ none
status_of-lock s hs path inv h = (opened-Entry _ _ _ (inv path) h).1.5

LockCall-cases :
    (r : LockCall)
    → ((c : ℤ) × (l : Option RwLock) × (r ≡ returned c l)) ⊎ ((l : RwLock) × (r ≡ waiting l))
LockCall-cases (returned c l) = inl (c, l, refl)
LockCall-cases (waiting l) = inr (l, refl)

answered-injective :
    {D : Type 0} {a b c d : ℤ} {s t : Server D} → answered a b s ≡ answered c d t → s ≡ t
answered-injective e = cc e

blocked-injective : {D : Type 0} {s t : Server D} → blocked s ≡ blocked t → s ≡ t
blocked-injective e = cc e

module _ {D : Type 0} (os : Os D) (path : String) (mode : RwLockMode) (pt : Pthread) (s : Server D)
    (hs : List Handle) (inv : Inv s hs) (h : 0 < openers_of path hs) where
  pub lock_answered-Inv :
      (a b : ℤ) (s' : Server D) → watdfs_lock os pt path mode s ≡ answered a b s' → Inv s' hs
  unfolding watdfs_lock
  lock_answered-Inv a b s' e =
      elim (LockCall-cases (rw_lock_lock pt (status_of path s).lock mode)) [
        | inl (c, l, r) ↦
            subst (λ t. Inv t hs) (answered-injective (rw (watdfs_lock, r) at e))
              (with_lock-Inv s hs path l inv h (
                rw_lock_lock-some pt (status_of path s).lock mode c l
                  (status_of-lock s hs path inv h) r))
        | inr (l, r) ↦ absurd (cc (rw (watdfs_lock, r) at e))
      ]

  pub lock_blocked-Inv : (s' : Server D) → watdfs_lock os pt path mode s ≡ blocked s' → Inv s' hs
  unfolding watdfs_lock
  lock_blocked-Inv s' e = elim (LockCall-cases (rw_lock_lock pt (status_of path s).lock mode)) [
    | inl (c, l, r) ↦ absurd (cc (rw (watdfs_lock, r) at e))
    | inr (l, r) ↦
        subst (λ t. Inv t hs) (blocked-injective (rw (watdfs_lock, r) at e))
          (with_lock-Inv s hs path (some l) inv h (ground arith))
  ]

  pub resume-Inv :
      (l : RwLock)
      → (status_of path s).lock ≡ some l
      → Inv (server_after (resume_lock os pt path mode l s)) hs
  unfolding resume_lock
  resume-Inv l e = elim (LockCall-cases (lock_round pt mode l)) [
    | inl (c, l', r) ↦
        rw (resume_lock, r) (with_lock-Inv s hs path l' inv h (lock_round-some pt l mode c l' r))
    | inr (l', r) ↦ rw (resume_lock, r) (with_lock-Inv s hs path (some l') inv h (ground arith))
  ]

  pub unlock-Inv : Inv (watdfs_unlock os pt path mode s).2 hs
  unfolding watdfs_unlock
  unlock-Inv =
      with_lock-Inv s hs path _ inv h
        (rw_lock_unlock-some pt (status_of path s).lock mode (status_of-lock s hs path inv h))
