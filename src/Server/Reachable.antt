-- ===== src/Server/Reachable.antt =====
-- What holds of the server after any sequence of calls of its handlers: the map counts the clients
-- that have a file open, and one of them at most has it open for writing.
use dbs_assignment.Prelude.{
  ℕ, ◌<◌, ◌≤◌, ◌≡◌, ◌↔◌, refl, Bool, true, Option, none, some, List, [], String, arith,
}
use dbs_assignment.Prelude.Int.{ℤ, pos, neg, is_neg}
use dbs_assignment.Prelude.Dict.{lookup}
use dbs_assignment.Errno.{eacces}
use dbs_assignment.Lock.{RwLock, pthread_ok}
use dbs_assignment.System.{Os, FileInfo}
use dbs_assignment.Server.{FileStatus, zero_status, Server}
use dbs_assignment.Server.Opens.{wants_write, watdfs_open}
use dbs_assignment.Server.Locks.{status_of}
use dbs_assignment.Server.Openers.{Handle, openers_of, writers_of, Inv, Entry}
use dbs_assignment.Server.Locking.{lock_answered-Inv, lock_blocked-Inv, resume-Inv, unlock-Inv}
use dbs_assignment.Server.Sharing.{
  grant-Inv, refuse-Inv, release-Inv, release_failed-Inv, refusal_iff,
}
use dbs_assignment.Server.Steps.{
  Step, grant, refuse, give_back, keep, lock, wait, resume, unlock, other,
}

-- Any sequence of calls, from a server with no open files.
pub data Reach {D : Type 0} (os : Os D) (logging : Bool) (raw : RwLock)
    : Server D → List Handle → Type 0 where
  begin : (s : Server D) → s.open_files_status ≡ [] → Reach os logging raw s []
  step :
      (s s' : Server D) (hs hs' : List Handle)
      → Reach os logging raw s hs
      → Step os logging raw s hs s' hs'
      → Reach os logging raw s' hs'

module _ {D : Type 0} (os : Os D) (logging : Bool) (raw : RwLock)
    (close_errno : (fd : ℤ) (d : D)
      → is_neg (os.close fd d).0 ≡ true
      → 0 < os.errno (os.close fd d).1) where
  Step-Inv :
      (s s' : Server D) (hs hs' : List Handle)
      → Step os logging raw s hs s' hs'
      → Inv s hs
      → Inv s' hs'
  Step-Inv s s' hs hs' (grant path fi ok e f) inv = rw (e, f) (grant-Inv os raw path fi s hs inv ok)
  Step-Inv s s' hs hs' (refuse path fi bad e f) inv =
      rw (e, f) (refuse-Inv os raw path fi s hs inv bad)
  Step-Inv s s' hs hs' (give_back path fi before behind split ok e f) inv =
      rw (e, f) (release-Inv os logging path fi s close_errno before behind (rw split at inv) ok)
  Step-Inv s s' hs hs' (keep path fi before behind split bad e f) inv =
      rw (e, f, split)
        (release_failed-Inv os logging path fi s close_errno before behind (rw split at inv) bad)
  Step-Inv s s' hs hs' (lock pt path mode a b h e f) inv =
      rw f (lock_answered-Inv os path mode pt s hs inv h a b s' e)
  Step-Inv s s' hs hs' (wait pt path mode h e f) inv =
      rw f (lock_blocked-Inv os path mode pt s hs inv h s' e)
  Step-Inv s s' hs hs' (resume pt path mode l reply h held e g f) inv =
      rw (g, f, ← e) (resume-Inv os path mode pt s hs inv h l held)
  Step-Inv s s' hs hs' (unlock pt path mode h e f) inv =
      rw (e, f) (unlock-Inv os path mode pt s hs inv h)
  Step-Inv s s' hs hs' (other e f) inv = rw (e, f) inv

  pub Reach-Inv : (s : Server D) (hs : List Handle) → Reach os logging raw s hs → Inv s hs
  unfolding openers_of writers_of lookup
  Reach-Inv s [] (begin _ e) = λ p. rw e (refl, refl)
  Reach-Inv s' hs' (step s _ hs _ r st) = Step-Inv s s' hs hs' st (Reach-Inv s hs r)

  one_writer-of :
      (o : Option FileStatus) (n w : ℕ)
      → Entry o n w
      → (w ≤ 1)
        × ((o ≡ none) ↔ (n ≡ 0))
        × ((elim o as (λ x. FileStatus) [ none ↦ zero_status | some st ↦ st ]).open_num ≡ pos n)
        × ((elim o as (λ x. FileStatus) [ none ↦ zero_status | some st ↦ st ]).server_mode ≡ w)
  one_writer-of none n w e = ground (arith, e)
  one_writer-of (some st) n w e = ground (arith, e)

  -- If the server runs its handlers one after another, but for lock calls, which may sleep and go on
  -- later, then whatever calls have reached it, at most one client has a file open for writing; the
  -- map has an entry for a file exactly when a client has it open, and the entry counts the clients
  -- that do and those of them that write. A client gives back what it has opened and locks only files
  -- that are open, `close` sets `errno` when it fails, and `rw_lock_init` succeeds.
  pub one_writer :
      (s : Server D) (hs : List Handle)
      → Reach os logging raw s hs
      → (path : String)
      → (writers_of path hs ≤ 1)
        × ((lookup path s.open_files_status ≡ none) ↔ (openers_of path hs ≡ 0))
        × ((status_of path s).open_num ≡ pos (openers_of path hs))
        × ((status_of path s).server_mode ≡ writers_of path hs)
  one_writer s hs r path =
      one_writer-of (lookup path s.open_files_status) (openers_of path hs) (writers_of path hs)
        (Reach-Inv s hs r path)

  -- If the server runs its handlers one after another, but for lock calls, which may sleep and go on
  -- later, then in every state that calls have led to an open is refused with -EACCES exactly when it
  -- asks to write and one client has the file open for writing. A client gives back what it has opened
  -- and locks only files that are open, `close` sets `errno` when it fails, and `rw_lock_init`
  -- succeeds.
  pub open-eacces_iff :
      (s : Server D) (hs : List Handle)
      → Reach os logging raw s hs
      → (path : String) (fi : FileInfo)
      → ((watdfs_open os pthread_ok raw path fi s).2 ≡ neg eacces)
        ↔ ((wants_write fi.flags ≡ true) × (writers_of path hs ≡ 1))
  open-eacces_iff s hs r path fi = refusal_iff os raw path fi s hs (Reach-Inv s hs r)
