-- ===== src/Server/Steps.antt =====
-- The calls that reach a server, in any order, and what they leave of the handles. A handler runs
-- without another one in between, but for a lock call, which may sleep and go on later.
use dbs_assignment.Prelude.{◌<◌, ◌≡◌, ◌≢◌, Bool, some, List, ◌∷◌, ◌++◌, String}
use dbs_assignment.Prelude.Int.{ℤ, pos}
use dbs_assignment.Lock.{RwLock, RwLockMode, Pthread, pthread_ok}
use dbs_assignment.System.{Os, FileInfo}
use dbs_assignment.Server.{Server}
use dbs_assignment.Server.Opens.{wants_write, watdfs_open, watdfs_release}
use dbs_assignment.Server.Locks.{
  LockReply, answered, blocked, server_after, status_of, watdfs_lock, resume_lock, watdfs_unlock,
}
use dbs_assignment.Server.Openers.{Handle, openers_of}

-- One call. A client gives back a handle that it has, with the flags that it opened it with, and
-- locks and unlocks files that are open; `rw_lock_init` succeeds.
pub data Step {D : Type 0} (os : Os D) (logging : Bool) (raw : RwLock) (s : Server D)
    (hs : List Handle) (s' : Server D) (hs' : List Handle) : Type 0 where
  grant :
      (path : String) (fi : FileInfo)
      → (watdfs_open os pthread_ok raw path fi s).2 ≡ pos 0
      → s' ≡ (watdfs_open os pthread_ok raw path fi s).3
      → hs' ≡ (path, wants_write fi.flags) ∷ hs
      → Step os logging raw s hs s' hs'
  refuse :
      (path : String) (fi : FileInfo)
      → (watdfs_open os pthread_ok raw path fi s).2 ≢ pos 0
      → s' ≡ (watdfs_open os pthread_ok raw path fi s).3
      → hs' ≡ hs
      → Step os logging raw s hs s' hs'
  give_back :
      (path : String) (fi : FileInfo) (before behind : List Handle)
      → hs ≡ before ++ (path, wants_write fi.flags) ∷ behind
      → (watdfs_release os logging path fi s).1 ≡ pos 0
      → s' ≡ (watdfs_release os logging path fi s).2
      → hs' ≡ before ++ behind
      → Step os logging raw s hs s' hs'
  keep :
      (path : String) (fi : FileInfo) (before behind : List Handle)
      → hs ≡ before ++ (path, wants_write fi.flags) ∷ behind
      → (watdfs_release os logging path fi s).1 ≢ pos 0
      → s' ≡ (watdfs_release os logging path fi s).2
      → hs' ≡ hs
      → Step os logging raw s hs s' hs'
  lock :
      (pt : Pthread) (path : String) (mode : RwLockMode) (a b : ℤ)
      → 0 < openers_of path hs
      → watdfs_lock os pt path mode s ≡ answered a b s'
      → hs' ≡ hs
      → Step os logging raw s hs s' hs'
  wait :
      (pt : Pthread) (path : String) (mode : RwLockMode)
      → 0 < openers_of path hs
      → watdfs_lock os pt path mode s ≡ blocked s'
      → hs' ≡ hs
      → Step os logging raw s hs s' hs'
  -- a lock call that has slept on the lock of the entry goes on; if the entry has been replaced
  -- meanwhile, the lock is not in the map any more, and the step is one of `other`
  resume :
      (pt : Pthread) (path : String) (mode : RwLockMode) (l : RwLock) (reply : LockReply D)
      → 0 < openers_of path hs
      → (status_of path s).lock ≡ some l
      → resume_lock os pt path mode l s ≡ reply
      → s' ≡ server_after reply
      → hs' ≡ hs
      → Step os logging raw s hs s' hs'
  unlock :
      (pt : Pthread) (path : String) (mode : RwLockMode)
      → 0 < openers_of path hs
      → s' ≡ (watdfs_unlock os pt path mode s).2
      → hs' ≡ hs
      → Step os logging raw s hs s' hs'
  -- any other handler or part of one that leaves the map alone
  other : s'.open_files_status ≡ s.open_files_status → hs' ≡ hs → Step os logging raw s hs s' hs'
