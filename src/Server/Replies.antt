-- ===== src/Server/Replies.antt =====
-- What `watdfs_open` of watdfs_server.cpp answers when the system call `open` fails.
use dbs_assignment.Prelude.{ℕ, ◌+◌, ◌<◌, ◌≡◌, ◌⊎◌, inl, inr, Bool, List, true, false, String, arith}
use dbs_assignment.Prelude.Int.{ℤ, pos, negsuc, is_neg, to_u64}
use dbs_assignment.Prelude.Dict.{get_or, lookup-insert_same}
use dbs_assignment.Errno.{acc_mode}
use dbs_assignment.Lock.{RwLock, pthread_ok}
use dbs_assignment.System.{Os, FileInfo}
use dbs_assignment.Server.{FileStatus, Server, get_full_path}
use dbs_assignment.Server.Opens.{admitted, wants_write, open_admitted, watdfs_open}
use dbs_assignment.Server.Locks.{status_of}
use dbs_assignment.Server.Openers.{Handle, openers_of, writers_of, Decides, admit-Decides}
use dbs_assignment.Server.Reachable.{Reach, Reach-Inv}
use dbs_assignment.Server.Sharing.{verdict, Admission-cases, open_granted}

-- The descriptor in the reply to an open that the map has admitted.
open_granted_fh :
    {D : Type 0} (os : Os D) (raw : RwLock) (path : String) (fi : FileInfo) (s : Server D)
    (st : FileStatus) (fd : ℤ) (d : D)
    → verdict os raw path fi s ≡ admitted st
    → os.open_file (get_full_path path s) (acc_mode fi.flags) s.disk ≡ (fd, d)
    → (watdfs_open os pthread_ok raw path fi s).1.fh ≡ to_u64 fd
unfolding watdfs_open open_admitted get_full_path
open_granted_fh os raw path fi s st fd d e f = rw (watdfs_open, e, f) (ground arith)

module _ {D : Type 0} (os : Os D) (logging : Bool) (raw : RwLock)
    (close_errno : (fd : ℤ) (d : D)
      → is_neg (os.close fd d).0 ≡ true
      → 0 < os.errno (os.close fd d).1) where
  -- If the server runs its handlers one after another, but for lock calls, then an open that the map
  -- does not refuse, since it asks to read or no client has the file open for writing, is answered
  -- with 0 although the system call `open` fails: the reply carries the failure's negative result as
  -- its unsigned descriptor, and the client is counted as one more opener of the file. A client gives
  -- back what it has opened and locks only files that are open, `close` sets `errno` when it fails,
  -- and `rw_lock_init` succeeds.
  pub open-failed_counted :
      (s : Server D) (hs : List Handle)
      → Reach os logging raw s hs
      → (path : String) (fi : FileInfo) (n : ℕ) (d : D)
      → (wants_write fi.flags ≡ false) ⊎ (writers_of path hs ≡ 0)
      → os.open_file (get_full_path path s) (acc_mode fi.flags) s.disk ≡ (negsuc n, d)
      → ((watdfs_open os pthread_ok raw path fi s).2 ≡ pos 0)
        × ((watdfs_open os pthread_ok raw path fi s).1.fh ≡ to_u64 (negsuc n))
        × ((status_of path (watdfs_open os pthread_ok raw path fi s).3).open_num
            ≡ pos (openers_of path hs + 1))
  open-failed_counted s hs r path fi n d free failed =
      elim (Admission-cases (verdict os raw path fi s)) [
        | inl (c, e) ↦
            let (_, writes, one) = rw e at decides in absurd (ground (arith, free, writes, one))
        | inr (st, e) ↦
            let (code, files) = open_granted os raw path fi s st e in
            (
              code,
              open_granted_fh os raw path fi s st (negsuc n) d e failed,
              rw (files, get_or, lookup-insert_same path st s.open_files_status)
                  ((rw e at decides).0),
            )
      ]
    where
      decides :
          Decides
            (verdict os raw path fi s)
            (wants_write fi.flags)
            (openers_of path hs)
            (writers_of path hs)
      decides =
          admit-Decides raw (wants_write fi.flags) _ (openers_of path hs) (writers_of path hs)
            (Reach-Inv os logging raw close_errno s hs r path)
