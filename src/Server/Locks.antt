-- ===== src/Server/Locks.antt =====
-- The handlers `watdfs_lock` and `watdfs_unlock` of watdfs_server.cpp. Their first step evaluates
-- `openFilesStatus_s[short_path]`, which creates a missing key.
use dbs_assignment.Prelude.{Option, String, if◌then◌else◌}
use dbs_assignment.Prelude.Int.{ℤ, pos, neg, is_neg}
use dbs_assignment.Prelude.Dict.{insert, get_or}
use dbs_assignment.Lock.{
  RwLock, RwLockMode, Pthread, returned, waiting, lock_round, rw_lock_lock, rw_lock_unlock,
}
use dbs_assignment.System.{Os}
use dbs_assignment.Server.{FileStatus, zero_status, Server}

abbrev pub status_of : {D : Type 0} → String → Server D → FileStatus
status_of short_path s = get_or zero_status short_path s.open_files_status

-- The server after the lock behind the file's entry has changed.
abbrev pub with_lock : {D : Type 0} → String → Option RwLock → Server D → Server D
with_lock short_path lock s = record s {
  open_files_status =
      insert short_path (record (status_of short_path s) { lock = lock }) s.open_files_status;
}

-- A handler that sleeps in `pthread_cond_wait` has not answered its client.
pub data LockReply (D : Type 0) : Type 0 where
  answered : ℤ → ℤ → Server D → LockReply D
  blocked : Server D → LockReply D

-- The server behind a reply.
abbrev pub server_after : {D : Type 0} → LockReply D → Server D
server_after (answered r code s) = s
server_after (blocked s) = s

module _ {D : Type 0} (os : Os D) where
  -- The codes of rw_lock.cpp are returned, not stored in `errno`, which the handler reads.
  unfoldable pub lock_ret : ℤ → Server D → ℤ
  lock_ret sys_ret s = if is_neg sys_ret then neg (os.errno s.disk) else pos 0

  unfoldable pub watdfs_lock : Pthread → String → RwLockMode → Server D → LockReply D
  unfolding lock_ret
  watdfs_lock pt short_path mode s = elim (rw_lock_lock pt (status_of short_path s).lock mode) [
    | returned code lock ↦ answered (pos 0) (lock_ret code s) (with_lock short_path lock s)
    | waiting lock ↦ blocked (with_lock short_path (Option.some lock) s)
  ]

  -- The rest of a `watdfs_lock` that has slept on the lock `l` of the entry: its wait returns, and the
  -- loop of `rw_lock_lock` tests again.
  unfoldable pub resume_lock : Pthread → String → RwLockMode → RwLock → Server D → LockReply D
  unfolding lock_ret
  resume_lock pt short_path mode l s = elim (lock_round pt mode l) [
    | returned code lock ↦ answered (pos 0) (lock_ret code s) (with_lock short_path lock s)
    | waiting lock ↦ blocked (with_lock short_path (Option.some lock) s)
  ]

  unfoldable pub watdfs_unlock : Pthread → String → RwLockMode → Server D → ℤ × ℤ × Server D
  unfolding lock_ret
  watdfs_unlock pt short_path mode s =
      let (code, _, lock) = rw_lock_unlock pt (status_of short_path s).lock mode in
      (pos 0, lock_ret code s, with_lock short_path lock s)
