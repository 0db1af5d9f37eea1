-- ===== src/Server.antt =====
-- watdfs_server.cpp: the state of the server. The handlers stand in the children, one for each
-- remote procedure; a handler gets the arguments that the RPC library passes, and returns its own
-- result, the output arguments and the server after it.
pub mod Files
pub mod Opens
pub mod Locks
pub mod Openers
pub mod Sharing
pub mod Steps
pub mod Locking
pub mod Reachable
pub mod Replies
pub mod Races
pub mod Startup
use dbs_assignment.Prelude.{ℕ, Option, none, String, ◌<>◌}
use dbs_assignment.Prelude.Int.{ℤ, pos}
use dbs_assignment.Prelude.Dict.{Dict}
use dbs_assignment.Lock.{RwLock}

-- `struct file_status_s`; a null `lock` is `none`
pub record FileStatus : Type 0 where
  pub server_mode : ℕ  -- 0 for read, 1 for write
  pub open_num : ℤ
  pub lock : Option RwLock

-- The value that `openFilesStatus_s[key]` creates for a missing key.
abbrev pub zero_status : FileStatus
zero_status = record { server_mode = 0; open_num = pos 0; lock = none }

-- The globals of the server, and its machine.
pub record Server (D : Type 0) : Type 0 where
  pub open_files_status : Dict FileStatus
  pub server_persist_dir : String
  pub disk : D

unfoldable pub get_full_path : {D : Type 0} → String → Server D → String
get_full_path short_path s = s.server_persist_dir <> short_path
