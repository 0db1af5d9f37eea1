-- ===== src/Client.antt =====
-- watdfs_client.cpp: the state of the client, and what its functions share. Each child models a
-- part of the file.
pub mod Monad
pub mod Stubs
pub mod Transfer
pub mod Cache
pub mod Copies
pub mod Setup
pub mod Opens
pub mod Access
pub mod Runs
pub mod Guards
pub mod Local
pub mod Downloads
pub mod WriteBacks
pub mod Fetches
pub mod KeptLocks
pub mod Freshness
use dbs_assignment.Prelude.{ℕ, List, String, ◌<>◌}
use dbs_assignment.Prelude.Int.{ℤ}
use dbs_assignment.Prelude.Dict.{Dict}
use dbs_assignment.System.{Os, Stat, FileInfo}
use dbs_assignment.Rpc.Procedures.{Sizes}
use dbs_assignment.Rpc.Library.{Library}

-- `struct file_meta`
pub record FileMeta : Type 0 where
  pub client_desc : ℕ  -- uint64_t
  pub client_mode : ℕ
  pub tc : ℕ
  pub server_desc : ℕ  -- uint64_t

-- The value that `openFilesStatus[key]` creates for a missing key.
abbrev pub zero_meta : FileMeta
zero_meta = record { client_desc = 0; client_mode = 0; tc = 0; server_desc = 0 }

-- `struct files_status`
pub record FilesStatus : Type 0 where
  pub cache_interval : ℕ
  pub path_to_cache : String
  pub open_files_status : Dict FileMeta

-- The client's data, its machine, and what lies behind the RPC library.
pub record World (D S : Type 0) : Type 0 where
  pub status : FilesStatus
  pub disk : D
  pub remote : S

-- What memory holds that the program has not written yet.
pub record Uninit : Type 0 where
  pub int_value : ℤ
  pub stat_value : Stat
  pub file_info_value : FileInfo
  pub bytes : ℕ → List ℕ  -- `malloc` of that many bytes

-- All that the client is compiled and linked with.
pub record Env (D S : Type 0) : Type 0 where
  pub os : Os D
  pub rpc : Library S
  pub sizes : Sizes
  pub uninit : Uninit

unfoldable pub get_full_path : String → FilesStatus → String
get_full_path short_path files_status = files_status.path_to_cache <> short_path
