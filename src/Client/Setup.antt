-- ===== src/Client/Setup.antt =====
-- `watdfs_cli_init` and `watdfs_cli_destroy` of watdfs_client.cpp.
use dbs_assignment.Prelude.{ℕ, String, [], if◌then◌else◌}
use dbs_assignment.Prelude.Int.{ℤ, pos, is_neg}
use dbs_assignment.Errno.{not_init}
use dbs_assignment.Client.{Env, FilesStatus}

module _ {D S : Type 0} (env : Env D S) where
  open env use {rpc}

  -- The user data, `*ret_code` and the state behind the library.
  unfoldable pub watdfs_cli_init : String → ℕ → S → FilesStatus × ℤ × S
  watdfs_cli_init path_to_cache cache_interval s =
      let (init_ret, s') = rpc.client_init s in
      (
        record {
          cache_interval = cache_interval;
          path_to_cache = path_to_cache;
          open_files_status = [];
        },
        if is_neg init_ret then not_init else pos 0,
        s',
      )

  -- The user data is freed; what `rpcClientDestroy` returns is only logged.
  unfoldable pub watdfs_cli_destroy : FilesStatus → S → S
  watdfs_cli_destroy userdata s = (rpc.client_destroy s).1
