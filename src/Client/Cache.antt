-- ===== src/Client/Cache.antt =====
-- The util functions of watdfs_client.cpp on the cache: which file is open, and which is fresh.
use dbs_assignment.Prelude.{◌+◌, String, ltb, ◌==◌, if◌then◌else◌}
use dbs_assignment.Prelude.Int.{ℤ, pos, negsuc, is_neg, to_int}
use dbs_assignment.Prelude.Dict.{contains, erase}
use dbs_assignment.System.{st_mtime}
use dbs_assignment.Client.{Env, FilesStatus, get_full_path}
use dbs_assignment.Client.Monad.{
  M, pure, ◌>>=◌, ◌>>◌, return_if_neg, return_errno_if, gets, modify_files, get_meta, set_tc,
  on_disk, on_disk_out, on_remote_out, minus_errno,
}
use dbs_assignment.Client.Stubs.{copy_getattr}

-- open return 0, not open return -1
abbrev pub cli_file_is_open : String → FilesStatus → ℤ
cli_file_is_open path files_status =
    if contains path files_status.open_files_status then pos 0 else negsuc 0

module _ {D S : Type 0} (env : Env D S) where
  open env use {os, uninit}

  -- What both branches of the check do: compare the times of the two files. A local `stat` that
  -- fails leaves its buffer as it was allocated.
  unfoldable pub compare_times : String → M D S ℤ ℤ
  compare_times path = do
    full_path ← gets (get_full_path path)
    (stat_ret, stat_client) ← on_disk_out (os.stat full_path uninit.stat_value)
    minus ← minus_errno os
    let fxn_ret = if is_neg stat_ret then minus else pos 0
    (getattr_ret, stat_server) ← on_remote_out (copy_getattr env path uninit.stat_value)
    return_if_neg getattr_ret
    pure (if st_mtime stat_client == st_mtime stat_server then fxn_ret else negsuc 0)

  -- true return 0, false return -1
  unfoldable pub cli_freshness_check : String → M D S ℤ ℤ
  unfolding compare_times
  cli_freshness_check path = do
    is_open ← gets (cli_file_is_open path)
    t ← gets (λ s. s.cache_interval)
    now ← on_disk os.time
    if is_neg is_open then compare_times path else do
      file_meta ← get_meta path
      -- `T - tc < t`
      if ltb now (file_meta.tc + t) then pure (pos 0) else do
        fxn_ret ← compare_times path
        now' ← on_disk os.time
        set_tc path now'
        pure fxn_ret

  unfoldable pub cli_close_file : String → M D S ℤ ℤ
  cli_close_file path = do
    file_meta ← get_meta path
    close_ret ← on_disk (os.close (to_int file_meta.client_desc))
    return_errno_if os (is_neg close_ret)
    modify_files (erase path)
    pure close_ret
