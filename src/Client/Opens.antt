-- ===== src/Client/Opens.antt =====
-- The operations of watdfs_client.cpp that create, open and close a file.
use dbs_assignment.Prelude.{ℕ, ◌+◌, Bool, false, String, ltb, ◌==◌, if◌then◌else◌}
use dbs_assignment.Prelude.Int.{ℤ, pos, negsuc, neg, is_neg, is_zero, to_u64}
use dbs_assignment.Prelude.Dict.{insert}
use dbs_assignment.Errno.{eperm, enoent, emfile, o_rdonly, o_rdwr, acc_mode}
use dbs_assignment.System.{FileInfo, zero_file_info}
use dbs_assignment.Client.{Env, get_full_path}
use dbs_assignment.Client.Monad.{
  M, pure, ◌>>=◌, ◌>>◌, call, leave, return_if, return_if_neg, return_errno_if, gets, modify_files,
  get_meta, on_disk, on_disk_out, on_remote, on_remote_out, minus_errno,
}
use dbs_assignment.Client.Stubs.{copy_getattr, copy_mknod, copy_open, copy_release, copy_utimensat}
use dbs_assignment.Client.Cache.{cli_file_is_open, cli_freshness_check, cli_close_file}
use dbs_assignment.Client.Copies.{cli_download_file, cli_write_back}

-- `x == -e` for an error number `e`
abbrev pub is_error : ℕ → ℤ → Bool
is_error e (pos n) = false
is_error e (negsuc n) = n + 1 == e

module _ {D S : Type 0} (env : Env D S) where
  open env use {os, uninit}

  -- The branch of `watdfs_cli_mknod` for a file that neither side has.
  unfoldable pub mknod_both : String → ℕ → ℕ → M D S ℤ ℤ
  mknod_both path mode dev = do
    full_path ← gets (get_full_path path)
    ret ← on_disk (os.mknod full_path mode dev)
    return_errno_if os (is_neg ret)
    cpyret ← on_remote (copy_mknod env path mode dev)
    return_if_neg cpyret
    (stat_ret, client_statbuf) ← on_disk_out (os.stat full_path uninit.stat_value)
    -- `return fxn_ret`, which is still 0
    return_if (is_neg stat_ret) (pos 0)
    fxn_ret ← on_remote (copy_utimensat env path client_statbuf.st_atim client_statbuf.st_mtim)
    return_if_neg fxn_ret
    pure fxn_ret

  -- The branch for a file that is not in the cache.
  unfoldable pub mknod_uncached : String → ℕ → ℕ → M D S ℤ ℤ
  mknod_uncached path mode dev = do
    (cpy_stat_ret, _) ← on_remote_out (copy_getattr env path uninit.stat_value)
    if is_error enoent cpy_stat_ret
        then mknod_both path mode dev
        else if is_zero cpy_stat_ret
        then (do
          dl_ret ← call (cli_download_file env path o_rdwr)
          return_if_neg dl_ret
          full_path ← gets (get_full_path path)
          mk_ret ← on_disk (os.mknod full_path mode dev)
          close_ret ← call (cli_close_file env path)
          pure mk_ret)
        else leave cpy_stat_ret

  -- The first part of `watdfs_cli_mknod`, up to the check of the freshness.
  unfoldable pub mknod_local : String → ℕ → ℕ → M D S ℤ ℤ
  mknod_local path mode dev = do
    full_path ← gets (get_full_path path)
    file_is_open ← gets (cli_file_is_open path)
    if is_neg file_is_open
        then (do
          (stat_ret, _) ← on_disk_out (os.stat full_path uninit.stat_value)
          minus ← minus_errno os
          if is_neg stat_ret
              then if is_error enoent minus then mknod_uncached path mode dev else leave minus
              else on_disk (os.mknod full_path mode dev))
        else do
          file_meta ← get_meta path
          if acc_mode file_meta.client_mode == o_rdonly
              then leave (neg eperm)
              else on_disk (os.mknod full_path mode dev)

  -- The end of `watdfs_cli_mknod`, `watdfs_cli_truncate` and `watdfs_cli_utimensat`.
  unfoldable pub write_back_if_stale : String → ℤ → M D S ℤ ℤ
  write_back_if_stale path fxn_ret = do
    check ← call (cli_freshness_check env path)
    if is_neg check then call (cli_write_back env path) else pure fxn_ret

  unfoldable pub watdfs_cli_mknod : String → ℕ → ℕ → M D S ℤ ℤ
  watdfs_cli_mknod path mode dev = do
    fxn_ret ← mknod_local path mode dev
    write_back_if_stale path fxn_ret

  -- The branch of `watdfs_cli_open` for a file that is not open on this client. Its value is
  -- `fxn_ret`; the one `return` inside it leaves `fi` as the server has filled it.
  unfoldable pub open_unopened : String → ℕ → FileInfo → M D S (ℤ × FileInfo) ℤ
  open_unopened path call_flag fi = do
    full_path ← gets (get_full_path path)
    (stat_ret, _) ← on_disk_out (os.stat full_path uninit.stat_value)
    minus ← minus_errno os
    if is_neg stat_ret
        then if is_error enoent minus
          then (do
            download_ret ← call (cli_download_file env path call_flag)
            pure (if is_neg download_ret then download_ret else pos 0))
          else pure minus
        else do
          check ← call (cli_freshness_check env path)
          if is_neg check
              then (do
                fxn_ret ← call (cli_download_file env path call_flag)
                return_if (is_neg fxn_ret) (fxn_ret, fi)
                pure fxn_ret)
              else do
                opened ← on_disk (os.open_file full_path call_flag)
                let open_ret = to_u64 opened
                -- `open_ret < 0` is tested on the unsigned value
                if ltb open_ret 0 then minus_errno os else do
                  now ← on_disk os.time
                  modify_files (
                      insert path (record {
                        client_desc = open_ret;
                        client_mode = call_flag;
                        tc = now;
                        server_desc = fi.fh;
                      }))
                  pure (pos 0)

  -- `logging` says whether DLOG is compiled in, as it is without NDEBUG: its argument
  -- `openFilesStatus[path].clientDesc` creates a missing key.
  unfoldable pub watdfs_cli_open : Bool → String → FileInfo → M D S (ℤ × FileInfo) (ℤ × FileInfo)
  watdfs_cli_open logging path fi = do
    (ser_open, fi') ← on_remote_out (copy_open env path fi)
    return_if (is_neg ser_open) (ser_open, fi')
    file_is_open ← gets (cli_file_is_open path)
    fxn_ret ← if is_neg file_is_open then open_unopened path fi.flags fi' else pure (neg emfile)
    logged ← if logging then get_meta path >>= (λ _. pure tt) else pure tt
    pure (fxn_ret, if is_neg fxn_ret then zero_file_info else fi')

  unfoldable pub watdfs_cli_release : String → FileInfo → M D S ℤ ℤ
  watdfs_cli_release path fi = do
    fxn_ret ← if acc_mode fi.flags == o_rdonly then pure (pos 0) else call (cli_write_back env path)
    return_if_neg fxn_ret
    ser_close ← on_remote (copy_release env path fi)
    close_ret ← call (cli_close_file env path)
    pure close_ret
