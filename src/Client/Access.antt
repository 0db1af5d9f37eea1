-- ===== src/Client/Access.antt =====
-- The operations of watdfs_client.cpp that read and change a file and its metadata.
use dbs_assignment.Prelude.{ℕ, List, String, ◌==◌, if◌then◌else◌}
use dbs_assignment.Prelude.Int.{ℤ, pos, neg, is_neg, is_zero, to_int}
use dbs_assignment.Errno.{eperm, enoent, emfile, o_rdonly, o_rdwr, acc_mode}
use dbs_assignment.System.{Stat, Timespec, FileInfo, zero_stat}
use dbs_assignment.Client.{Env, get_full_path}
use dbs_assignment.Client.Monad.{
  M, pure, ◌>>=◌, ◌>>◌, call, leave, return_if, return_if_neg, return_errno_if, gets, get_meta,
  set_tc, on_disk, on_disk_out, on_remote_out, minus_errno,
}
use dbs_assignment.Client.Stubs.{copy_getattr}
use dbs_assignment.Client.Cache.{cli_file_is_open, cli_freshness_check, cli_close_file}
use dbs_assignment.Client.Copies.{cli_download_file, cli_write_back}
use dbs_assignment.Client.Opens.{is_error, write_back_if_stale}

module _ {D S : Type 0} (env : Env D S) where
  open env use {os, uninit}

  -- `stat` of the local file into the caller's buffer, where `fxn_ret` has its value so far.
  unfoldable pub stat_local : {R : Type 0} → String → Stat → ℤ → M D S R (ℤ × Stat)
  stat_local path statbuf fxn_ret = do
    full_path ← gets (get_full_path path)
    (stat_ret, statbuf') ← on_disk_out (os.stat full_path statbuf)
    minus ← minus_errno os
    pure (if is_neg stat_ret then minus else fxn_ret, statbuf')

  -- The branch of `watdfs_cli_getattr` for a file that is open.
  unfoldable pub getattr_opened : String → Stat → M D S (ℤ × Stat) (ℤ × Stat)
  getattr_opened path statbuf = do
    file_meta ← get_meta path
    if acc_mode file_meta.client_mode == o_rdonly
        then (do
          fresh_check ← call (cli_freshness_check env path)
          if is_zero fresh_check
              then (do
                result ← stat_local path statbuf (pos 0)
                now ← on_disk os.time
                set_tc path now
                pure result)
              else do
                download_ret ← call (cli_download_file env path o_rdonly)
                if is_neg download_ret
                    then pure (download_ret, statbuf)
                    else stat_local path statbuf (pos 0))
        else stat_local path statbuf (pos 0)

  -- The branch for a file that is not open: fetch it if it is stale, and close it again.
  unfoldable pub getattr_unopened : String → Stat → M D S (ℤ × Stat) (ℤ × Stat)
  getattr_unopened path statbuf = do
    check ← call (cli_freshness_check env path)
    if is_neg check
        then (do
          fxn_ret ← call (cli_download_file env path o_rdonly)
          return_if (is_neg fxn_ret) (fxn_ret, statbuf)
          close_ret ← call (cli_close_file env path)
          stat_local path statbuf close_ret)
        else stat_local path statbuf (pos 0)

  unfoldable pub watdfs_cli_getattr : String → Stat → M D S (ℤ × Stat) (ℤ × Stat)
  watdfs_cli_getattr path statbuf = do
    file_is_open ← gets (cli_file_is_open path)
    (cpy_stat_ret, _) ← on_remote_out (copy_getattr env path uninit.stat_value)
    return_if (is_neg cpy_stat_ret) (cpy_stat_ret, statbuf)
    (fxn_ret, statbuf') ←
        if is_zero file_is_open then getattr_opened path statbuf else getattr_unopened path statbuf
    pure (fxn_ret, if is_neg fxn_ret then zero_stat else statbuf')

  -- What is returned, and the caller's buffer after it. The first step evaluates
  -- `openFilesStatus[path]`, which creates a missing key.
  unfoldable pub watdfs_cli_read : String → List ℕ → ℕ → ℕ → M D S (ℤ × List ℕ) (ℤ × List ℕ)
  watdfs_cli_read path buf size offset = do
    file_meta ← get_meta path
    file_is_open ← gets (cli_file_is_open path)
    return_if (is_neg file_is_open) (neg eperm, buf)
    if acc_mode file_meta.client_mode == o_rdonly
        then (do
          check ← call (cli_freshness_check env path)
          download_ret ←
              if is_neg check
              then call (cli_download_file env path file_meta.client_mode)
              else pure (pos 0)
          return_if (is_neg download_ret) (download_ret, buf)
          file_meta' ← get_meta path
          on_disk_out (os.pread (to_int file_meta'.client_desc) buf size offset))
        else do
          (fxn_ret, buf') ← on_disk_out (os.pread (to_int file_meta.client_desc) buf size offset)
          minus ← minus_errno os
          return_if (is_neg fxn_ret) (minus, buf')
          pure (fxn_ret, buf')

  unfoldable pub watdfs_cli_write : String → List ℕ → ℕ → ℕ → M D S ℤ ℤ
  watdfs_cli_write path buf size offset = do
    file_meta ← get_meta path
    file_is_open ← gets (cli_file_is_open path)
    return_if (is_neg file_is_open) (neg eperm)
    return_if (acc_mode file_meta.client_mode == o_rdonly) (neg emfile)
    fxn_ret ← on_disk (os.pwrite (to_int file_meta.client_desc) buf size offset)
    return_errno_if os (is_neg fxn_ret)
    now ← on_disk os.time
    set_tc path now
    check ← call (cli_freshness_check env path)
    if is_zero check then pure fxn_ret else call (cli_write_back env path)

  -- `watdfs_cli_truncate` and `watdfs_cli_utimensat` are one shape: `change` is the system call
  -- on the local file. What stands before the check of the freshness:
  unfoldable pub change_local : String → M D S ℤ ℤ → M D S ℤ ℤ
  change_local path change = do
    full_path ← gets (get_full_path path)
    file_is_open ← gets (cli_file_is_open path)
    if is_neg file_is_open
        then (do
          (stat_ret, _) ← on_disk_out (os.stat full_path uninit.stat_value)
          minus ← minus_errno os
          if is_neg stat_ret
              then if is_error enoent minus
                then (do
                  dl_ret ← call (cli_download_file env path o_rdwr)
                  return_if_neg dl_ret
                  mk_ret ← change
                  close_ret ← call (cli_close_file env path)
                  pure mk_ret)
                else leave minus
              else change)
        else do
          file_meta ← get_meta path
          return_if (acc_mode file_meta.client_mode == o_rdonly) (neg emfile)
          change

  unfoldable pub watdfs_cli_truncate : String → ℕ → M D S ℤ ℤ
  watdfs_cli_truncate path newsize = do
    full_path ← gets (get_full_path path)
    let change = on_disk (os.truncate full_path newsize)
    fxn_ret ← change_local path change
    write_back_if_stale env path fxn_ret

  -- The first step evaluates `openFilesStatus[path]`, which creates a missing key.
  unfoldable pub watdfs_cli_utimensat : String → Timespec → Timespec → M D S ℤ ℤ
  watdfs_cli_utimensat path atim mtim = do
    full_path ← gets (get_full_path path)
    cli_meta ← get_meta path
    let change = on_disk (os.utimensat (to_int cli_meta.client_desc) full_path atim mtim)
    fxn_ret ← change_local path change
    write_back_if_stale env path fxn_ret

  unfoldable pub watdfs_cli_fsync : String → FileInfo → M D S ℤ ℤ
  watdfs_cli_fsync path fi = do
    file_meta ← get_meta path
    return_if (acc_mode file_meta.client_mode == o_rdonly) (neg eperm)
    fxn_ret ← call (cli_write_back env path)
    return_if_neg fxn_ret
    now ← on_disk os.time
    set_tc path now
    pure fxn_ret
