-- ===== src/Client/Copies.antt =====
-- `cli_downloadFile` and `cli_write_back` of watdfs_client.cpp, which copy a file between the
-- server and the cache. The clean-up of heap memory has no counterpart here.
use dbs_assignment.Prelude.{ℕ, ◌+◌, String, ltb, if◌then◌else◌}
use dbs_assignment.Prelude.Int.{ℤ, pos, is_neg, to_int, to_u64}
use dbs_assignment.Prelude.Dict.{insert}
use dbs_assignment.Errno.{o_rdonly, o_wronly, o_rdwr, o_creat, s_irwxu}
use dbs_assignment.Lock.{rw_read_lock, rw_write_lock}
use dbs_assignment.System.{Stat, FileInfo}
use dbs_assignment.Client.{Env, get_full_path}
use dbs_assignment.Client.Monad.{
  M, pure, ◌>>=◌, ◌>>◌, return_if, return_if_neg, return_errno_if, gets, modify_files, get_meta,
  on_disk, on_disk_out, on_remote, on_remote_out, on_remote_if_defined, on_remote_out_if_defined,
  minus_errno,
}
use dbs_assignment.Client.Stubs.{
  copy_getattr, copy_open, copy_release, copy_truncate, copy_utimensat, watdfs_cli_lock,
  watdfs_cli_unlock,
}
use dbs_assignment.Client.Transfer.{copy_read, copy_write}

module _ {D S : Type 0} (env : Env D S) where
  open env use {os, uninit}

  -- steps 0 and 1: the size of the file, the server's descriptor, the read lock
  unfoldable pub download_begin : String → M D S ℤ (Stat × FileInfo)
  download_begin path = do
    (getattr_ret, statbuf) ← on_remote_out (copy_getattr env path uninit.stat_value)
    return_if_neg getattr_ret
    (open_ret, cpyfi) ←
        on_remote_out (copy_open env path (record uninit.file_info_value { flags = o_rdonly }))
    return_if_neg open_ret
    lock_ret ← on_remote (watdfs_cli_lock env path rw_read_lock)
    return_if_neg lock_ret
    pure (statbuf, cpyfi)

  -- steps 2 to 5: the local file, with the bytes and the times of the server's; the descriptor is
  -- kept unsigned, so the test on it never holds
  unfoldable pub download_fill : String → ℕ → Stat → FileInfo → M D S ℤ (Unit {0})
  download_fill path original_flags statbuf cpyfi = do
    full_path ← gets (get_full_path path)
    created ← on_disk (os.create_file full_path (o_creat + o_rdwr) s_irwxu)
    let create_ret = to_u64 created
    return_errno_if os (ltb create_ret 0)
    truncate_ret ← on_disk (os.truncate full_path 0)
    return_errno_if os (is_neg truncate_ret)
    (read_ret, buf) ←
        on_remote_out_if_defined
          (copy_read env path (uninit.bytes statbuf.st_size) statbuf.st_size 0 cpyfi)
    return_if_neg read_ret
    write_ret ←
        if ltb 0 statbuf.st_size
        then on_disk (os.pwrite (to_int create_ret) buf statbuf.st_size 0)
        else pure (pos 0)
    return_errno_if os (is_neg write_ret)
    now ← on_disk os.time
    sys_ret ← on_disk (os.utimensat (to_int create_ret) full_path statbuf.st_atim statbuf.st_mtim)
    return_errno_if os (is_neg sys_ret)
    modify_files (
        insert path (record {
          client_desc = create_ret;
          client_mode = original_flags;
          tc = now;
          server_desc = 0;
        }))

  -- the end: the lock and the server's descriptor are given back
  unfoldable pub download_end : String → FileInfo → M D S ℤ ℤ
  download_end path cpyfi = do
    unlock_ret ← on_remote (watdfs_cli_unlock env path rw_read_lock)
    return_if_neg unlock_ret
    release_ret ← on_remote (copy_release env path cpyfi)
    return_if_neg release_ret
    pure (pos 0)

  unfoldable pub cli_download_file : String → ℕ → M D S ℤ ℤ
  cli_download_file path original_flags = do
    (statbuf, cpyfi) ← download_begin path
    download_fill path original_flags statbuf cpyfi
    download_end path cpyfi

  unfoldable pub cli_write_back : String → M D S ℤ ℤ
  cli_write_back path = do
    lock_ret ← on_remote (watdfs_cli_lock env path rw_write_lock)
    return_if_neg lock_ret
    full_path ← gets (get_full_path path)
    (stat_ret, statbuf) ← on_disk_out (os.stat full_path uninit.stat_value)
    return_errno_if os (is_neg stat_ret)
    let file_size = statbuf.st_size
    open_ret ← on_disk (os.open_file full_path o_rdonly)
    (pread_ret, buf) ← on_disk_out (os.pread open_ret (uninit.bytes file_size) file_size 0)
    minus ← minus_errno os
    close_ret ← on_disk (os.close open_ret)
    return_if (is_neg pread_ret) minus
    truncate_ret ← on_remote (copy_truncate env path 0)
    return_if_neg truncate_ret
    file_meta ← get_meta path
    let fi = record uninit.file_info_value { flags = o_wronly; fh = file_meta.server_desc }
    write_ret ←
        if ltb 0 file_size
        then on_remote_if_defined (copy_write env path buf file_size 0 fi)
        else pure (pos 0)
    return_if_neg write_ret
    fxn_ret ← on_remote (copy_utimensat env path statbuf.st_atim statbuf.st_mtim)
    return_if_neg fxn_ret
    unlock_ret ← on_remote (watdfs_cli_unlock env path rw_write_lock)
    return_if_neg unlock_ret
    pure fxn_ret
