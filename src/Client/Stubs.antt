-- ===== src/Client/Stubs.antt =====
-- The `copy_` functions of watdfs_client.cpp that make one remote call, and `watdfs_cli_lock` and
-- `watdfs_cli_unlock`. A code of the library that is negative becomes -EINVAL.
use dbs_assignment.Prelude.{ℕ, String, if◌then◌else◌}
use dbs_assignment.Prelude.Int.{ℤ, neg, is_neg}
use dbs_assignment.Errno.{einval}
use dbs_assignment.Lock.{RwLockMode}
use dbs_assignment.System.{Stat, Timespec, FileInfo, zero_stat, zero_file_info}
use dbs_assignment.Rpc.Procedures.{
  getattr_types, mknod_types, open_types, release_types, truncate_types, fsync_types,
  utimensat_types, lock_types, unlock_types,
}
use dbs_assignment.Client.{Env}

-- `fxn_ret`, from the code of the library and the code that the server sent back.
abbrev pub fxn_ret_of : ℤ → ℤ → ℤ
fxn_ret_of rpc_ret return_code = if is_neg rpc_ret then neg einval else return_code

module _ {D S : Type 0} (env : Env D S) where
  open env use {rpc, sizes, uninit}

  unfoldable pub copy_getattr : String → Stat → S → ℤ × Stat × S
  copy_getattr path statbuf s =
      let (rpc_ret, statbuf', code, s') =
        rpc.getattr (getattr_types sizes path) path statbuf uninit.int_value s in
      let fxn_ret = fxn_ret_of rpc_ret code in
      (fxn_ret, if is_neg fxn_ret then zero_stat else statbuf', s')

  unfoldable pub copy_mknod : String → ℕ → ℕ → S → ℤ × S
  copy_mknod path mode dev s =
      let (rpc_ret, code, s') =
        rpc.mknod (mknod_types sizes path) path mode dev uninit.int_value s in
      (fxn_ret_of rpc_ret code, s')

  unfoldable pub copy_open : String → FileInfo → S → ℤ × FileInfo × S
  copy_open path fi s =
      let (rpc_ret, fi', code, s') =
        rpc.open_file (open_types sizes path) path fi uninit.int_value s in
      let fxn_ret = fxn_ret_of rpc_ret code in
      (fxn_ret, if is_neg fxn_ret then zero_file_info else fi', s')

  unfoldable pub copy_release : String → FileInfo → S → ℤ × S
  copy_release path fi s =
      let (rpc_ret, code, s') = rpc.release (release_types sizes path) path fi uninit.int_value s in
      (fxn_ret_of rpc_ret code, s')

  unfoldable pub copy_truncate : String → ℕ → S → ℤ × S
  copy_truncate path newsize s =
      let (rpc_ret, code, s') =
        rpc.truncate (truncate_types sizes path) path newsize uninit.int_value s in
      (fxn_ret_of rpc_ret code, s')

  unfoldable pub copy_fsync : String → FileInfo → S → ℤ × S
  copy_fsync path fi s =
      let (rpc_ret, code, s') = rpc.fsync (fsync_types sizes path) path fi uninit.int_value s in
      (fxn_ret_of rpc_ret code, s')

  unfoldable pub copy_utimensat : String → Timespec → Timespec → S → ℤ × S
  copy_utimensat path atim mtim s =
      let (rpc_ret, code, s') =
        rpc.utimensat (utimensat_types sizes path) path atim mtim uninit.int_value s in
      (fxn_ret_of rpc_ret code, s')

  unfoldable pub watdfs_cli_lock : String → RwLockMode → S → ℤ × S
  watdfs_cli_lock path mode s =
      let (rpc_ret, code, s') = rpc.lock (lock_types sizes path) path mode uninit.int_value s in
      (fxn_ret_of rpc_ret code, s')

  unfoldable pub watdfs_cli_unlock : String → RwLockMode → S → ℤ × S
  watdfs_cli_unlock path mode s =
      let (rpc_ret, code, s') = rpc.unlock (unlock_types sizes path) path mode uninit.int_value s in
      (fxn_ret_of rpc_ret code, s')
