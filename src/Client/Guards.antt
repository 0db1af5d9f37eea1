-- ===== src/Client/Guards.antt =====
-- The operations of watdfs_client.cpp on a file that this client does not have open. They evaluate
-- `openFilesStatus[path]` before they test it.
use dbs_assignment.Prelude.{ℕ, ◌≡◌, refl, none, some, List, String, arith}
use dbs_assignment.Prelude.Int.{ℤ, pos, neg, to_int}
use dbs_assignment.Prelude.Dict.{lookup, lookup-insert_same}
use dbs_assignment.Errno.{eperm, emfile, acc_mode, o_rdonly}
use dbs_assignment.System.{Timespec, FileInfo}
use dbs_assignment.Client.{Env, FileMeta, zero_meta, World, get_full_path}
use dbs_assignment.Client.Monad.{returned, M, on_disk}
use dbs_assignment.Client.Access.{
  watdfs_cli_write, change_local, watdfs_cli_utimensat, watdfs_cli_fsync,
}
use dbs_assignment.Client.Cache.{cli_file_is_open}
use dbs_assignment.Client.Runs.{with_meta, is_open-found, is_open-touched}

-- A file that is open for reading only is not changed.
pub change_local-readonly :
    {D S : Type 0} (env : Env D S) (path : String) (change : M D S ℤ ℤ) (w : World D S)
    (m : FileMeta)
    → lookup path w.status.open_files_status ≡ some m
    → acc_mode m.client_mode ≡ o_rdonly
    → change_local env path change w ≡ returned (neg emfile) w
unfolding change_local
change_local-readonly env path change w m found mode =
    rw (is_open-found path w.status m found) (ground arith)

module _ {D S : Type 0} (env : Env D S) (path : String) (w : World D S)
    (missing : lookup path w.status.open_files_status ≡ none) where
  write-unopened :
      (buf : List ℕ) (size offset : ℕ)
      → watdfs_cli_write env path buf size offset w
        ≡ returned (neg emfile) (with_meta path zero_meta w)
  unfolding watdfs_cli_write
  write-unopened buf size offset = rw (is_open-touched path w.status) (ground arith)

  fsync-unopened :
      (fi : FileInfo)
      → watdfs_cli_fsync env path fi w ≡ returned (neg eperm) (with_meta path zero_meta w)
  unfolding watdfs_cli_fsync
  fsync-unopened fi = ground (arith)

  utimensat-unopened :
      (atim mtim : Timespec)
      → watdfs_cli_utimensat env path atim mtim w
        ≡ returned (neg emfile) (with_meta path zero_meta w)
  unfolding watdfs_cli_utimensat
  utimensat-unopened atim mtim = ground (
    arith,
    change_local-readonly env path
        (on_disk
          (env.os.utimensat (to_int zero_meta.client_desc) (get_full_path path w.status) atim mtim))
        (with_meta path zero_meta w) zero_meta
        (lookup-insert_same path zero_meta w.status.open_files_status) refl,
  )

  -- On a file that the client does not have open, writing, setting the times and flushing are refused,
  -- the first two with -EMFILE and the last with -EPERM, and each refusal leaves an entry of zeroes for
  -- the file, which counts as open from then on. The manual (section 4) has -EPERM for the write.
  pub unopened-refused :
      (buf : List ℕ) (size offset : ℕ) (atim mtim : Timespec) (fi : FileInfo)
      → (watdfs_cli_write env path buf size offset w
          ≡ returned (neg emfile) (with_meta path zero_meta w))
        × (watdfs_cli_utimensat env path atim mtim w
            ≡ returned (neg emfile) (with_meta path zero_meta w))
        × (watdfs_cli_fsync env path fi w ≡ returned (neg eperm) (with_meta path zero_meta w))
        × (cli_file_is_open path (with_meta path zero_meta w).status ≡ pos 0)
  unopened-refused buf size offset atim mtim fi = (
    write-unopened buf size offset,
    utimensat-unopened atim mtim,
    fsync-unopened fi,
    is_open-found path (with_meta path zero_meta w).status zero_meta
        (lookup-insert_same path zero_meta w.status.open_files_status),
  )
