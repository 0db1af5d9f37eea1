-- ===== src/Client/Fetches.antt =====
-- `watdfs_cli_open` of watdfs_client.cpp on a file that is not in the cache.
use dbs_assignment.Prelude.{
  ℕ, ◌+◌, ◌%◌, ◌≤◌, ◌<◌, ◌≡◌, ◌≢◌, ◌⊎◌, List, [], length, take, Bool, true, false, none, some,
  String, arith,
}
use dbs_assignment.Prelude.Int.{ℤ, pos, is_neg, IsInt, to_u64}
use dbs_assignment.Prelude.Dict.{lookup}
use dbs_assignment.Errno.{enoent, o_rdonly, o_rdwr, o_creat, s_irwxu}
use dbs_assignment.Lock.{rw_read_lock}
use dbs_assignment.System.{Stat, FileInfo, Timespec}
use dbs_assignment.System.Regular.{RegularFile, Stamps, max_rw_count}
use dbs_assignment.Rpc.ArgTypes.{max_array_len}
use dbs_assignment.Client.{Env, FileMeta, World, get_full_path}
use dbs_assignment.Client.Monad.{next}
use dbs_assignment.Client.Stubs.{copy_getattr, copy_open, watdfs_cli_lock}
use dbs_assignment.Client.Transfer.ReadLoop.{ServesReads}
use dbs_assignment.Client.Downloads.{TakesBack, download-copies}
use dbs_assignment.Client.Copies.{cli_download_file}
use dbs_assignment.Client.Opens.{open_unopened, watdfs_cli_open}
use dbs_assignment.Client.Runs.{is_open-missing}

module _ {D S : Type 0} (env : Env D S) (path : String) (w : World D S) where
  open env use {os, uninit}

  open_unopened-absent :
      (flags : ℕ) (fi : FileInfo) (stat_ret : ℤ) (st : Stat) (d : D) (c : ℕ) (w' : World D S)
      → os.stat (get_full_path path w.status) uninit.stat_value w.disk ≡ (stat_ret, st, d)
      → is_neg stat_ret ≡ true
      → os.errno d ≡ enoent
      → cli_download_file env path flags (record w { disk = d }) ≡ next (pos c) w'
      → open_unopened env path flags fi w ≡ next (pos 0) w'
  unfolding open_unopened
  open_unopened-absent flags fi stat_ret st d c w' e bad code got = rw (e, bad, code) (ground arith)

module _ {D S : Type 0} (env : Env D S) (path : String) (w : World D S) where
  open env use {os, uninit}

  -- Once the download has succeeded.
  open-downloaded :
      (logging : Bool) (fi fi' : FileInfo) (stat_ret : ℤ) (st : Stat) (o c : ℕ) (d : D) (s : S)
      (m : FileMeta) (w' : World D S)
      → lookup path w.status.open_files_status ≡ none
      → copy_open env path fi w.remote ≡ (pos o, fi', s)
      → os.stat (get_full_path path w.status) uninit.stat_value w.disk ≡ (stat_ret, st, d)
      → is_neg stat_ret ≡ true
      → os.errno d ≡ enoent
      → cli_download_file env path fi.flags (record w { disk = d; remote = s }) ≡ next (pos c) w'
      → lookup path w'.status.open_files_status ≡ some m
      → watdfs_cli_open env logging path fi w ≡ next (pos 0, fi') w'
  unfolding watdfs_cli_open
  open-downloaded logging fi fi' stat_ret st o c d s m w' missing e f bad code got found =
      opened logging
    where
      fetched : open_unopened env path fi.flags fi' (record w { remote = s }) ≡ next (pos 0) w'
      fetched =
          open_unopened-absent env path (record w { remote = s }) fi.flags fi' stat_ret st d c w' f
            bad code got

      opened : (l : Bool) → watdfs_cli_open env l path fi w ≡ next (pos 0, fi') w'
      opened true = rw (e, is_open-missing path w.status missing) (ground (arith, fetched))
      opened false = rw (e, is_open-missing path w.status missing) (ground (arith, fetched))

module _ {D S : Type 0} {env : Env D S} {path : String} {cpyfi : FileInfo} {content : S → List ℕ}
    {ready : S → Type 0} {fd : ℤ} {file : D → List ℕ} {valid : D → Type 0}
    (served : ServesReads env path cpyfi content ready)
    (back : TakesBack env path cpyfi content ready)
    (regular : RegularFile env.os fd file valid) where
  open env use {os, uninit}

  -- An open of a file that is neither open nor in the cache, and that the server grants, returns 0 and
  -- `fi` as the server has filled it, and leaves in the cache the first bytes of the server's file, as
  -- many as `getattr` gave as its size before the lock was taken, with the time that it gave, and an
  -- entry with the flags of the request. Provided that the local `stat` fails with ENOENT, and that the
  -- download can do its work: the server answers `getattr`, its own `open` and the lock with 0; under
  -- the lock the file is not shorter than that size, which is at least 1 and at most 0x7ffff000, and if
  -- it is more than 65535, no multiple of that; the server serves every read of bytes that the file
  -- has, and takes the lock and the descriptor back; locally, `open` and `truncate` succeed and leave
  -- an empty regular file, to which writes are not cut short and whose times can be set, and `malloc`
  -- succeeds.
  pub open-fetches :
      {mtim : D → Timespec} (w : World D S)
      (stamps : Stamps env.os fd (get_full_path path w.status) file mtim valid) (logging : Bool)
      (fi fi' : FileInfo) (stat_ret : ℤ) (local_st st : Stat) (o : ℕ) (d d1 d2 : D) (s s1 s2 s3 : S)
      → lookup path w.status.open_files_status ≡ none
      → copy_open env path fi w.remote ≡ (pos o, fi', s)
      → os.stat (get_full_path path w.status) uninit.stat_value w.disk ≡ (stat_ret, local_st, d)
      → is_neg stat_ret ≡ true
      → os.errno d ≡ enoent
      → IsInt fd
      → ((n : ℕ) → length (uninit.bytes n) ≡ n)
      → 0 < st.st_size
      → st.st_size ≤ max_rw_count
      → (st.st_size ≤ max_array_len) ⊎ (st.st_size % max_array_len ≢ 0)
      → copy_getattr env path uninit.stat_value s ≡ (pos 0, st, s1)
      → copy_open env path (record uninit.file_info_value { flags = o_rdonly }) s1
        ≡ (pos 0, cpyfi, s2)
      → watdfs_cli_lock env path rw_read_lock s2 ≡ (pos 0, s3)
      → st.st_size ≤ length (content s3)
      → ready s3
      → os.create_file (get_full_path path w.status) (o_creat + o_rdwr) s_irwxu d ≡ (fd, d1)
      → os.truncate (get_full_path path w.status) 0 d1 ≡ (pos 0, d2)
      → file d2 ≡ []
      → valid d2
      → (w' : World D S) × (now : ℕ) × (watdfs_cli_open env logging path fi w
          ≡ next (pos 0, fi') w')
        × (file w'.disk ≡ take st.st_size (content s3))
        × (mtim w'.disk ≡ st.st_mtim)
        × (lookup path w'.status.open_files_status
            ≡ some (record {
              client_desc = to_u64 fd;
              client_mode = fi.flags;
              tc = now;
              server_desc = 0;
            }))
  open-fetches w stamps logging fi fi' stat_ret local_st st o d d1 d2 s s1 s2 s3 missing granted e
        bad code int malloc some_bytes few fits g p l size up c t empty open_now =
      let (w', now, got, copied, kept, dated, found) =
        download-copies served back regular (record w { disk = d; remote = s }) stamps fi.flags st
          s1 s2 s3 d1 d2 int malloc some_bytes few fits g p l size up c t empty open_now in
      (
        w',
        now,
        open-downloaded env path w logging fi fi' stat_ret local_st o 0 d s _ w' missing granted e
            bad code got found,
        copied,
        dated,
        found,
      )
