-- ===== src/Client/KeptLocks.antt =====
-- A way out of `cli_downloadFile` of watdfs_client.cpp that stands between its lock and its unlock.
use dbs_assignment.Prelude.{arith, ◌+◌, ℕ, ◌≡◌, refl, true, String}
use dbs_assignment.Prelude.Int.{ℤ, pos, neg, is_neg, to_u64}
use dbs_assignment.Errno.{o_rdonly, o_rdwr, o_creat, s_irwxu}
use dbs_assignment.Lock.{rw_read_lock}
use dbs_assignment.System.{Stat, FileInfo}
use dbs_assignment.Client.{Env, World, get_full_path}
use dbs_assignment.Client.Monad.{returned, next}
use dbs_assignment.Client.Stubs.{copy_getattr, copy_open, watdfs_cli_lock}
use dbs_assignment.Client.Copies.{download_begin, download_fill, cli_download_file}
use dbs_assignment.Client.Downloads.{ltb-zero, download_begin-next}

module _ {D S : Type 0} (env : Env D S) (path : String) (w : World D S) where
  open env use {os, uninit}

  fill-truncate_failed :
      (flags : ℕ) (st : Stat) (fi : FileInfo) (fd truncate_ret : ℤ) (d d' : D)
      → os.create_file (get_full_path path w.status) (o_creat + o_rdwr) s_irwxu w.disk ≡ (fd, d)
      → os.truncate (get_full_path path w.status) 0 d ≡ (truncate_ret, d')
      → is_neg truncate_ret ≡ true
      → download_fill env path flags st fi w ≡ returned (neg (os.errno d')) (record w { disk = d' })
  unfolding download_fill
  fill-truncate_failed flags st fi fd truncate_ret d d' e f bad =
      rw (e, ltb-zero (to_u64 fd)) (rw (f, bad) refl)

  download-fill_failed :
      (w' w'' : World D S) (flags : ℕ) (c : ℤ) (st : Stat) (fi : FileInfo)
      → download_begin env path w ≡ next (st, fi) w'
      → download_fill env path flags st fi w' ≡ returned c w''
      → cli_download_file env path flags w ≡ returned c w''
  unfolding cli_download_file
  download-fill_failed w' w'' flags c st fi e f = ground arith

module _ {D S : Type 0} (env : Env D S) (path : String) (w : World D S) where
  open env use {os, uninit}

  -- A download whose local file cannot be emptied returns the code of that failure, and leaves the
  -- server as the lock call has left it: the read lock is not given back and the descriptor that was
  -- opened for the download is not closed.
  pub download-keeps_lock :
      (flags g o l : ℕ) (st : Stat) (fi : FileInfo) (fd truncate_ret : ℤ) (d d' : D) (s1 s2 s3 : S)
      → copy_getattr env path uninit.stat_value w.remote ≡ (pos g, st, s1)
      → copy_open env path (record uninit.file_info_value { flags = o_rdonly }) s1 ≡ (pos o, fi, s2)
      → watdfs_cli_lock env path rw_read_lock s2 ≡ (pos l, s3)
      → os.create_file (get_full_path path w.status) (o_creat + o_rdwr) s_irwxu w.disk ≡ (fd, d)
      → os.truncate (get_full_path path w.status) 0 d ≡ (truncate_ret, d')
      → is_neg truncate_ret ≡ true
      → cli_download_file env path flags w
        ≡ returned (neg (os.errno d')) (record w { disk = d'; remote = s3 })
  download-keeps_lock flags g o l st fi fd truncate_ret d d' s1 s2 s3 e1 e2 e3 e4 e5 bad =
      download-fill_failed env path w (record w { remote = s3 })
        (record w { disk = d'; remote = s3 }) flags (neg (os.errno d')) st fi
        (download_begin-next env path w st fi g o l s1 s2 s3 e1 e2 e3)
        (fill-truncate_failed env path (record w { remote = s3 }) flags st fi fd truncate_ret d d'
          e4 e5 bad)
