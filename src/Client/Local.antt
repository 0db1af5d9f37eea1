-- ===== src/Client/Local.antt =====
-- The operations of watdfs_client.cpp on files that this client has open.
use dbs_assignment.Prelude.{
  Bool-cases, inl, inr, ℕ, ◌+◌, ◌<◌, ◌≡◌, ◌≢◌, refl, Bool, true, false, some, List, String, arith,
  if◌then◌else◌,
}
use dbs_assignment.Prelude.Int.{ℤ, pos, neg, is_neg, to_int}
use dbs_assignment.Prelude.Dict.{lookup, erase, lookup-insert_same}
use dbs_assignment.Errno.{emfile, acc_mode, o_rdonly}
use dbs_assignment.System.{FileInfo, zero_file_info}
use dbs_assignment.Client.{Env, FileMeta, World}
use dbs_assignment.Client.Monad.{returned, next}
use dbs_assignment.Client.Stubs.{copy_open, copy_release}
use dbs_assignment.Client.Cache.{cli_close_file}
use dbs_assignment.Client.Opens.{watdfs_cli_open, watdfs_cli_release}
use dbs_assignment.Client.Access.{watdfs_cli_read, watdfs_cli_write}
use dbs_assignment.Client.Freshness.{check-within}
use dbs_assignment.Client.Runs.{with_meta, is_open-found, is_open-touched}

module _ {D S : Type 0} (env : Env D S) (path : String) (w : World D S) where
  open env use {os, uninit}

  -- A write to a file that is open for writing goes to the local file only and returns the local
  -- count, with `tc` set to the time of the write; the server is not called. It holds at any age of
  -- the copy, if the interval does not pass between the write's own two readings of the clock.
  pub write-local :
      (m : FileMeta) (buf : List ℕ) (size offset n now now' : ℕ) (d d' d'' : D)
      → lookup path w.status.open_files_status ≡ some m
      → acc_mode m.client_mode ≢ o_rdonly
      → os.pwrite (to_int m.client_desc) buf size offset w.disk ≡ (pos n, d)
      → os.time d ≡ (now, d')
      → os.time d' ≡ (now', d'')
      → now' < now + w.status.cache_interval
      → watdfs_cli_write env path buf size offset w
        ≡ next (pos n) (with_meta path (record m { tc = now }) (record w { disk = d'' }))
  unfolding watdfs_cli_write
  write-local m buf size offset n now now' d d' d'' found mode e t t' within =
      rw (is_open-touched path w.status) (
        ground (
          arith,
          check-within env path (with_meta path (record m { tc = now }) (record w { disk = d' }))
              (record m { tc = now }) now' d''
              (lookup-insert_same path (record m { tc = now }) w.status.open_files_status) t'
              within,
        ))

  -- A read of a file that is open for reading, within the cache interval, is the `pread` of the
  -- local file, and neither the server nor the entry is touched.
  pub read-local :
      (m : FileMeta) (buf got : List ℕ) (size offset : ℕ) (count : ℤ) (now : ℕ) (d d' : D)
      → lookup path w.status.open_files_status ≡ some m
      → acc_mode m.client_mode ≡ o_rdonly
      → os.time w.disk ≡ (now, d)
      → now < m.tc + w.status.cache_interval
      → os.pread (to_int m.client_desc) buf size offset d ≡ (count, got, d')
      → watdfs_cli_read env path buf size offset w ≡ next (count, got) (record w { disk = d' })
  unfolding watdfs_cli_read
  read-local m buf got size offset count now d d' found mode t within e =
      rw (is_open-touched path w.status)
        (ground (arith, check-within env path w m now d found t within))

  open-refused :
      (logging : Bool) (fi fi' : FileInfo) (code : ℤ) (s : S)
      → copy_open env path fi w.remote ≡ (code, fi', s)
      → is_neg code ≡ true
      → watdfs_cli_open env logging path fi w ≡ returned (code, fi') (record w { remote = s })
  unfolding watdfs_cli_open
  open-refused logging fi fi' code s e bad = rw (e, bad) refl

  open-twice :
      (logging : Bool) (m : FileMeta) (fi fi' : FileInfo) (code : ℤ) (s : S)
      → lookup path w.status.open_files_status ≡ some m
      → copy_open env path fi w.remote ≡ (code, fi', s)
      → is_neg code ≡ false
      → watdfs_cli_open env logging path fi w
        ≡ next (neg emfile, zero_file_info) (record w { remote = s })
  unfolding watdfs_cli_open
  open-twice logging m fi fi' code s found e ok =
      rw (e, ok, is_open-found path w.status m found) (ground arith)

  -- An open of a file that is open here already fails: with the code of the server where that refuses,
  -- and else with -EMFILE and a cleared `fi`, without giving back the descriptor that the server has
  -- opened for it. Neither the map nor the cache changes.
  pub open-opened :
      (logging : Bool) (m : FileMeta) (fi fi' : FileInfo) (code : ℤ) (s : S)
      → lookup path w.status.open_files_status ≡ some m
      → copy_open env path fi w.remote ≡ (code, fi', s)
      → watdfs_cli_open env logging path fi w ≡ (
          if is_neg code
          then returned (code, fi') (record w { remote = s })
          else next (neg emfile, zero_file_info) (record w { remote = s }))
  open-opened logging m fi fi' code s found e = elim (Bool-cases (is_neg code)) [
    | inl bad ↦ rw bad (open-refused logging fi fi' code s e bad)
    | inr ok ↦ rw ok (open-twice logging m fi fi' code s found e ok)
  ]

  -- A release of a file that was opened for reading calls the server's release once, whatever code
  -- that gives, which is ignored; closes the local descriptor, removes the entry, writes nothing back,
  -- and returns what the local `close` does, though the server may have kept its descriptor; provided that
  -- this `close` succeeds.
  pub release-readonly :
      (m : FileMeta) (fi : FileInfo) (code : ℤ) (s : S) (n : ℕ) (d : D)
      → lookup path w.status.open_files_status ≡ some m
      → acc_mode fi.flags ≡ o_rdonly
      → copy_release env path fi w.remote ≡ (code, s)
      → os.close (to_int m.client_desc) w.disk ≡ (pos n, d)
      → watdfs_cli_release env path fi w
        ≡ next (pos n) (record w {
          disk = d;
          remote = s;
          status = record w.status { open_files_status = erase path w.status.open_files_status };
        })
  unfolding watdfs_cli_release cli_close_file
  release-readonly m fi code s n d found mode e f = ground arith
