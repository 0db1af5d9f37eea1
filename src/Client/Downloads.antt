-- ===== src/Client/Downloads.antt =====
-- `cli_downloadFile` of watdfs_client.cpp from a server that answers to a local file system that
-- has room.
use dbs_assignment.Prelude.{
  ℕ, ◌+◌, ◌%◌, ◌≤◌, ◌<◌, ◌≡◌, ◌≢◌, ◌⊎◌, refl, ap, sym, ◌∙◌, some, List, [], String, arith, length,
  take, length-take, ltb, true, false,
}
use dbs_assignment.Prelude.Int.{ℤ, pos, to_int, to_u64, IsInt, to_int-to_u64}
use dbs_assignment.Prelude.Dict.{lookup, lookup-insert_same}
use dbs_assignment.Errno.{o_rdonly, o_rdwr, o_creat, s_irwxu}
use dbs_assignment.Lock.{rw_read_lock}
use dbs_assignment.System.{Stat, FileInfo, Timespec}
use dbs_assignment.System.Regular.{RegularFile, Stamps, max_rw_count}
use dbs_assignment.Rpc.ArgTypes.{max_array_len}
use dbs_assignment.System.Content.{splice, slice, splice-nil}
use dbs_assignment.Client.{Env, FileMeta, World, get_full_path}
use dbs_assignment.Client.Monad.{next}
use dbs_assignment.Client.Stubs.{
  copy_getattr, copy_open, copy_release, watdfs_cli_lock, watdfs_cli_unlock,
}
use dbs_assignment.Client.Transfer.{copy_read}
use dbs_assignment.Client.Transfer.ReadLoop.{ServesReads}
use dbs_assignment.Client.Transfer.Reads.{copy_read-serves}
use dbs_assignment.Client.Copies.{download_begin, download_fill, download_end, cli_download_file}
use dbs_assignment.Client.Runs.{with_meta}

-- The test on an unsigned descriptor.
pub ltb-zero : (n : ℕ) → ltb n 0 ≡ false
ltb-zero n = ground arith

zero-ltb : (n : ℕ) → 0 < n → ltb 0 n ≡ true
zero-ltb n h = ground arith

module _ {D S : Type 0} (env : Env D S) (path : String) where
  open env use {os, uninit}

  pub download_begin-next :
      (w : World D S) (st : Stat) (fi : FileInfo) (g o l : ℕ) (s1 s2 s3 : S)
      → copy_getattr env path uninit.stat_value w.remote ≡ (pos g, st, s1)
      → copy_open env path (record uninit.file_info_value { flags = o_rdonly }) s1 ≡ (pos o, fi, s2)
      → watdfs_cli_lock env path rw_read_lock s2 ≡ (pos l, s3)
      → download_begin env path w ≡ next (st, fi) (record w { remote = s3 })
  unfolding download_begin
  download_begin-next w st fi g o l s1 s2 s3 e f h = rw (e, f, h) refl

  download_fill-next :
      (w : World D S) (flags : ℕ) (st : Stat) (fi : FileInfo) (created : ℤ) (t n p u now : ℕ)
      (buf : List ℕ) (d1 d2 d3 d4 d5 : D) (s : S)
      → 0 < st.st_size
      → os.create_file (get_full_path path w.status) (o_creat + o_rdwr) s_irwxu w.disk
        ≡ (created, d1)
      → os.truncate (get_full_path path w.status) 0 d1 ≡ (pos t, d2)
      → copy_read env path (uninit.bytes st.st_size) st.st_size 0 fi w.remote ≡ some (pos n, buf, s)
      → os.pwrite (to_int (to_u64 created)) buf st.st_size 0 d2 ≡ (pos p, d3)
      → os.time d3 ≡ (now, d4)
      → os.utimensat
          (to_int (to_u64 created))
          (get_full_path path w.status)
          st.st_atim
          st.st_mtim
          d4
        ≡ (pos u, d5)
      → download_fill env path flags st fi w
        ≡ next tt (
            with_meta path
              (record {
                client_desc = to_u64 created;
                client_mode = flags;
                tc = now;
                server_desc = 0;
              })
              (record w { disk = d5; remote = s }))
  unfolding download_fill
  download_fill-next w flags st fi created t n p u now buf d1 d2 d3 d4 d5 s some_bytes e f g h i j =
      rw (e, ltb-zero (to_u64 created)) (rw f (ground arith))

  download_end-next :
      (w : World D S) (fi : FileInfo) (l r : ℕ) (s1 s2 : S)
      → watdfs_cli_unlock env path rw_read_lock w.remote ≡ (pos l, s1)
      → copy_release env path fi s1 ≡ (pos r, s2)
      → download_end env path fi w ≡ next (pos 0) (record w { remote = s2 })
  unfolding download_end
  download_end-next w fi l r s1 s2 e f = rw (e, f) refl

  download_file-next :
      (w w1 w2 w3 : World D S) (flags : ℕ) (c : ℤ) (st : Stat) (fi : FileInfo)
      → download_begin env path w ≡ next (st, fi) w1
      → download_fill env path flags st fi w1 ≡ next tt w2
      → download_end env path fi w2 ≡ next c w3
      → cli_download_file env path flags w ≡ next c w3
  unfolding cli_download_file
  download_file-next w w1 w2 w3 flags c st fi e f g = ground arith

-- The end of a download, from a server that is `ready`: the lock and the descriptor are taken back,
-- and the file stays as it is.
pub record TakesBack {D S : Type 0} (env : Env D S) (path : String) (fi : FileInfo)
    (content : S → List ℕ) (ready : S → Type 0) : Type 0 where
  pub takes_back :
      (s : S)
      → ready s
      → (s1 : S) × (s2 : S) × (watdfs_cli_unlock env path rw_read_lock s ≡ (pos 0, s1))
        × (copy_release env path fi s1 ≡ (pos 0, s2))
        × (content s2 ≡ content s)

module _ {D S : Type 0} {env : Env D S} {path : String} {fi : FileInfo} {content : S → List ℕ}
    {ready : S → Type 0} {fd : ℤ} {file : D → List ℕ} {valid : D → Type 0}
    (served : ServesReads env path fi content ready) (back : TakesBack env path fi content ready)
    (regular : RegularFile env.os fd file valid) where
  open env use {os, uninit}

  -- The file of the server, read up to the size that it had.
  read_whole :
      (buf : List ℕ) (n : ℕ) (s : S)
      → length (uninit.bytes max_array_len) ≡ max_array_len
      → length buf ≡ n
      → 0 < n
      → n ≤ max_rw_count
      → (n ≤ max_array_len) ⊎ (n % max_array_len ≢ 0)
      → n ≤ length (content s)
      → ready s
      → (s' : S) × (copy_read env path buf n 0 fi s ≡ some (pos n, take n (content s), s'))
        × (content s' ≡ content s)
        × ready s'
  read_whole buf n s malloc e some_bytes few fits size up =
      let (s', got, kept, up') =
        copy_read-serves served 0 buf s malloc (omega arith) (omega arith) (ground (arith, e))
          (omega arith) up in
      (
        s',
        ap (λ m. copy_read env path buf m 0 fi s) (sym e)
            ∙ got
            ∙ ap (λ m. some (pos m, slice 0 m (content s), s')) e,
        kept,
        up',
      )

  -- The file in the cache after the calls of `download_fill`.
  download_fill-copies :
      {mtim : D → Timespec} (w : World D S)
      (stamps : Stamps env.os fd (get_full_path path w.status) file mtim valid) (flags : ℕ)
      (st : Stat) (d1 d2 : D)
      → IsInt fd
      → ((n : ℕ) → length (uninit.bytes n) ≡ n)
      → 0 < st.st_size
      → st.st_size ≤ max_rw_count
      → (st.st_size ≤ max_array_len) ⊎ (st.st_size % max_array_len ≢ 0)
      → st.st_size ≤ length (content w.remote)
      → ready w.remote
      → os.create_file (get_full_path path w.status) (o_creat + o_rdwr) s_irwxu w.disk ≡ (fd, d1)
      → os.truncate (get_full_path path w.status) 0 d1 ≡ (pos 0, d2)
      → file d2 ≡ []
      → valid d2
      → (now : ℕ) × (d' : D) × (s' : S) × (download_fill env path flags st fi w
          ≡ next tt (
              with_meta path
                (record { client_desc = to_u64 fd; client_mode = flags; tc = now; server_desc = 0 })
                (record w { disk = d'; remote = s' })))
        × (file d' ≡ take st.st_size (content w.remote))
        × (mtim d' ≡ st.st_mtim)
        × (content s' ≡ content w.remote)
        × ready s'
  download_fill-copies w stamps flags st d1 d2 int malloc some_bytes few fits size up e f empty
        open_now =
      let (s', got, kept, up') =
        read_whole (uninit.bytes st.st_size) st.st_size w.remote (malloc max_array_len)
          (malloc st.st_size) some_bytes few fits size up in
      let bytes = take st.st_size (content w.remote) in
      let whole : length bytes ≡ st.st_size =
        omega (arith, length-take st.st_size (content w.remote)) in
      let (d3, put, stored, open3) = regular.pwrite_lem bytes 0 d2 open_now (omega arith) in
      let (now, d4, clock, kept4, open4) = stamps.time_lem d3 open3 in
      let (d5, stamped, kept5, dated, open5) =
        stamps.utimensat_lem st.st_atim st.st_mtim d4 open4 in
      (
        now,
        d5,
        s',
        download_fill-next env path w flags st fi fd 0 st.st_size (length bytes) 0 now bytes d1 d2
            d3 d4 d5 s' some_bytes e f got
            (ap (λ x. os.pwrite x bytes st.st_size 0 d2) (to_int-to_u64 fd int)
              ∙ ap (λ n. os.pwrite fd bytes n 0 d2) (sym whole)
              ∙ put)
            clock
            (ap (λ x. os.utimensat x (get_full_path path w.status) st.st_atim st.st_mtim d4)
                (to_int-to_u64 fd int)
              ∙ stamped),
        kept5 ∙ kept4 ∙ stored ∙ ap (λ x. splice 0 bytes x) empty ∙ splice-nil bytes,
        dated,
        kept,
        up',
      )

  -- A download returns 0 and leaves in the cache the first bytes of the server's file, as many as
  -- `getattr` gave as its size before the lock was taken, with the modification time that it gave; an
  -- entry with the local descriptor and with 0 for the server's; and the server's file as it was under
  -- the lock. Provided that: the server answers `getattr`, `open` and the lock with 0; under the lock
  -- the file is not shorter than that size, which is at least 1 and at most 0x7ffff000 (what one
  -- `pwrite` may transfer), and if it is more than 65535, no multiple of that; the server serves every
  -- read of bytes that the file has, and takes the lock and the descriptor back; locally, `open` and
  -- `truncate` succeed and leave an empty regular file, to which writes are not cut short and whose
  -- times can be set, and `malloc` succeeds.
  pub download-copies :
      {mtim : D → Timespec} (w : World D S)
      (stamps : Stamps env.os fd (get_full_path path w.status) file mtim valid) (flags : ℕ)
      (st : Stat) (s1 s2 s3 : S) (d1 d2 : D)
      → IsInt fd
      → ((n : ℕ) → length (uninit.bytes n) ≡ n)
      → 0 < st.st_size
      → st.st_size ≤ max_rw_count
      → (st.st_size ≤ max_array_len) ⊎ (st.st_size % max_array_len ≢ 0)
      → copy_getattr env path uninit.stat_value w.remote ≡ (pos 0, st, s1)
      → copy_open env path (record uninit.file_info_value { flags = o_rdonly }) s1 ≡ (pos 0, fi, s2)
      → watdfs_cli_lock env path rw_read_lock s2 ≡ (pos 0, s3)
      → st.st_size ≤ length (content s3)
      → ready s3
      → os.create_file (get_full_path path w.status) (o_creat + o_rdwr) s_irwxu w.disk ≡ (fd, d1)
      → os.truncate (get_full_path path w.status) 0 d1 ≡ (pos 0, d2)
      → file d2 ≡ []
      → valid d2
      → (w' : World D S) × (now : ℕ) × (cli_download_file env path flags w ≡ next (pos 0) w')
        × (file w'.disk ≡ take st.st_size (content s3))
        × (content w'.remote ≡ content s3)
        × (mtim w'.disk ≡ st.st_mtim)
        × (lookup path w'.status.open_files_status
            ≡ some (record {
              client_desc = to_u64 fd;
              client_mode = flags;
              tc = now;
              server_desc = 0;
            }))
  download-copies w stamps flags st s1 s2 s3 d1 d2 int malloc some_bytes few fits g o l size up e f
        empty open_now =
      let (now, d', s', filled, copied, dated, kept, up') =
        download_fill-copies (record w { remote = s3 }) stamps flags st d1 d2 int malloc some_bytes
          few fits size up e f empty open_now in
      let (s4, s5, unlocked, closed, kept') = back.takes_back s' up' in
      let m : FileMeta = record {
        client_desc = to_u64 fd;
        client_mode = flags;
        tc = now;
        server_desc = 0;
      } in
      (
        with_meta path m (record w { disk = d'; remote = s5 }),
        now,
        download_file-next env path w (record w { remote = s3 })
            (with_meta path m (record w { disk = d'; remote = s' }))
            (with_meta path m (record w { disk = d'; remote = s5 })) flags (pos 0) st fi
            (download_begin-next env path w st fi 0 0 0 s1 s2 s3 g o l) filled
            (download_end-next env path (with_meta path m (record w { disk = d'; remote = s' })) fi
              0 0 s4 s5 unlocked closed),
        copied,
        kept' ∙ kept,
        dated,
        lookup-insert_same path m w.status.open_files_status,
      )
