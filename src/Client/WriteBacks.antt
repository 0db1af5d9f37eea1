-- ===== src/Client/WriteBacks.antt =====
-- `cli_write_back` of watdfs_client.cpp to a server that stores what it is sent.
use dbs_assignment.Prelude.{
  ℕ, ◌%◌, ◌≤◌, ◌<◌, ◌≡◌, ◌≢◌, ◌⊎◌, refl, ap, sym, ◌∙◌, some, List, [], String, arith, length,
  take-all, overwrite, append-nil, drop-all, ◌++◌,
}
use dbs_assignment.Prelude.Int.{ℤ, pos}
use dbs_assignment.Prelude.Dict.{lookup}
use dbs_assignment.Errno.{o_rdonly, o_wronly}
use dbs_assignment.Lock.{rw_write_lock}
use dbs_assignment.System.{Stat, FileInfo, Timespec}
use dbs_assignment.System.Content.{splice, splice-nil}
use dbs_assignment.System.Regular.{RegularFile, max_rw_count}
use dbs_assignment.Rpc.ArgTypes.{max_array_len}
use dbs_assignment.Client.{Env, FileMeta, World, get_full_path}
use dbs_assignment.Client.Monad.{next}
use dbs_assignment.Client.Stubs.{copy_truncate, copy_utimensat, watdfs_cli_lock, watdfs_cli_unlock}
use dbs_assignment.Client.Transfer.{copy_write}
use dbs_assignment.Client.Transfer.Writes.{StoresWrites, copy_write-stores}
use dbs_assignment.Client.Copies.{cli_write_back}

module _ {D S : Type 0} (env : Env D S) (path : String) where
  open env use {os, uninit}

  write_back-next :
      (w : World D S) (m : FileMeta) (st : Stat) (fd close_ret : ℤ) (l n t c u v : ℕ) (buf : List ℕ)
      (d1 d2 d3 d4 : D) (s1 s2 s3 s4 s5 : S)
      → 0 < st.st_size
      → lookup path w.status.open_files_status ≡ some m
      → watdfs_cli_lock env path rw_write_lock w.remote ≡ (pos l, s1)
      → os.stat (get_full_path path w.status) uninit.stat_value w.disk ≡ (pos 0, st, d1)
      → os.open_file (get_full_path path w.status) o_rdonly d1 ≡ (fd, d2)
      → os.pread fd (uninit.bytes st.st_size) st.st_size 0 d2 ≡ (pos n, buf, d3)
      → os.close fd d3 ≡ (close_ret, d4)
      → copy_truncate env path 0 s1 ≡ (pos t, s2)
      → copy_write env path buf st.st_size 0
          (record uninit.file_info_value { flags = o_wronly; fh = m.server_desc })
          s2
        ≡ some (pos c, s3)
      → copy_utimensat env path st.st_atim st.st_mtim s3 ≡ (pos u, s4)
      → watdfs_cli_unlock env path rw_write_lock s4 ≡ (pos v, s5)
      → cli_write_back env path w ≡ next (pos u) (record w { disk = d4; remote = s5 })
  unfolding cli_write_back
  write_back-next w m st fd close_ret l n t c u v buf d1 d2 d3 d4 s1 s2 s3 s4 s5 some_bytes found e1
        e2 e3 e4 e5 e6 e7 e8 e9 =
      rw (e1, e2, e3, e4, e5) (ground arith)

-- The descriptor that the client writes to.
abbrev pub written_to : {D S : Type 0} → Env D S → FileMeta → FileInfo
written_to env m = record env.uninit.file_info_value { flags = o_wronly; fh = m.server_desc }

-- The end of a write-back, on a server that is `ready`: the times are set and the lock is taken back,
-- and the bytes of the file stay as they are.
pub record Finishes {D S : Type 0} (env : Env D S) (path : String) (content : S → List ℕ)
    (mtim : S → Timespec) (ready : S → Type 0) : Type 0 where
  pub finishes :
      (atim time : Timespec) (s : S)
      → ready s
      → (s1 : S) × (s2 : S) × (copy_utimensat env path atim time s ≡ (pos 0, s1))
        × (watdfs_cli_unlock env path rw_write_lock s1 ≡ (pos 0, s2))
        × (content s2 ≡ content s)
        × (mtim s2 ≡ time)

module _ {D S : Type 0} {env : Env D S} {path : String} (m : FileMeta) {content : S → List ℕ}
    {mtim : S → Timespec} {ready : S → Type 0} {fd : ℤ} {file : D → List ℕ} {valid : D → Type 0}
    (stored : StoresWrites env path (written_to env m) content ready)
    (finish : Finishes env path content mtim ready)
    (regular : RegularFile env.os fd file valid) where
  open env use {os, uninit}

  -- The local file, read as a whole.
  read_local :
      (buf : List ℕ) (n : ℕ) (d : D)
      → length buf ≡ n
      → n ≡ length (file d)
      → valid d
      → n ≤ max_rw_count
      → (d' : D) × (os.pread fd buf n 0 d ≡ (pos n, file d, d'))
  read_local buf n d e size open_now few =
      let (d', got, kept, open') =
        regular.pread_lem buf n 0 d open_now (omega arith) few (omega arith) in
      (
        d',
        got
            ∙ ap (λ xs. (pos n, overwrite xs buf, d')) (take-all n (file d) (omega arith))
            ∙ ap (λ xs. (pos n, file d ++ xs, d')) (drop-all (length (file d)) buf (omega arith))
            ∙ ap (λ xs. (pos n, xs, d')) (append-nil (file d)),
      )

  -- The file of the server, written as a whole.
  write_whole :
      (bytes : List ℕ) (n : ℕ) (s : S)
      → n ≡ length bytes
      → 0 < n
      → n ≤ max_rw_count
      → (n ≤ max_array_len) ⊎ (n % max_array_len ≢ 0)
      → content s ≡ []
      → ready s
      → (s' : S) × (copy_write env path bytes n 0 (written_to env m) s ≡ some (pos n, s'))
        × (content s' ≡ bytes)
        × ready s'
  write_whole bytes n s size some_bytes few fits empty up =
      let (s', sent, kept, up') =
        copy_write-stores stored 0 bytes s (omega arith) (omega arith) (ground (arith, size)) up in
      (
        s',
        ap (λ k. copy_write env path bytes k 0 (written_to env m) s) size
            ∙ sent
            ∙ ap (λ k. some (pos k, s')) (sym size),
        kept ∙ ap (λ xs. splice 0 bytes xs) empty ∙ splice-nil bytes,
        up',
      )

  -- A write-back returns 0 and leaves the bytes of the local file and the modification time that
  -- `stat` gave on the server, and the client's own data as it was, provided that: the file has an
  -- entry; the lock is granted, `stat` and `open` on the local file succeed, and so does the truncate
  -- of the server's file to 0 bytes, which empties it; the size that `stat` gave is that of the file
  -- when it is read, at least 1 and at most 0x7ffff000 (what one `pread` may transfer), and if it is
  -- more than 65535, no multiple of that; the local descriptor reads a regular file without a short
  -- read and `malloc` succeeds; and the server stores every write to the descriptor that the entry
  -- names, and then sets the times and gives back the lock.
  pub write_back-stores :
      (w : World D S) (st : Stat) (d1 d2 : D) (s1 s2 : S)
      → ((n : ℕ) → length (uninit.bytes n) ≡ n)
      → lookup path w.status.open_files_status ≡ some m
      → watdfs_cli_lock env path rw_write_lock w.remote ≡ (pos 0, s1)
      → os.stat (get_full_path path w.status) uninit.stat_value w.disk ≡ (pos 0, st, d1)
      → os.open_file (get_full_path path w.status) o_rdonly d1 ≡ (fd, d2)
      → valid d2
      → st.st_size ≡ length (file d2)
      → 0 < st.st_size
      → st.st_size ≤ max_rw_count
      → (st.st_size ≤ max_array_len) ⊎ (st.st_size % max_array_len ≢ 0)
      → copy_truncate env path 0 s1 ≡ (pos 0, s2)
      → content s2 ≡ []
      → ready s2
      → (w' : World D S) × (cli_write_back env path w ≡ next (pos 0) w')
        × (content w'.remote ≡ file d2)
        × (mtim w'.remote ≡ st.st_mtim)
        × (w'.status ≡ w.status)
  write_back-stores w st d1 d2 s1 s2 malloc found l e f open_now size some_bytes few fits t empty
        up =
      let (d3, got) =
        read_local (uninit.bytes st.st_size) st.st_size d2 (malloc st.st_size) size open_now few in
      let (s3, sent, copied, up') =
        write_whole (file d2) st.st_size s2 size some_bytes few fits empty up in
      let (s4, s5, dated, unlocked, kept, times) = finish.finishes st.st_atim st.st_mtim s3 up' in
      (
        record w { disk = (os.close fd d3).1; remote = s5 },
        write_back-next env path w m st fd (os.close fd d3).0 0 st.st_size 0 st.st_size 0 0
            (file d2) d1 d2 d3 (os.close fd d3).1 s1 s2 s3 s4 s5 some_bytes found l e f got refl t
            sent dated unlocked,
        kept ∙ copied,
        times,
        refl,
      )
