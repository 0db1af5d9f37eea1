-- ===== src/Server/Opens.antt =====
-- The handlers `watdfs_open` and `watdfs_release` of watdfs_server.cpp, which keep the map of the
-- open files.
use dbs_assignment.Prelude.{ℕ, Bool, not, Option, none, some, String, ltb, ◌==◌, if◌then◌else◌}
use dbs_assignment.Prelude.Int.{ℤ, pos, neg, negsuc, ◌+ℤ◌, is_neg, is_zero, ltb_ℤ, to_int, to_u64}
use dbs_assignment.Prelude.Dict.{lookup, insert, erase, touch}
use dbs_assignment.Errno.{eperm, eacces, o_rdonly, acc_mode}
use dbs_assignment.Lock.{RwLock, Pthread, rw_lock_init}
use dbs_assignment.System.{Os, FileInfo}
use dbs_assignment.Server.{FileStatus, zero_status, Server, get_full_path}

-- `openReqFlag != O_RDONLY`
abbrev pub wants_write : ℕ → Bool
wants_write flags = not (acc_mode flags == o_rdonly)

-- How the map decides on an open request: a refusal with its code, or the new entry.
pub data Admission : Type 0 where
  refused : ℤ → Admission
  admitted : FileStatus → Admission

-- The branch for a file that is open already.
unfoldable pub join_openers : Bool → FileStatus → Admission
join_openers writes st =
    if st.server_mode == 0
    then admitted (record st {
      server_mode = if writes then 1 else st.server_mode;
      open_num = st.open_num +ℤ pos 1;
    })
    else if writes
    then refused (neg eacces)
    else admitted (record st { open_num = st.open_num +ℤ pos 1 })

-- The branch for a file that nobody has open: a new lock, whose memory holds `raw` so far.
unfoldable pub first_opener : Pthread → RwLock → Bool → Admission
unfolding rw_lock_init
first_opener pt raw writes =
    let (lock_ret, lock) = rw_lock_init pt (some raw) in
    if is_neg lock_ret
    then refused lock_ret
    else admitted (record { server_mode = if writes then 1 else 0; open_num = pos 1; lock = lock })

unfoldable pub admit : Pthread → RwLock → Bool → Option FileStatus → Admission
unfolding join_openers first_opener
admit pt raw writes none = first_opener pt raw writes
admit pt raw writes (some st) =
    if ltb_ℤ (pos 0) st.open_num then join_openers writes st else first_opener pt raw writes

-- The entry after a release.
abbrev pub release_entry : Bool → FileStatus → FileStatus
release_entry writes st = record st {
  open_num = st.open_num +ℤ negsuc 0;
  server_mode = if writes then 0 else st.server_mode;
}

module _ {D : Type 0} (os : Os D) where
  -- The end of `watdfs_open`, for a request that the map has admitted. The test `fi->fh < 0` reads
  -- the unsigned descriptor of the request.
  unfoldable pub open_admitted : String → FileInfo → Server D → ℤ × FileInfo × ℤ × Server D
  unfolding get_full_path
  open_admitted short_path fi s =
      let (open_ret, d) = os.open_file (get_full_path short_path s) (acc_mode fi.flags) s.disk in
      let s' = record s { disk = d } in
      if ltb fi.fh 0
      then (pos 0, fi, neg (os.errno d), s')
      else (pos 0, record fi { fh = to_u64 open_ret }, pos 0, s')

  -- What `watdfs_open` does once it has looked into the map: the map may have changed since.
  abbrev pub commit_open : String → FileInfo → Admission → Server D → ℤ × FileInfo × ℤ × Server D
  commit_open short_path fi (refused code) s = (pos 0, fi, code, s)
  commit_open short_path fi (admitted st) s =
      open_admitted short_path fi
        (record s { open_files_status = insert short_path st s.open_files_status })

  unfoldable pub watdfs_open :
      Pthread → RwLock → String → FileInfo → Server D → ℤ × FileInfo × ℤ × Server D
  watdfs_open pt raw short_path fi s =
      commit_open short_path fi
        (admit pt raw (wants_write fi.flags) (lookup short_path s.open_files_status)) s

  -- `logging` says whether DLOG is compiled in, as it is without NDEBUG: its argument
  -- `openFilesStatus_s[short_path].openNum` creates a missing key.
  unfoldable pub watdfs_release : Bool → String → FileInfo → Server D → ℤ × ℤ × Server D
  watdfs_release logging short_path fi s =
      let (sys_ret, d) = os.close (to_int fi.fh) s.disk in
      let s' = record s { disk = d } in
      if is_neg sys_ret
      then (pos 0, neg (os.errno d), s')
      else let files =
          if logging
          then touch zero_status short_path s.open_files_status
          else s.open_files_status in
        elim (lookup short_path files) [
          | none ↦ (pos 0, neg eperm, record s' { open_files_status = files })
          | some st ↦
              let st' = release_entry (wants_write fi.flags) st in
              if is_zero st'.open_num
              then (pos 0, pos 0, record s' { open_files_status = erase short_path files })
              else (pos 0, pos 0, record s' { open_files_status = insert short_path st' files })
        ]
