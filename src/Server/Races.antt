-- ===== src/Server/Races.antt =====
-- Two calls of `watdfs_open` of watdfs_server.cpp at once: nothing guards the map between the look into
-- it and the change.
use dbs_assignment.Prelude.{◌≡◌, refl, true, none, some, String, arith}
use dbs_assignment.Prelude.Int.{ℤ, pos}
use dbs_assignment.Prelude.Dict.{get_or, lookup, insert, lookup-insert_same}
use dbs_assignment.Lock.{RwLock, pthread_ok, rw_lock_initializer, rw_lock_init}
use dbs_assignment.System.{Os, FileInfo}
use dbs_assignment.Server.{FileStatus, Server}
use dbs_assignment.Server.Opens.{
  Admission, admitted, first_opener, admit, wants_write, open_admitted, commit_open,
}
use dbs_assignment.Server.Locks.{status_of}

-- The entry that the first opener of a file makes when it writes.
abbrev written_first : FileStatus
written_first = record { server_mode = 1; open_num = pos 1; lock = some rw_lock_initializer }

module _ {D : Type 0} (os : Os D) (raw : RwLock) (path : String) where
  -- What a request sees when it looks into the map of `s`.
  abbrev pub look : FileInfo → Server D → Admission
  look fi s = admit pthread_ok raw (wants_write fi.flags) (lookup path s.open_files_status)

  look-first :
      (fi : FileInfo) (s : Server D)
      → lookup path s.open_files_status ≡ none
      → wants_write fi.flags ≡ true
      → look fi s ≡ admitted written_first
  unfolding admit first_opener rw_lock_init
  look-first fi s missing writes = rw (missing, writes) (ground arith)

  commit-admitted :
      (fi : FileInfo) (st : FileStatus) (s : Server D)
      → ((commit_open os path fi (admitted st) s).2 ≡ pos 0)
        × ((commit_open os path fi (admitted st) s).3.open_files_status
            ≡ insert path st s.open_files_status)
  unfolding open_admitted
  commit-admitted fi st s = ground arith

  -- Two requests that both look before either changes the map: the reply to the first, and then the
  -- one to the second.
  abbrev pub first_reply : FileInfo → Server D → ℤ × FileInfo × ℤ × Server D
  first_reply fi s = commit_open os path fi (look fi s) s

  abbrev pub second_reply : FileInfo → FileInfo → Server D → ℤ × FileInfo × ℤ × Server D
  second_reply fi fi' s = commit_open os path fi' (look fi' s) (first_reply fi s).3

  -- Two opens for writing of a file that nobody has open, both of which look into the map before either
  -- changes it, are both answered with 0, against the rule of one writer, and the entry then counts one
  -- opener for the two; if `rw_lock_init` succeeds.
  pub two_writers :
      (fi fi' : FileInfo) (s : Server D)
      → lookup path s.open_files_status ≡ none
      → wants_write fi.flags ≡ true
      → wants_write fi'.flags ≡ true
      → ((first_reply fi s).2 ≡ pos 0)
        × ((second_reply fi fi' s).2 ≡ pos 0)
        × ((status_of path (second_reply fi fi' s).3).open_num ≡ pos 1)
        × ((status_of path (second_reply fi fi' s).3).server_mode ≡ 1)
  two_writers fi fi' s missing writes writes' =
      let s1 = (commit_open os path fi (admitted written_first) s).3 in
      let (code, files) = commit-admitted fi' written_first s1 in
      rw (look-first fi s missing writes, look-first fi' s missing writes')
        (
          (commit-admitted fi written_first s).0,
          code,
          rw (files, get_or, lookup-insert_same path written_first s1.open_files_status) refl,
          rw (files, get_or, lookup-insert_same path written_first s1.open_files_status) refl,
        )
