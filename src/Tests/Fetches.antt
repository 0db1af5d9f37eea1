-- ===== src/Tests/Fetches.antt =====
-- An example of the theorem on an open of `watdfs_cli_open` that has to fetch its file.
use dbs_assignment.Prelude.{ℕ, refl, ap, ◌∙◌, sym, take, [], ◌∷◌, some, true, arith, inl, ◌≡◌}
use dbs_assignment.Prelude.Int.{pos, ℤ, to_u64}
use dbs_assignment.Prelude.Dict.{Dict, lookup, insert}
use dbs_assignment.Lock.{RwLock, rw_read_lock, rw_lock_lock, rw_lock_unlock}
use dbs_assignment.System.{FileInfo, Stat, zero_stat, zero_file_info}
use dbs_assignment.System.Memory.{
  Machine, machine_os, machine_stat, machine_open, machine_create, machine_close, clear, on_file,
  path_of, stat_of,
}
use dbs_assignment.Server.{FileStatus}
use dbs_assignment.Server.Files.{watdfs_getattr, watdfs_read}
use dbs_assignment.Server.Opens.{watdfs_open, watdfs_release, admit, open_admitted}
use dbs_assignment.Server.Locks.{watdfs_lock, watdfs_unlock}
use dbs_assignment.Client.{World, get_full_path}
use dbs_assignment.Client.Monad.{next}
use dbs_assignment.Client.Stubs.{
  copy_getattr, copy_open, watdfs_cli_lock, watdfs_cli_unlock, copy_release,
}
use dbs_assignment.Client.Transfer.ReadLoop.{ServesReads}
use dbs_assignment.Client.Opens.{watdfs_cli_open}
use dbs_assignment.Client.Downloads.{TakesBack}
use dbs_assignment.Client.Fetches.{open-fetches}
use dbs_assignment.Delivery.{delivered-ServesReads}
use dbs_assignment.Tests.Link.{
  Remote, env, server, fresh_client, short, link, length-replicate, at_second,
}
use dbs_assignment.Tests.Regular.{
  fd, bytes_of, content, OpenAt, regular_at, regular, stamps, mtim_of,
}

-- What the server answers to the open, and then to the three calls at the start of the download.
abbrev open_call : ℤ × FileInfo × Remote
open_call = copy_open env "/a" zero_file_info server

abbrev stat_call : ℤ × Stat × Remote
stat_call = copy_getattr env "/a" zero_stat open_call.2

abbrev reopen_call : ℤ × FileInfo × Remote
reopen_call = copy_open env "/a" zero_file_info stat_call.2

abbrev lock_call : ℤ × Remote
lock_call = watdfs_cli_lock env "/a" rw_read_lock reopen_call.2

-- The server's descriptor of the download, and its map at that time: one opener and the download.
abbrev copy_fd : ℤ
copy_fd = pos 4

abbrev cpyfi : FileInfo
cpyfi = record { flags = 0; fh = 4 }

abbrev entry : ℤ → RwLock → Dict FileStatus
entry openers lock = ("/a", record { server_mode = 0; open_num = openers; lock = some lock }) ∷ []

abbrev held : RwLock
held = record { num_readers = 1; num_writers = 0; num_waiting_writers = 0 }

abbrev free : RwLock
free = record { num_readers = 0; num_writers = 0; num_waiting_writers = 0 }

abbrev OpenCopy : Machine → Type 0
OpenCopy d = OpenAt 4 "/srv/a" d

abbrev Ready : Remote → Type 0
Ready s = OpenCopy s.disk × (s.open_files_status ≡ entry (pos 2) held)

served : ServesReads env "/a" cpyfi (λ s. content "/srv/a" s.disk) (λ s. OpenCopy s.disk)
served =
    delivered-ServesReads env machine_os "/a" short cpyfi link (content "/srv/a") OpenCopy
      (regular_at 4 "/srv/a")

served_kept : ServesReads env "/a" cpyfi (λ s. content "/srv/a" s.disk) Ready
unfolding watdfs_read
served_kept = record {
  serves = λ buf n offset code s room some_bytes fits there up.
      let (s', buf', got, same, bytes, kept, up') =
        served.serves buf n offset code s room some_bytes fits there (up.0) in
      (s', buf', got, same, bytes, kept, (up', sym (ap (λ r. r.3.open_files_status) got) ∙ up.1));
}

close_copy :
    (d : Machine)
    → OpenCopy d
    → (d' : Machine) × (machine_os.close copy_fd d ≡ (pos 0, d')) × (d'.files ≡ d.files)
unfolding machine_close path_of
close_copy d up =
    (record d { descriptors = clear d.descriptors 4 }, rw (machine_close, up.0) refl, refl)

abbrev with_map : Dict FileStatus → Machine → Remote → Remote
with_map files d s = record s { open_files_status = files; disk = d }

unlock_call :
    (s : Remote)
    → watdfs_cli_unlock env "/a" rw_read_lock (with_map (entry (pos 2) held) s.disk s)
      ≡ (pos 0, with_map (entry (pos 2) free) s.disk s)
unfolding watdfs_cli_unlock watdfs_unlock rw_lock_unlock lookup insert
unlock_call s = refl

release_call :
    (s : Remote) (d : Machine)
    → machine_os.close copy_fd s.disk ≡ (pos 0, d)
    → copy_release env "/a" cpyfi (with_map (entry (pos 2) free) s.disk s)
      ≡ (pos 0, with_map (entry (pos 1) free) d s)
unfolding copy_release watdfs_release lookup insert
release_call s d e = rw e refl

back : TakesBack env "/a" cpyfi (λ s. content "/srv/a" s.disk) Ready
back = record {
  takes_back = λ s up.
      let (d, closed, kept) = close_copy s.disk (up.0) in
      (
        with_map (entry (pos 2) free) s.disk s,
        with_map (entry (pos 1) free) d s,
        ap (λ m. watdfs_cli_unlock env "/a" rw_read_lock (with_map m s.disk s)) (up.1)
            ∙ unlock_call s,
        release_call s d closed,
        ap (λ files. bytes_of (lookup "/srv/a" files)) kept,
      );
}

-- The client's machine: the file is not there, is created, and is emptied.
abbrev missing : ℤ × Stat × Machine
missing = machine_os.stat "/tmp/a" zero_stat fresh_client.disk

abbrev created : ℤ × Machine
created = machine_create "/tmp/a" missing.2

abbrev emptied : ℤ × Machine
emptied = machine_os.truncate "/tmp/a" 0 created.1

open-fetches_example :
    (w' : World Machine Remote) × (now : ℕ) × (watdfs_cli_open env true "/a" zero_file_info
        fresh_client
      ≡ next (pos 0, open_call.1) w')
    × (content "/tmp/a" w'.disk ≡ take 3 (content "/srv/a" lock_call.1.disk))
    × (mtim_of (lookup "/tmp/a" w'.disk.files) ≡ at_second 7)
    × (lookup "/a" w'.status.open_files_status
        ≡ some (record { client_desc = to_u64 fd; client_mode = 0; tc = now; server_desc = 0 }))
unfolding copy_getattr watdfs_getattr machine_stat stat_of lookup get_full_path copy_open
    watdfs_open admit open_admitted machine_open watdfs_cli_lock watdfs_lock rw_lock_lock insert
    machine_create on_file path_of
open-fetches_example =
    open-fetches served_kept back (regular "/tmp/a") fresh_client (stamps "/tmp/a") true
      zero_file_info open_call.1 missing.0 missing.1 stat_call.1 0 missing.2 created.1 emptied.1
      open_call.2 stat_call.2 reopen_call.2 lock_call.1 refl refl refl refl refl (omega arith)
      length-replicate (omega arith) (omega arith) (inl (omega arith)) refl refl refl (omega arith)
      ((refl, _, refl), refl) refl refl refl (refl, _, refl)
