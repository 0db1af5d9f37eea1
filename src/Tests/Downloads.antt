-- ===== src/Tests/Downloads.antt =====
-- Examples of the theorems on the copies between the cache and the server.
use dbs_assignment.Prelude.{refl, ap, ◌∙◌, sym, take, [], ◌∷◌, some, ℕ, arith, inl, ◌≡◌}
use dbs_assignment.Prelude.Int.{pos, ℤ, negsuc, to_u64}
use dbs_assignment.Prelude.Dict.{Dict, lookup, insert, erase}
use dbs_assignment.Lock.{rw_read_lock, rw_lock_lock, rw_lock_unlock}
use dbs_assignment.System.{Os, FileInfo, Stat, zero_stat}
use dbs_assignment.System.Memory.{
  Machine, machine_os, machine_stat, machine_open, machine_create, machine_close, clear, on_file,
  path_of, stat_of,
}
use dbs_assignment.Server.{FileStatus}
use dbs_assignment.Server.Files.{watdfs_getattr, watdfs_read}
use dbs_assignment.Server.Opens.{watdfs_open, watdfs_release, admit, open_admitted}
use dbs_assignment.Server.Locks.{watdfs_lock, watdfs_unlock}
use dbs_assignment.Client.{World, get_full_path}
use dbs_assignment.Client.Monad.{next, returned}
use dbs_assignment.Client.Stubs.{
  copy_getattr, copy_open, watdfs_cli_lock, watdfs_cli_unlock, copy_release,
}
use dbs_assignment.Client.Transfer.ReadLoop.{ServesReads}
use dbs_assignment.Client.Copies.{cli_download_file}
use dbs_assignment.Client.Downloads.{TakesBack, download-copies}
use dbs_assignment.Client.KeptLocks.{download-keeps_lock}
use dbs_assignment.Delivery.{delivered-ServesReads}
use dbs_assignment.Tests.Link.{
  Remote, env, server, fresh_client, short, link, length-replicate, at_second,
}
use dbs_assignment.Tests.Regular.{fd, bytes_of, content, Open, regular, stamps, mtim_of}

-- What the server answers to the three calls at the start of a download.
abbrev stat_call : ℤ × Stat × Remote
stat_call = copy_getattr env "/a" zero_stat server

abbrev open_call : ℤ × FileInfo × Remote
open_call = copy_open env "/a" (record { flags = 0; fh = 0 }) stat_call.2

abbrev lock_call : ℤ × Remote
lock_call = watdfs_cli_lock env "/a" rw_read_lock open_call.2

-- The descriptor that the server has opened, and its map at that time.
abbrev fi : FileInfo
fi = record { flags = 0; fh = 3 }

abbrev locked : Dict FileStatus
locked =
    (
      "/a",
      record {
        server_mode = 0;
        open_num = pos 1;
        lock = some (record { num_readers = 1; num_writers = 0; num_waiting_writers = 0 });
      },
    )
    ∷ []

abbrev Ready : Remote → Type 0
Ready s = Open "/srv/a" s.disk × (s.open_files_status ≡ locked)

served : ServesReads env "/a" fi (λ s. content "/srv/a" s.disk) (λ s. Open "/srv/a" s.disk)
served =
    delivered-ServesReads env machine_os "/a" short fi link (content "/srv/a") (Open "/srv/a")
      (regular "/srv/a")

-- A read leaves the map alone.
served_kept : ServesReads env "/a" fi (λ s. content "/srv/a" s.disk) Ready
unfolding watdfs_read
served_kept = record {
  serves = λ buf n offset code s room some_bytes fits there up.
      let (s', buf', got, same, bytes, kept, up') =
        served.serves buf n offset code s room some_bytes fits there (up.0) in
      (s', buf', got, same, bytes, kept, (up', sym (ap (λ r. r.3.open_files_status) got) ∙ up.1));
}

-- The descriptor is closed, and the files stay.
close_open :
    (d : Machine)
    → Open "/srv/a" d
    → (d' : Machine) × (machine_os.close fd d ≡ (pos 0, d')) × (d'.files ≡ d.files)
unfolding machine_close path_of
close_open d up =
    (record d { descriptors = clear d.descriptors 3 }, rw (machine_close, up.0) refl, refl)

-- The server after the read lock has been given back, and after the last client has closed the file.
abbrev with_map : Dict FileStatus → Machine → Remote → Remote
with_map files d s = record s { open_files_status = files; disk = d }

abbrev unlocked : Dict FileStatus
unlocked =
    (
      "/a",
      record {
        server_mode = 0;
        open_num = pos 1;
        lock = some (record { num_readers = 0; num_writers = 0; num_waiting_writers = 0 });
      },
    )
    ∷ []

unlock_call :
    (s : Remote)
    → watdfs_cli_unlock env "/a" rw_read_lock (with_map locked s.disk s)
      ≡ (pos 0, with_map unlocked s.disk s)
unfolding watdfs_cli_unlock watdfs_unlock rw_lock_unlock lookup insert
unlock_call s = refl

release_call :
    (s : Remote) (d : Machine)
    → machine_os.close fd s.disk ≡ (pos 0, d)
    → copy_release env "/a" fi (with_map unlocked s.disk s) ≡ (pos 0, with_map [] d s)
unfolding copy_release watdfs_release lookup insert erase
release_call s d e = rw e refl

back : TakesBack env "/a" fi (λ s. content "/srv/a" s.disk) Ready
back = record {
  takes_back = λ s up.
      let (d, closed, kept) = close_open s.disk (up.0) in
      (
        with_map unlocked s.disk s,
        with_map [] d s,
        ap (λ m. watdfs_cli_unlock env "/a" rw_read_lock (with_map m s.disk s)) (up.1)
            ∙ unlock_call s,
        release_call s d closed,
        ap (λ files. bytes_of (lookup "/srv/a" files)) kept,
      );
}

-- The local file, as `open` with O_CREAT and then `truncate` leave it.
abbrev created : ℤ × Machine
created = machine_create "/tmp/a" fresh_client.disk

abbrev emptied : ℤ × Machine
emptied = machine_os.truncate "/tmp/a" 0 created.1

download-copies_example :
    (w' : World Machine Remote) × (now : ℕ) × (cli_download_file env "/a" 0 fresh_client
      ≡ next (pos 0) w')
    × (content "/tmp/a" w'.disk ≡ take 3 (content "/srv/a" lock_call.1.disk))
    × (content "/srv/a" w'.remote.disk ≡ content "/srv/a" lock_call.1.disk)
    × (mtim_of (lookup "/tmp/a" w'.disk.files) ≡ at_second 7)
    × (lookup "/a" w'.status.open_files_status
        ≡ some (record { client_desc = to_u64 fd; client_mode = 0; tc = now; server_desc = 0 }))
unfolding copy_getattr watdfs_getattr machine_stat stat_of lookup get_full_path copy_open
    watdfs_open admit open_admitted machine_open watdfs_cli_lock watdfs_lock rw_lock_lock insert
    machine_create on_file path_of
download-copies_example =
    download-copies served_kept back (regular "/tmp/a") fresh_client (stamps "/tmp/a") 0 stat_call.1
      stat_call.2 open_call.2 lock_call.1 created.1 emptied.1 (omega arith) length-replicate
      (omega arith) (omega arith) (inl (omega arith)) refl refl refl (omega arith)
      ((refl, _, refl), refl) refl refl refl (refl, _, refl)

-- A disk on which `truncate` fails.
abbrev stuck_os : Os Machine
stuck_os = record machine_os { truncate = λ path size d. (negsuc 0, record d { last_errno = 5 }) }

download-keeps_lock_example :
    cli_download_file (record env { os = stuck_os }) "/a" 0 fresh_client
    ≡ returned
        (negsuc 4)
        (record fresh_client { disk = record created.1 { last_errno = 5 }; remote = lock_call.1 })
unfolding copy_getattr watdfs_getattr machine_stat stat_of lookup get_full_path copy_open
    watdfs_open admit open_admitted machine_open watdfs_cli_lock watdfs_lock rw_lock_lock insert
    machine_create
download-keeps_lock_example =
    download-keeps_lock (record env { os = stuck_os }) "/a" fresh_client 0 0 0 0 stat_call.1 fi
      created.0 (negsuc 0) created.1 (record created.1 { last_errno = 5 }) stat_call.2 open_call.2
      lock_call.1 refl refl refl refl refl refl
