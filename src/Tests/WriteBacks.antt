-- ===== src/Tests/WriteBacks.antt =====
-- An example of the theorem on `cli_write_back`.
use dbs_assignment.Prelude.{refl, ap, ◌∙◌, sym, [], ◌∷◌, none, some, ℕ, arith, inl, ◌≡◌}
use dbs_assignment.Prelude.Int.{pos}
use dbs_assignment.Prelude.Dict.{Dict, lookup, insert, lookup-insert_same}
use dbs_assignment.Lock.{rw_write_lock, rw_lock_lock, rw_lock_unlock}
use dbs_assignment.System.{Timespec}
use dbs_assignment.System.Memory.{
  File, Machine, machine_os, machine_with, machine_stat, machine_open, on_file, path_of, stat_of,
  opened,
}
use dbs_assignment.Server.{FileStatus}
use dbs_assignment.Server.Files.{watdfs_truncate, watdfs_write, watdfs_utimensat}
use dbs_assignment.Server.Locks.{watdfs_lock, watdfs_unlock}
use dbs_assignment.Client.{FileMeta, World, get_full_path}
use dbs_assignment.Client.Monad.{next}
use dbs_assignment.Client.Stubs.{copy_truncate, copy_utimensat, watdfs_cli_lock, watdfs_cli_unlock}
use dbs_assignment.Client.Transfer.Writes.{StoresWrites}
use dbs_assignment.Client.Copies.{cli_write_back}
use dbs_assignment.Client.WriteBacks.{Finishes, written_to, write_back-stores}
use dbs_assignment.Delivery.{delivered-StoresWrites}
use dbs_assignment.Tests.Link.{
  Remote, env, client_with, short, link, length-replicate, at_second, file_of,
}
use dbs_assignment.Tests.Regular.{bytes_of, content, Open, regular, mtim_of, on_file_present}

abbrev status : ℕ → Dict FileStatus
status writers =
    (
      "/a",
      record {
        server_mode = 1;
        open_num = pos 1;
        lock = some (record { num_readers = 0; num_writers = writers; num_waiting_writers = 0 });
      },
    )
    ∷ []

-- A server that has the file open as descriptor 3 for this client, with two bytes of its own.
abbrev remote : Remote
remote = record {
  open_files_status = status 0;
  server_persist_dir = "/srv";
  disk = record {
    files = ("/srv/a", file_of (4 ∷ 5 ∷ []) 6) ∷ [];
    descriptors = none ∷ none ∷ none ∷ some "/srv/a" ∷ [];
    clock = 20;
    last_errno = 0;
  };
}

abbrev meta : FileMeta
meta = record { client_desc = 3; client_mode = 2; tc = 18; server_desc = 3 }

abbrev client : World Machine Remote
client = record (client_with meta 20) {
  disk = machine_with (("/tmp/a", file_of (1 ∷ 2 ∷ 3 ∷ []) 7) ∷ []) 20;
  remote = remote;
}

abbrev locked : Remote
locked = (watdfs_cli_lock env "/a" rw_write_lock remote).1

abbrev emptied : Remote
emptied = (copy_truncate env "/a" 0 locked).1

-- The client opens descriptor 3 on its copy.
abbrev opened_copy : Machine
opened_copy = (machine_os.open_file "/tmp/a" 0 client.disk).1

abbrev Ready : Remote → Type 0
Ready s = Open "/srv/a" s.disk × (s.open_files_status ≡ status 1) × (s.server_persist_dir ≡ "/srv")

stored :
    StoresWrites env "/a"
      (written_to env meta)
      (λ s. content "/srv/a" s.disk)
      (λ s. Open "/srv/a" s.disk)
stored =
    delivered-StoresWrites env machine_os "/a" short (written_to env meta) link (content "/srv/a")
      (Open "/srv/a") (regular "/srv/a")

stored_kept : StoresWrites env "/a" (written_to env meta) (λ s. content "/srv/a" s.disk) Ready
unfolding watdfs_write
stored_kept = record {
  stores = λ chunk n offset code s e some_bytes fits up.
      let (s', sent, bytes, up') = stored.stores chunk n offset code s e some_bytes fits (up.0) in
      (
        s',
        sent,
        bytes,
        (
          up',
          sym (ap (λ r. r.2.open_files_status) sent) ∙ up.1,
          sym (ap (λ r. r.2.server_persist_dir) sent) ∙ up.2,
        ),
      );
}

-- The server while the client writes, with any disk.
abbrev held : Dict FileStatus → Machine → Remote
held files d = record { open_files_status = files; server_persist_dir = "/srv"; disk = d }

machine_open_present :
    (d : Machine) (file : File)
    → lookup "/srv/a" d.files ≡ some file
    → machine_open "/srv/a" d ≡ opened "/srv/a" d
unfolding machine_open
machine_open_present d file found = rw (machine_open, found) refl

abbrev stamped : Timespec → Timespec → File → Machine → Machine
stamped atim time file d =
    let opened_disk = (opened "/srv/a" d).1 in
    record opened_disk {
      files = insert "/srv/a" (record file { atim = atim; mtim = time }) opened_disk.files;
    }

stamp_call :
    (atim time : Timespec) (d : Machine) (file : File)
    → lookup "/srv/a" d.files ≡ some file
    → copy_utimensat env "/a" atim time (held (status 1) d)
      ≡ (pos 0, held (status 1) (stamped atim time file d))
unfolding copy_utimensat watdfs_utimensat get_full_path opened
stamp_call atim time d file found =
    rw
      (
        machine_open_present d file found,
        on_file_present "/srv/a" (opened "/srv/a" d).1 file
            (λ f. record f { atim = atim; mtim = time }) (pos 0) found,
      )
      refl

unlock_call :
    (d : Machine)
    → watdfs_cli_unlock env "/a" rw_write_lock (held (status 1) d) ≡ (pos 0, held (status 0) d)
unfolding watdfs_cli_unlock watdfs_unlock rw_lock_unlock lookup insert
unlock_call d = refl

finish :
    Finishes env "/a"
      (λ s. content "/srv/a" s.disk)
      (λ s. mtim_of (lookup "/srv/a" s.disk.files))
      Ready
unfolding opened
finish = record {
  finishes = λ atim time s up.
      let (_, file, found) = up.0 in
      let file' : File = record file { atim = atim; mtim = time } in
      (
        held (status 1) (stamped atim time file s.disk),
        held (status 0) (stamped atim time file s.disk),
        ap (λ files. copy_utimensat env "/a" atim time (record s { open_files_status = files }))
              (up.1)
            ∙ ap
                (λ dir. copy_utimensat env "/a" atim time (record {
                  open_files_status = status 1;
                  server_persist_dir = dir;
                  disk = s.disk;
                }))
                (up.2)
            ∙ stamp_call atim time s.disk file found,
        unlock_call (stamped atim time file s.disk),
        ap bytes_of (lookup-insert_same "/srv/a" file' s.disk.files) ∙ ap bytes_of (sym found),
        ap mtim_of (lookup-insert_same "/srv/a" file' s.disk.files),
      );
}

write_back-stores_example :
    (w' : World Machine Remote) × (cli_write_back env "/a" client ≡ next (pos 0) w')
    × (content "/srv/a" w'.remote.disk ≡ content "/tmp/a" opened_copy)
    × (mtim_of (lookup "/srv/a" w'.remote.disk.files) ≡ at_second 7)
    × (w'.status ≡ client.status)
unfolding lookup watdfs_cli_lock watdfs_lock rw_lock_lock machine_stat stat_of get_full_path
    machine_open copy_truncate watdfs_truncate on_file insert path_of
write_back-stores_example =
    write_back-stores meta stored_kept finish (regular "/tmp/a") client
      (record { st_size = 3; st_atim = at_second 7; st_mtim = at_second 7 }) client.disk opened_copy
      locked emptied length-replicate refl refl refl refl (refl, _, refl) refl (omega arith)
      (omega arith) (inl (omega arith)) refl refl ((refl, _, refl), refl, refl)
