-- ===== src/Tests/Clients.antt =====
-- Examples of the theorems on watdfs_client.cpp.
use dbs_assignment.Prelude.{◌+◌, ◌<◌, ◌≡◌, ◌⊎◌, ◌↔◌, refl, true, none, [], ◌∷◌, arith}
use dbs_assignment.Prelude.Int.{ℤ, pos, neg}
use dbs_assignment.Prelude.Dict.{lookup, erase}
use dbs_assignment.Errno.{eperm, emfile}
use dbs_assignment.System.{Stat, FileInfo, st_mtime, zero_file_info}
use dbs_assignment.System.Content.{splice}
use dbs_assignment.System.Memory.{
  Machine, path_of, on_descriptor, machine_pread, machine_stat, stat_of, machine_close,
}
use dbs_assignment.Server.Files.{watdfs_getattr}
use dbs_assignment.Server.Opens.{watdfs_open, admit, open_admitted}
use dbs_assignment.Client.{FileMeta, World, zero_meta, get_full_path}
use dbs_assignment.Client.Monad.{returned, next}
use dbs_assignment.Client.Stubs.{copy_getattr, copy_open, copy_release}
use dbs_assignment.Client.Cache.{cli_freshness_check, cli_file_is_open}
use dbs_assignment.Client.Opens.{watdfs_cli_open, watdfs_cli_release}
use dbs_assignment.Client.Access.{
  watdfs_cli_read, watdfs_cli_write, watdfs_cli_fsync, watdfs_cli_utimensat,
}
use dbs_assignment.Client.Runs.{with_meta}
use dbs_assignment.Client.Guards.{unopened-refused}
use dbs_assignment.Client.Freshness.{fresh_iff}
use dbs_assignment.Client.Local.{write-local, read-local, open-opened, release-readonly}
use dbs_assignment.Tests.Link.{Remote, env, server, client_with, fresh_client, at_second}

abbrev reading : FileMeta
reading = record { client_desc = 3; client_mode = 0; tc = 18; server_desc = 3 }

abbrev writing : FileMeta
writing = record { client_desc = 3; client_mode = 2; tc = 18; server_desc = 3 }

abbrev stat_a : Stat
stat_a = record { st_size = 3; st_atim = at_second 7; st_mtim = at_second 7 }

-- Second 20 is within the interval of 5 seconds, second 40 is not.
abbrev late_client : World Machine Remote
late_client = client_with reading 40

fresh_iff_example :
    (c : ℤ) × (w' : World Machine Remote) × (cli_freshness_check env "/a" late_client ≡ next c w')
    × ((c ≡ pos 0) ↔ ((40 < 18 + 5) ⊎ (st_mtime stat_a ≡ st_mtime stat_a)))
unfolding lookup machine_stat stat_of get_full_path copy_getattr watdfs_getattr
    dbs_assignment.Server.get_full_path
fresh_iff_example =
    fresh_iff env "/a" late_client reading 40 40 late_client.disk late_client.disk late_client.disk
      stat_a stat_a server refl refl refl refl refl

unopened-refused_example :
    (watdfs_cli_write env "/a" (1 ∷ []) 1 0 fresh_client
      ≡ returned (neg emfile) (with_meta "/a" zero_meta fresh_client))
    × (watdfs_cli_utimensat env "/a" (at_second 1) (at_second 2) fresh_client
        ≡ returned (neg emfile) (with_meta "/a" zero_meta fresh_client))
    × (watdfs_cli_fsync env "/a" zero_file_info fresh_client
        ≡ returned (neg eperm) (with_meta "/a" zero_meta fresh_client))
    × (cli_file_is_open "/a" (with_meta "/a" zero_meta fresh_client).status ≡ pos 0)
unfolding lookup
unopened-refused_example =
    unopened-refused env "/a" fresh_client refl (1 ∷ []) 1 0 (at_second 1) (at_second 2)
      zero_file_info

abbrev write_client : World Machine Remote
write_client = client_with writing 40

-- The cache after two bytes have been written at offset 1.
abbrev written : Machine
written = record write_client.disk {
  files =
      ("/tmp/a", record { bytes = 1 ∷ 8 ∷ 9 ∷ []; atim = at_second 7; mtim = at_second 40 }) ∷ [];
}

write-local_example :
    watdfs_cli_write env "/a" (8 ∷ 9 ∷ []) 2 1 write_client
    ≡ next
        (pos 2)
        (with_meta "/a" (record writing { tc = 40 }) (record write_client { disk = written }))
unfolding lookup on_descriptor splice
write-local_example =
    write-local env "/a" write_client writing (8 ∷ 9 ∷ []) 2 1 2 40 40 written written written refl
      (λ e. ground arith) refl refl refl (omega arith)

abbrev read_client : World Machine Remote
read_client = client_with reading 20

read-local_example :
    watdfs_cli_read env "/a" (0 ∷ 0 ∷ []) 2 1 read_client ≡ next (pos 2, 2 ∷ 3 ∷ []) read_client
unfolding lookup machine_pread
read-local_example =
    read-local env "/a" read_client reading (0 ∷ 0 ∷ []) (2 ∷ 3 ∷ []) 2 1 (pos 2) 20
      read_client.disk read_client.disk refl refl refl (omega arith) refl

-- O_RDONLY
abbrev request : FileInfo
request = record { flags = 0; fh = 0 }

-- The server opens descriptor 3 for the second open.
abbrev granted : ℤ × FileInfo × Remote
granted = copy_open env "/a" request server

open-opened_example :
    watdfs_cli_open env true "/a" request read_client
    ≡ next (neg emfile, zero_file_info) (record read_client { remote = granted.2 })
unfolding lookup copy_open watdfs_open admit open_admitted
open-opened_example =
    open-opened env "/a" read_client true reading request granted.1 granted.0 granted.2 refl refl

abbrev closed : Machine
closed = record read_client.disk { descriptors = none ∷ none ∷ none ∷ none ∷ [] }

release-readonly_example :
    watdfs_cli_release env "/a" request read_client
    ≡ next (pos 0) (record read_client {
      disk = closed;
      remote = (copy_release env "/a" request server).1;
      status = record read_client.status { open_files_status = erase "/a" (("/a", reading) ∷ []) };
    })
unfolding lookup machine_close path_of
release-readonly_example =
    release-readonly env "/a" read_client reading request (copy_release env "/a" request server).0
      (copy_release env "/a" request server).1 0 closed refl refl refl refl
