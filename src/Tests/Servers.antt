-- ===== src/Tests/Servers.antt =====
-- Examples of the theorems on watdfs_server.cpp and rpc.h.
use dbs_assignment.Prelude.{
  inl, ◌+◌, ◌<◌, ◌≤◌, ◌≡◌, ◌↔◌, refl, true, none, List, [], ◌∷◌, arith, if◌then◌else◌, String,
}
use dbs_assignment.Prelude.Int.{ℤ, pos, negsuc, neg, is_neg, to_u64}
use dbs_assignment.Prelude.Dict.{lookup}
use dbs_assignment.Errno.{eacces}
use dbs_assignment.Lock.{pthread_ok, rw_lock_initializer, rw_lock_init}
use dbs_assignment.System.{FileInfo}
use dbs_assignment.System.Memory.{Machine, machine_os, machine_close, machine_open}
use dbs_assignment.Rpc.ArgTypes.{signature, array_lens}
use dbs_assignment.Rpc.Procedures.{read, write, registered_types, client_types}
use dbs_assignment.Rpc.Agreement.{client_types-agree, client_types-lens, passed_lens}
use dbs_assignment.Server.Opens.{wants_write, watdfs_open, admit, first_opener, open_admitted}
use dbs_assignment.Server.Locks.{status_of}
use dbs_assignment.Server.Openers.{openers_of, writers_of}
use dbs_assignment.Server.Steps.{grant}
use dbs_assignment.Server.Reachable.{Reach, begin, step, one_writer, open-eacces_iff}
use dbs_assignment.Server.{get_full_path}
use dbs_assignment.Server.Races.{first_reply, second_reply, two_writers}
use dbs_assignment.Server.Replies.{open-failed_counted}
use dbs_assignment.Server.Startup.{ServerLibrary, main}
use dbs_assignment.Server.Startup.Registers.{Outcome, main-Outcome}
use text.Mathlib.Text.{◌==◌ as str_eq}
use dbs_assignment.Tests.Link.{Remote, server, sizes_64}

-- O_WRONLY
abbrev for_writing : FileInfo
for_writing = record { flags = 1; fh = 0 }

abbrev with_writer : Remote
with_writer = (watdfs_open machine_os pthread_ok rw_lock_initializer "/a" for_writing server).3

to_writer : Reach machine_os true rw_lock_initializer with_writer (("/a", true) ∷ [])
unfolding watdfs_open admit first_opener rw_lock_init open_admitted lookup
to_writer = step server with_writer [] _ (begin server refl) (grant "/a" for_writing refl refl refl)

close_errno :
    (fd : ℤ) (d : Machine)
    → is_neg (machine_os.close fd d).0 ≡ true
    → 0 < machine_os.errno (machine_os.close fd d).1
unfolding machine_close
close_errno (pos fd) d h = ground arith
close_errno (negsuc n) d h = ground arith

one_writer_example :
    (writers_of "/a" (("/a", true) ∷ []) ≤ 1)
    × ((lookup "/a" with_writer.open_files_status ≡ none)
        ↔ (openers_of "/a" (("/a", true) ∷ []) ≡ 0))
    × ((status_of "/a" with_writer).open_num ≡ pos (openers_of "/a" (("/a", true) ∷ [])))
    × ((status_of "/a" with_writer).server_mode ≡ writers_of "/a" (("/a", true) ∷ []))
one_writer_example =
    one_writer machine_os true rw_lock_initializer close_errno with_writer (("/a", true) ∷ [])
      to_writer "/a"

open-eacces_iff_example :
    ((watdfs_open machine_os pthread_ok rw_lock_initializer "/a" for_writing with_writer).2
      ≡ neg eacces)
    ↔ ((wants_write 1 ≡ true) × (writers_of "/a" (("/a", true) ∷ []) ≡ 1))
open-eacces_iff_example =
    open-eacces_iff machine_os true rw_lock_initializer close_errno with_writer (("/a", true) ∷ [])
      to_writer "/a" for_writing

client_types-agree_example :
    signature (client_types sizes_64 "/a" 4096 read) ≡ signature (registered_types read)
client_types-agree_example =
    client_types-agree sizes_64 "/a" 4096
      (record {
        path_fits = omega arith;
        stat_fits = omega arith;
        fuse_file_info_fits = omega arith;
        timespec_fits = omega arith;
        buffer_fits = omega arith;
      })
      read

client_types-lens_example :
    array_lens (client_types sizes_64 "/a" 4096 write) ≡ passed_lens sizes_64 "/a" 4096 write
client_types-lens_example =
    client_types-lens sizes_64 "/a" 4096
      (record {
        path_fits = omega arith;
        stat_fits = omega arith;
        fuse_file_info_fits = omega arith;
        timespec_fits = omega arith;
        buffer_fits = omega arith;
      })
      write

-- A reader of a file that is not on the disk of the server, which has a writer of "/a".
abbrev for_reading : FileInfo
for_reading = record { flags = 0; fh = 0 }

open-failed_counted_example :
    ((watdfs_open machine_os pthread_ok rw_lock_initializer "/b" for_reading with_writer).2 ≡ pos 0)
    × ((watdfs_open machine_os pthread_ok rw_lock_initializer "/b" for_reading with_writer).1.fh
        ≡ to_u64 (negsuc 0))
    × ((status_of "/b"
          (watdfs_open machine_os pthread_ok rw_lock_initializer "/b" for_reading
            with_writer).3).open_num
        ≡ pos (openers_of "/b" (("/a", true) ∷ []) + 1))
unfolding watdfs_open admit first_opener rw_lock_init open_admitted lookup machine_open
    get_full_path
open-failed_counted_example =
    open-failed_counted machine_os true rw_lock_initializer close_errno with_writer
      (("/a", true) ∷ []) to_writer "/b" for_reading 0 _ (inl refl) refl

two_writers_example :
    ((first_reply machine_os rw_lock_initializer "/a" for_writing server).2 ≡ pos 0)
    × ((second_reply machine_os rw_lock_initializer "/a" for_writing for_writing server).2 ≡ pos 0)
    × ((status_of "/a"
          (second_reply machine_os rw_lock_initializer "/a" for_writing for_writing
            server).3).open_num
        ≡ pos 1)
    × ((status_of "/a"
          (second_reply machine_os rw_lock_initializer "/a" for_writing for_writing
            server).3).server_mode
        ≡ 1)
unfolding lookup
two_writers_example =
    two_writers machine_os rw_lock_initializer "/a" for_writing for_writing server refl refl refl

-- A library that writes down the names that are registered, and refuses `open`.
abbrev refusing : ServerLibrary (List String)
refusing = record {
  server_init = λ r. (pos 0, r);
  register = λ name types p r. if str_eq name "open" then (negsuc 4, r) else (pos 0, name ∷ r);
  execute = λ r. (pos 0, "executed" ∷ r);
}

main-Outcome_example : Outcome refusing "/srv" [] (main refusing ("watdfs_server" ∷ "/srv" ∷ []) [])
main-Outcome_example = main-Outcome refusing "watdfs_server" "/srv" []
