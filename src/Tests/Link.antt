-- ===== src/Tests/Link.antt =====
-- A library that runs the handlers of watdfs_server.cpp at once, for one client, and a client and a
-- server of WatDFS that it connects.
use dbs_assignment.Prelude.{
  refl, arith, ◌≡◌, length, ℕ, [], ◌∷◌, List, none, some, replicate, overwrite, take, true,
}
use dbs_assignment.Prelude.Int.{ℤ, pos, negsuc}
use dbs_assignment.Lock.{pthread_ok, rw_lock_initializer}
use dbs_assignment.System.{Timespec, zero_stat, zero_file_info}
use dbs_assignment.System.Memory.{File, Machine, machine_os, machine_with}
use dbs_assignment.Rpc.Procedures.{Sizes}
use dbs_assignment.Rpc.ArgTypes.{buffer_len, max_array_len}
use dbs_assignment.Rpc.Agreement.{IsShort}
use dbs_assignment.Rpc.Library.{Library}
use dbs_assignment.Server.{Server}
use dbs_assignment.Server.Files.{
  watdfs_getattr, watdfs_mknod, watdfs_read, watdfs_write, watdfs_truncate, watdfs_fsync,
  watdfs_utimensat,
}
use dbs_assignment.Server.Opens.{watdfs_open, watdfs_release}
use dbs_assignment.Server.Locks.{LockReply, answered, blocked, watdfs_lock, watdfs_unlock}
use dbs_assignment.Delivery.{Delivers}
use dbs_assignment.Client.{Env, FileMeta, World}

abbrev pub Remote : Type 0
Remote = Server Machine

-- A call that would sleep for ever has no answer; here it fails.
abbrev pub lock_answer : LockReply Machine → Remote → ℤ × ℤ × Remote
lock_answer (answered r code s') s = (r, code, s')
lock_answer (blocked s') s = (negsuc 0, negsuc 0, s)

abbrev pub loopback : Library Remote
loopback = record {
  client_init = λ s. (pos 0, s);
  client_destroy = λ s. (pos 0, s);
  getattr = λ types path statbuf code. watdfs_getattr machine_os path statbuf;
  mknod = λ types path mode dev code. watdfs_mknod machine_os path mode dev;
  open_file = λ types path fi code. watdfs_open machine_os pthread_ok rw_lock_initializer path fi;
  release = λ types path fi code. watdfs_release machine_os true path fi;
  read = λ types path buf size offset fi code s.
      let (r, got, ret, s') =
        watdfs_read machine_os path (replicate (buffer_len types) 0) size offset fi s in
      (r, overwrite got buf, ret, s');
  write = λ types path buf size offset fi code.
      watdfs_write machine_os path (take (buffer_len types) buf) size offset fi;
  truncate = λ types path newsize code. watdfs_truncate machine_os path newsize;
  fsync = λ types path fi code. watdfs_fsync machine_os path fi;
  utimensat = λ types path atim mtim code. watdfs_utimensat machine_os path atim mtim;
  lock = λ types path mode code s. lock_answer (watdfs_lock machine_os pthread_ok path mode s) s;
  unlock = λ types path mode code. watdfs_unlock machine_os pthread_ok path mode;
}

abbrev pub sizes_64 : Sizes
sizes_64 = record { stat = 144; fuse_file_info = 40; timespec = 16 }

-- Its arrays fit, with a path of two characters.
pub short : IsShort sizes_64 "/a" max_array_len
short = record {
  path_fits = omega arith;
  stat_fits = omega arith;
  fuse_file_info_fits = omega arith;
  timespec_fits = omega arith;
  buffer_fits = omega arith;
}

abbrev pub env : Env Machine Remote
env = record {
  os = machine_os;
  rpc = loopback;
  sizes = sizes_64;
  uninit = record {
    int_value = pos 0;
    stat_value = zero_stat;
    file_info_value = zero_file_info;
    bytes = λ n. replicate n 0;
  };
}

abbrev pub at_second : ℕ → Timespec
at_second sec = record { tv_sec = sec; tv_nsec = 0 }

abbrev pub file_of : List ℕ → ℕ → File
file_of bytes sec = record { bytes = bytes; atim = at_second sec; mtim = at_second sec }

-- A server with the file "/a" under its directory "/srv".
abbrev pub server : Remote
server = record {
  open_files_status = [];
  server_persist_dir = "/srv";
  disk = machine_with (("/srv/a", file_of (1 ∷ 2 ∷ 3 ∷ []) 7) ∷ []) 20;
}

-- A client whose cache has a copy of it, and that has it open as descriptor 3.
abbrev pub client_with : FileMeta → ℕ → World Machine Remote
client_with meta clock = record {
  status = record {
    cache_interval = 5;
    path_to_cache = "/tmp";
    open_files_status = ("/a", meta) ∷ [];
  };
  disk = record {
    files = ("/tmp/a", file_of (1 ∷ 2 ∷ 3 ∷ []) 7) ∷ [];
    descriptors = none ∷ none ∷ none ∷ some "/tmp/a" ∷ [];
    clock = clock;
    last_errno = 0;
  };
  remote = server;
}

-- The same client before it opens a file, with an empty cache.
abbrev pub fresh_client : World Machine Remote
fresh_client = record {
  status = record { cache_interval = 5; path_to_cache = "/tmp"; open_files_status = [] };
  disk = machine_with [] 20;
  remote = server;
}

pub length-replicate : (n : ℕ) → length {A = ℕ} (replicate n 0) ≡ n
length-replicate ℕ.zero = refl
length-replicate (ℕ.suc n) = omega (arith, length-replicate n)

abbrev pub link : Delivers machine_os loopback
link = record {
  fresh = λ n. replicate n 0;
  length_fresh = length-replicate;
  write_lem = λ types path buf size offset fi code s same. refl;
  read_lem = λ types path buf size offset fi code s same. refl;
}
