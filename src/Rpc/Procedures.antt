-- ===== src/Rpc/Procedures.antt =====
-- The eleven remote procedures: the argument types of each call in watdfs_client.cpp, and those
-- under which `main` of watdfs_server.cpp registers it. The sizes of the C structures come from
-- the system's headers and are a parameter.
use dbs_assignment.Prelude.{ℕ, ◌*◌, List, [], ◌∷◌, String}
use dbs_assignment.Rpc.ArgTypes.{
  in_chars, out_chars, in_out_chars, in_int, in_long, out_int, pathlen,
}

-- `sizeof` of each structure that a call carries
pub record Sizes : Type 0 where
  pub stat : ℕ
  pub fuse_file_info : ℕ
  pub timespec : ℕ

pub data Procedure : Type 0 where
  getattr mknod open_file release read write truncate fsync utimensat lock unlock : Procedure

-- The name that is registered and called.
abbrev pub procedure_name : Procedure → String
procedure_name getattr = "getattr"
procedure_name mknod = "mknod"
procedure_name open_file = "open"
procedure_name release = "release"
procedure_name read = "read"
procedure_name write = "write"
procedure_name truncate = "truncate"
procedure_name fsync = "fsync"
procedure_name utimensat = "utimensat"
procedure_name lock = "lock"
procedure_name unlock = "unlock"

-- The client: `n` is the length of the buffer that `read` and `write` carry.
module _ (sizes : Sizes) (path : String) where
  abbrev pub getattr_types : List ℕ
  getattr_types = in_chars (pathlen path) ∷ out_chars sizes.stat ∷ out_int ∷ 0 ∷ []

  abbrev pub mknod_types : List ℕ
  mknod_types = in_chars (pathlen path) ∷ in_int ∷ in_long ∷ out_int ∷ 0 ∷ []

  abbrev pub open_types : List ℕ
  open_types = in_chars (pathlen path) ∷ in_out_chars sizes.fuse_file_info ∷ out_int ∷ 0 ∷ []

  abbrev pub release_types : List ℕ
  release_types = in_chars (pathlen path) ∷ in_chars sizes.fuse_file_info ∷ out_int ∷ 0 ∷ []

  abbrev pub read_types : ℕ → List ℕ
  read_types n =
      in_chars (pathlen path)
      ∷ out_chars n
      ∷ in_long
      ∷ in_long
      ∷ in_chars sizes.fuse_file_info
      ∷ out_int
      ∷ 0
      ∷ []

  abbrev pub write_types : ℕ → List ℕ
  write_types n =
      in_chars (pathlen path)
      ∷ in_chars n
      ∷ in_long
      ∷ in_long
      ∷ in_chars sizes.fuse_file_info
      ∷ out_int
      ∷ 0
      ∷ []

  abbrev pub truncate_types : List ℕ
  truncate_types = in_chars (pathlen path) ∷ in_long ∷ out_int ∷ 0 ∷ []

  abbrev pub fsync_types : List ℕ
  fsync_types = in_chars (pathlen path) ∷ in_chars sizes.fuse_file_info ∷ out_int ∷ 0 ∷ []

  abbrev pub utimensat_types : List ℕ
  utimensat_types = in_chars (pathlen path) ∷ in_chars (sizes.timespec * 2) ∷ out_int ∷ 0 ∷ []

  abbrev pub lock_types : List ℕ
  lock_types = in_chars (pathlen path) ∷ in_int ∷ out_int ∷ 0 ∷ []

  abbrev pub unlock_types : List ℕ
  unlock_types = in_chars (pathlen path) ∷ in_int ∷ out_int ∷ 0 ∷ []

  abbrev pub client_types : ℕ → Procedure → List ℕ
  client_types n getattr = getattr_types
  client_types n mknod = mknod_types
  client_types n open_file = open_types
  client_types n release = release_types
  client_types n read = read_types n
  client_types n write = write_types n
  client_types n truncate = truncate_types
  client_types n fsync = fsync_types
  client_types n utimensat = utimensat_types
  client_types n lock = lock_types
  client_types n unlock = unlock_types

-- The server: the length of an array is not known at registration, and is written as 1.
abbrev pub registered_getattr : List ℕ
registered_getattr = in_chars 1 ∷ out_chars 1 ∷ out_int ∷ 0 ∷ []

abbrev pub registered_mknod : List ℕ
registered_mknod = in_chars 1 ∷ in_int ∷ in_long ∷ out_int ∷ 0 ∷ []

abbrev pub registered_open : List ℕ
registered_open = in_chars 1 ∷ in_out_chars 1 ∷ out_int ∷ 0 ∷ []

abbrev pub registered_release : List ℕ
registered_release = in_chars 1 ∷ in_chars 1 ∷ out_int ∷ 0 ∷ []

abbrev pub registered_read : List ℕ
registered_read = in_chars 1 ∷ out_chars 1 ∷ in_long ∷ in_long ∷ in_chars 1 ∷ out_int ∷ 0 ∷ []

abbrev pub registered_write : List ℕ
registered_write = in_chars 1 ∷ in_chars 1 ∷ in_long ∷ in_long ∷ in_chars 1 ∷ out_int ∷ 0 ∷ []

abbrev pub registered_truncate : List ℕ
registered_truncate = in_chars 1 ∷ in_long ∷ out_int ∷ 0 ∷ []

abbrev pub registered_fsync : List ℕ
registered_fsync = in_chars 1 ∷ in_chars 1 ∷ out_int ∷ 0 ∷ []

abbrev pub registered_utimensat : List ℕ
registered_utimensat = in_chars 1 ∷ in_chars 1 ∷ out_int ∷ 0 ∷ []

abbrev pub registered_lock : List ℕ
registered_lock = in_chars 1 ∷ in_int ∷ out_int ∷ 0 ∷ []

abbrev pub registered_unlock : List ℕ
registered_unlock = in_chars 1 ∷ in_int ∷ out_int ∷ 0 ∷ []

abbrev pub registered_types : Procedure → List ℕ
registered_types getattr = registered_getattr
registered_types mknod = registered_mknod
registered_types open_file = registered_open
registered_types release = registered_release
registered_types read = registered_read
registered_types write = registered_write
registered_types truncate = registered_truncate
registered_types fsync = registered_fsync
registered_types utimensat = registered_utimensat
registered_types lock = registered_lock
registered_types unlock = registered_unlock
