-- ===== src/Server/Startup.antt =====
-- `main` of watdfs_server.cpp: the directory, then the eleven registrations, then the loop of the
-- RPC library. What the library does is a parameter, as in `ServerLibrary` below.
pub mod Registers
use dbs_assignment.Prelude.{
  ℕ, Bool, true, false, List, [], ◌∷◌, String, Option, none, some, if◌then◌else◌,
}
use dbs_assignment.Prelude.Int.{ℤ, pos, negsuc, is_neg}
use dbs_assignment.Errno.{not_init, function_failure}
use dbs_assignment.Rpc.Procedures.{
  Procedure, getattr, mknod, open_file, release, read, write, truncate, fsync, utimensat, lock,
  unlock, procedure_name, registered_types,
}

-- The three functions of rpc.h that `main` calls, over the state `R` of the library; the handler
-- that is registered is named by its procedure.
pub record ServerLibrary (R : Type 0) : Type 0 where
  pub server_init : R → ℤ × R
  pub register : String → List ℕ → Procedure → R → ℤ × R
  pub execute : R → ℤ × R

-- The order of the registration blocks.
abbrev pub registrations : List Procedure
registrations =
    getattr ∷ mknod ∷ open_file ∷ release ∷ read ∷ write ∷ truncate ∷ fsync ∷ utimensat ∷ lock
    ∷ unlock ∷ []

module _ {R : Type 0} (lib : ServerLibrary R) where
  -- The blocks in turn: the first code below 0 is returned at once.
  unfoldable pub register_all : List Procedure → ℤ → R → (Bool × ℤ) × R
  register_all [] ret r = ((false, ret), r)
  register_all (p ∷ ps) ret r =
      let (ret', r') = lib.register (procedure_name p) (registered_types p) p r in
      let rest = register_all ps ret' r' in if is_neg ret' then ((true, ret'), r') else rest

  -- What `main` returns, the global `server_persist_dir` if it was set, and the library's state.
  unfoldable pub main : List String → R → ℤ × Option String × R
  main (program ∷ dir ∷ []) r =
      let (init_ret, r') = lib.server_init r in
      if is_neg init_ret
      then (not_init, some dir, r')
      else let ((failed, ret), r'') = register_all registrations (pos 0) r' in
        if failed
        then (ret, some dir, r'')
        else let (exec_ret, r3) = lib.execute r'' in
          (if is_neg exec_ret then function_failure else ret, some dir, r3)
  main argv r = (negsuc 0, none, r)
