-- ===== src/Rpc/Library.antt =====
-- `rpcCall` of rpc.h as the client meets it: one field for each name that is called, over an
-- unknown state `S` of all that lies behind the library (the network, the server, other clients).
-- A call is given the argument types, the arguments and what the output arguments hold before it;
-- it returns its own code, the output arguments after it, and the state.
use dbs_assignment.Prelude.{ℕ, String, List}
use dbs_assignment.Prelude.Int.{ℤ}
use dbs_assignment.Lock.{RwLockMode}
use dbs_assignment.System.{Stat, Timespec, FileInfo}

pub record Library (S : Type 0) : Type 0 where
  pub client_init : S → ℤ × S
  pub client_destroy : S → ℤ × S
  pub getattr : List ℕ → String → Stat → ℤ → S → ℤ × Stat × ℤ × S
  pub mknod : List ℕ → String → ℕ → ℕ → ℤ → S → ℤ × ℤ × S
  pub open_file : List ℕ → String → FileInfo → ℤ → S → ℤ × FileInfo × ℤ × S
  pub release : List ℕ → String → FileInfo → ℤ → S → ℤ × ℤ × S
  pub read : List ℕ → String → List ℕ → ℕ → ℕ → FileInfo → ℤ → S → ℤ × List ℕ × ℤ × S
  pub write : List ℕ → String → List ℕ → ℕ → ℕ → FileInfo → ℤ → S → ℤ × ℤ × S
  pub truncate : List ℕ → String → ℕ → ℤ → S → ℤ × ℤ × S
  pub fsync : List ℕ → String → FileInfo → ℤ → S → ℤ × ℤ × S
  pub utimensat : List ℕ → String → Timespec → Timespec → ℤ → S → ℤ × ℤ × S
  pub lock : List ℕ → String → RwLockMode → ℤ → S → ℤ × ℤ × S
  pub unlock : List ℕ → String → RwLockMode → ℤ → S → ℤ × ℤ × S
