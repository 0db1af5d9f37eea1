-- ===== src/Client/Monad.antt =====
-- The statements of watdfs_client.cpp: they change the client's data, its machine and what lies
-- behind the RPC library, may return from the function, and may have no meaning in C.
use dbs_assignment.Prelude.{ℕ, Bool, true, false, String, Option, none, some}
use dbs_assignment.Prelude.Int.{ℤ, neg, is_neg}
use dbs_assignment.Prelude.Dict.{Dict, get_or, insert, touch}
use dbs_assignment.System.{Os}
use dbs_assignment.Client.{FileMeta, zero_meta, FilesStatus, World}

pub data Step (D S R A : Type 0) : Type 0 where
  undefined : Step D S R A
  returned : R → World D S → Step D S R A
  next : A → World D S → Step D S R A

-- Statements of a function that returns an `R`, with a value of type `A`.
abbrev pub M : Type 0 → Type 0 → Type 0 → Type 0 → Type 0
M D S R A = World D S → Step D S R A

module _ {D S : Type 0} where
  abbrev pub pure : {R A : Type 0} → A → M D S R A
  pure a w = next a w

  infixl 5 ◌>>=◌ ◌>>◌
  abbrev pub ◌>>=◌ : {R A B : Type 0} → M D S R A → (A → M D S R B) → M D S R B
  ◌>>=◌ m f w = elim (m w) [
    | undefined ↦ undefined
    | returned r w' ↦ returned r w'
    | next a w' ↦ f a w'
  ]

  abbrev pub ◌>>◌ : {R B : Type 0} → M D S R (Unit {0}) → M D S R B → M D S R B
  m >> k = m >>= λ _. k

  -- A call: a function that has returned has a value for its caller.
  abbrev pub call : {R A : Type 0} → M D S A A → M D S R A
  call m w = elim (m w) [
    | undefined ↦ undefined
    | returned a w' ↦ next a w'
    | next a w' ↦ next a w'
  ]

  -- `return r;`
  abbrev pub leave : {R A : Type 0} → R → M D S R A
  leave r w = returned r w

  -- `if (c) { return r; }`
  abbrev pub return_if : {R : Type 0} → Bool → R → M D S R (Unit {0})
  return_if true r w = returned r w
  return_if false r w = next tt w

  -- `if (r < 0) { return r; }`
  abbrev pub return_if_neg : ℤ → M D S ℤ (Unit {0})
  return_if_neg r = return_if (is_neg r) r

  abbrev pub gets : {R A : Type 0} → (FilesStatus → A) → M D S R A
  gets f w = next (f w.status) w

  abbrev pub modify_files : {R : Type 0} → (Dict FileMeta → Dict FileMeta) → M D S R (Unit {0})
  modify_files f w =
      next tt
        (record w { status = record w.status { open_files_status = f w.status.open_files_status } })

  -- `filesStatus->openFilesStatus[path]`, which creates a missing key
  abbrev pub get_meta : {R : Type 0} → String → M D S R FileMeta
  get_meta path w = next (get_or zero_meta path w.status.open_files_status) (record w {
    status = record w.status {
      open_files_status = touch zero_meta path w.status.open_files_status;
    };
  })

  -- `filesStatus->openFilesStatus[path].tc = now`
  abbrev pub set_tc : {R : Type 0} → String → ℕ → M D S R (Unit {0})
  set_tc path now =
      modify_files (λ m. insert path (record (get_or zero_meta path m) { tc = now }) m)

  -- A system call with its result, and one that also fills a buffer.
  abbrev pub on_disk : {R A : Type 0} → (D → A × D) → M D S R A
  on_disk f w = let (a, d) = f w.disk in next a (record w { disk = d })

  abbrev pub on_disk_out : {R A B : Type 0} → (D → A × B × D) → M D S R (A × B)
  on_disk_out f w = let (a, b, d) = f w.disk in next (a, b) (record w { disk = d })

  -- Likewise for the remote calls.
  abbrev pub on_remote : {R A : Type 0} → (S → A × S) → M D S R A
  on_remote f w = let (a, s) = f w.remote in next a (record w { remote = s })

  abbrev pub on_remote_out : {R A B : Type 0} → (S → A × B × S) → M D S R (A × B)
  on_remote_out f w = let (a, b, s) = f w.remote in next (a, b) (record w { remote = s })

  abbrev pub on_remote_if_defined : {R A : Type 0} → (S → Option (A × S)) → M D S R A
  on_remote_if_defined f w = elim (f w.remote) [
    | none ↦ undefined
    | some (a, s) ↦ next a (record w { remote = s })
  ]

  abbrev pub on_remote_out_if_defined :
      {R A B : Type 0} → (S → Option (A × B × S)) → M D S R (A × B)
  on_remote_out_if_defined f w = elim (f w.remote) [
    | none ↦ undefined
    | some (a, b, s) ↦ next (a, b) (record w { remote = s })
  ]

  -- `-errno`
  abbrev pub minus_errno : {R : Type 0} → Os D → M D S R ℤ
  minus_errno os w = next (neg (os.errno w.disk)) w

  -- `if (r < 0) { return -errno; }`
  abbrev pub return_errno_if : Os D → Bool → M D S ℤ (Unit {0})
  return_errno_if os true w = returned (neg (os.errno w.disk)) w
  return_errno_if os false w = next tt w
