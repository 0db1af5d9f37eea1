-- ===== src/Server/Openers.antt =====
-- The map of watdfs_server.cpp against the clients that have a file open: the handles that
-- `watdfs_open` has granted and `watdfs_release` has not taken back.
use Prim.Native.Nat.add
use text.Mathlib.Text.{◌==◌ as str_eq}
use dbs_assignment.Prelude.{
  ℕ, ◌+◌, ◌≤◌, ◌<◌, ◌≡◌, ◌≢◌, refl, Bool, true, false, Option, none, some, List, [], ◌∷◌, ◌++◌,
  String, if◌then◌else◌, arith, eq_iff, subst, inl, inr, Bool-cases,
}
use dbs_assignment.Prelude.Int.{pos, neg, is_zero}
use dbs_assignment.Prelude.Dict.{Dict, lookup, insert, erase, lookup-insert, lookup-erase}
use dbs_assignment.Errno.{eacces}
use dbs_assignment.Lock.{RwLock, pthread_ok, rw_lock_init}
use dbs_assignment.Server.{FileStatus, Server}
use dbs_assignment.Server.Opens.{
  Admission, refused, admitted, admit, join_openers, first_opener, release_entry,
}

-- The file, and whether it was opened for writing.
abbrev pub Handle : Type 0
Handle = String × Bool

abbrev pub one_if : Bool → ℕ
one_if true = 1
one_if false = 0

unfoldable pub openers_of : String → List Handle → ℕ
openers_of path [] = 0
openers_of path (h ∷ hs) = one_if (str_eq h.0 path) + openers_of path hs

unfoldable pub writers_of : String → List Handle → ℕ
writers_of path [] = 0
writers_of path (h ∷ hs) = (if str_eq h.0 path then one_if h.1 else 0) + writers_of path hs

-- The entry of a file with `n` openers, `w` of them writers.
abbrev pub Entry : Option FileStatus → ℕ → ℕ → Type 0
Entry none n w = (n ≡ 0) × (w ≡ 0)
Entry (some st) n w =
    (st.open_num ≡ pos n) × (0 < n) × (st.server_mode ≡ w) × (w ≤ 1) × (w ≤ n) × (st.lock ≢ none)

-- A map in step with the handles.
abbrev pub InStep : Dict FileStatus → List Handle → Type 0
InStep files hs =
    (path : String) → Entry (lookup path files) (openers_of path hs) (writers_of path hs)

-- A server whose map is in step with the handles.
abbrev pub Inv : {D : Type 0} → Server D → List Handle → Type 0
Inv s hs = InStep s.open_files_status hs

-- What the map decides, seen from the openers.
abbrev pub Decides : Admission → Bool → ℕ → ℕ → Type 0
Decides (refused code) writes n w = (code ≡ neg eacces) × (writes ≡ true) × (w ≡ 1)
Decides (admitted st) writes n w = Entry (some st) (n + 1) (w + one_if writes)

pub admit-Decides :
    (raw : RwLock) (writes : Bool) (o : Option FileStatus) (n w : ℕ)
    → Entry o n w
    → Decides (admit pthread_ok raw writes o) writes n w
unfolding admit join_openers first_opener rw_lock_init
admit-Decides raw true none n w e = ground arith
admit-Decides raw false none n w e = ground arith
admit-Decides raw true (some st) n w e = ground arith
admit-Decides raw false (some st) n w e = ground arith

-- One more handle, whose file gets the entry `st`.
pub insert-InStep :
    (files : Dict FileStatus) (hs : List Handle) (path : String) (writes : Bool) (st : FileStatus)
    → InStep files hs
    → Entry (some st) (openers_of path hs + 1) (writers_of path hs + one_if writes)
    → InStep (insert path st files) ((path, writes) ∷ hs)
unfolding openers_of writers_of
insert-InStep files hs path writes st inv e p = elim (Bool-cases (str_eq path p)) [
  | inl same ↦
      let e' =
        subst (λ q. Entry (some st) (openers_of q hs + 1) (writers_of q hs + one_if writes))
          ((eq_iff path p).0 same) e in
      rw (lookup-insert, same) (ground (arith, e'))
  | inr other ↦ rw (lookup-insert, other, add.zero, add.zero) (inv p)
]

-- A handle in the middle of the list counts for its own file only.
pub openers_of-append :
    (p path : String) (writes : Bool) (before behind : List Handle)
    → openers_of p (before ++ (path, writes) ∷ behind)
      ≡ one_if (str_eq path p) + openers_of p (before ++ behind)
unfolding openers_of
openers_of-append p path writes [] behind = refl
openers_of-append p path writes (h ∷ before) behind =
    omega (arith, openers_of-append p path writes before behind)

writers_of-append :
    (p path : String) (writes : Bool) (before behind : List Handle)
    → writers_of p (before ++ (path, writes) ∷ behind)
      ≡ (if str_eq path p then one_if writes else 0) + writers_of p (before ++ behind)
unfolding writers_of
writers_of-append p path writes [] behind = refl
writers_of-append p path writes (h ∷ before) behind =
    omega (arith, writers_of-append p path writes before behind)

writers-le-openers : (p : String) (hs : List Handle) → writers_of p hs ≤ openers_of p hs
unfolding writers_of openers_of
writers-le-openers p [] = omega arith
writers-le-openers p ((q, true) ∷ hs) = ground (arith, writers-le-openers p hs)
writers-le-openers p ((q, false) ∷ hs) = ground (arith, writers-le-openers p hs)

-- The map that `watdfs_release` leaves of `files`.
abbrev pub released : Dict FileStatus → String → FileStatus → Dict FileStatus
released files path st' = if is_zero st'.open_num then erase path files else insert path st' files

lookup-released :
    (p path : String) (st' : FileStatus) (files : Dict FileStatus)
    → lookup p (released files path st') ≡ (
        if str_eq path p then (if is_zero st'.open_num then none else some st') else lookup p files)
lookup-released p path st' files = elim (Bool-cases (is_zero st'.open_num)) [
  | inl gone ↦ rw gone (lookup-erase path p files)
  | inr more ↦ rw more (lookup-insert path p st' files)
]

-- One handle less, whose file had the entry `st`.
pub released-InStep :
    (files : Dict FileStatus) (before behind : List Handle) (path : String) (writes : Bool)
    (st : FileStatus)
    → lookup path files ≡ some st
    → InStep files (before ++ (path, writes) ∷ behind)
    → InStep (released files path (release_entry writes st)) (before ++ behind)
released-InStep files before behind path writes st found inv p =
    rw lookup-released (elim (Bool-cases (str_eq path p)) [
      | inl same ↦
          let found' = subst (λ q. lookup q files ≡ some st) ((eq_iff path p).0 same) found in
          rw same (ground (arith, rw found' at before_it, writers-le-openers p (before ++ behind)))
      | inr other ↦ rw other (rw (other, add.zero, add.zero) at before_it)
    ])
  where
    before_it :
        Entry
          (lookup p files)
          (one_if (str_eq path p) + openers_of p (before ++ behind))
          ((if str_eq path p then one_if writes else 0) + writers_of p (before ++ behind))
    before_it =
        rw
          (
            openers_of-append p path writes before behind,
            writers_of-append p path writes before behind,
          )
          at (inv p)
