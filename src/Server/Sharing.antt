-- ===== src/Server/Sharing.antt =====
-- Any sequence of calls of the handlers of watdfs_server.cpp keeps the map in step with the clients
-- that have files open, and at most one of them has a file open for writing.
use dbs_assignment.Errno.{eacces}
use dbs_assignment.Prelude.{
  ◌↔◌, ◌≢◌, ℕ, none, eq_refl, Bool-cases, sym, ◌∙◌, ◌++◌, ◌<◌, Option, if◌then◌else◌, true, false,
  some, Bool, ◌≡◌, ◌⊎◌, inl, inr, refl, ap, List, ◌∷◌, String, arith,
}
use dbs_assignment.Prelude.Int.{neg, is_neg, to_int, ℤ, pos}
use dbs_assignment.Prelude.Dict.{touch, Dict, lookup, insert}
use dbs_assignment.Lock.{RwLock, pthread_ok}
use dbs_assignment.System.{Os, FileInfo}
use dbs_assignment.Server.{zero_status, FileStatus, Server}
use dbs_assignment.Server.Opens.{
  join_openers, release_entry, watdfs_release, wants_write, Admission, refused, admitted, admit,
  open_admitted, watdfs_open,
}
use dbs_assignment.Server.Openers.{
  Entry, Handle, openers_of, openers_of-append, writers_of, Inv, Decides, admit-Decides,
  insert-InStep, InStep, released, released-InStep,
}

pub Admission-cases :
    (a : Admission) → ((c : ℤ) × (a ≡ refused c)) ⊎ ((st : FileStatus) × (a ≡ admitted st))
Admission-cases (refused c) = inl (c, refl)
Admission-cases (admitted st) = inr (st, refl)

-- A second writer is refused.
admit-refuses :
    (raw : RwLock) (writes : Bool) (o : Option FileStatus) (n : ℕ) {w : ℕ}
    → Entry o n w
    → (writes ≡ true) × (w ≡ 1)
    → admit pthread_ok raw writes o ≡ refused (neg eacces)
unfolding admit join_openers
admit-refuses raw false o n e h = absurd (cc (h.0))
admit-refuses raw true none n e h = absurd (omega (arith, e, h))
admit-refuses raw true (some st) n e h = ground (arith, e, h)

module _ {D : Type 0} (os : Os D) (raw : RwLock) (path : String) (fi : FileInfo)
    (s : Server D) where
  abbrev pub verdict : Admission
  verdict = admit pthread_ok raw (wants_write fi.flags) (lookup path s.open_files_status)

  pub open_refused :
      (c : ℤ) → verdict ≡ refused c → watdfs_open os pthread_ok raw path fi s ≡ (pos 0, fi, c, s)
  unfolding watdfs_open
  open_refused c e = rw (watdfs_open, e)

  pub open_granted :
      (st : FileStatus)
      → verdict ≡ admitted st
      → ((watdfs_open os pthread_ok raw path fi s).2 ≡ pos 0)
        × ((watdfs_open os pthread_ok raw path fi s).3.open_files_status
            ≡ insert path st s.open_files_status)
  unfolding watdfs_open open_admitted
  open_granted st e = rw (watdfs_open, e) (ground arith)

  decides :
      (hs : List Handle)
      → Inv s hs
      → Decides verdict (wants_write fi.flags) (openers_of path hs) (writers_of path hs)
  decides hs inv =
      admit-Decides raw (wants_write fi.flags) (lookup path s.open_files_status)
        (openers_of path hs) (writers_of path hs) (inv path)

  -- After a granted open the map is in step with one more handle.
  pub grant-Inv :
      (hs : List Handle)
      → Inv s hs
      → (watdfs_open os pthread_ok raw path fi s).2 ≡ pos 0
      → Inv (watdfs_open os pthread_ok raw path fi s).3 ((path, wants_write fi.flags) ∷ hs)
  grant-Inv hs inv ok = elim (Admission-cases verdict) [
    | inl (c, e) ↦ cc (ap (λ r. r.2) (open_refused c e), (rw e at (decides hs inv)).0)
    | inr (st, e) ↦ rw ((open_granted st e).1) (
        insert-InStep s.open_files_status hs path (wants_write fi.flags) st inv
          (rw e at (decides hs inv)))
  ]

  -- A refused open leaves the map in step.
  pub refuse-Inv :
      (hs : List Handle)
      → Inv s hs
      → (watdfs_open os pthread_ok raw path fi s).2 ≢ pos 0
      → Inv (watdfs_open os pthread_ok raw path fi s).3 hs
  refuse-Inv hs inv bad = elim (Admission-cases verdict) [
    | inl (c, e) ↦ rw (open_refused c e) inv
    | inr (st, e) ↦ absurd (bad ((open_granted st e).0))
  ]

  -- The refusals of an open, in step with the handles.
  pub refusal_iff :
      (hs : List Handle)
      → Inv s hs
      → ((watdfs_open os pthread_ok raw path fi s).2 ≡ neg eacces)
        ↔ ((wants_write fi.flags ≡ true) × (writers_of path hs ≡ 1))
  refusal_iff hs inv = elim (Admission-cases verdict) [
    | inl (c, e) ↦ rw (open_refused c e) (
      λ _. ((rw e at (decides hs inv)).1, (rw e at (decides hs inv)).2),
      λ _. (rw e at (decides hs inv)).0,
    )
    | inr (st, e) ↦ rw ((open_granted st e).0) (
      λ h. absurd (cc h),
      λ h. absurd (
          cc (
            e,
            admit-refuses raw (wants_write fi.flags) (lookup path s.open_files_status)
                (openers_of path hs) (inv path) h,
          )),
    )
  ]

-- A key that is there is not created.
touch-present :
    (logging : Bool) (path : String) (st : FileStatus) (files : Dict FileStatus)
    → lookup path files ≡ some st
    → (if logging then touch zero_status path files else files) ≡ files
touch-present true path st files found = rw (touch, found)
touch-present false path st files found = refl

module _ {D : Type 0} (os : Os D) (logging : Bool) (path : String) (fi : FileInfo)
    (s : Server D) where
  abbrev close_call : ℤ × D
  close_call = os.close (to_int fi.fh) s.disk

  release_failed :
      is_neg close_call.0 ≡ true
      → ((watdfs_release os logging path fi s).1 ≡ neg (os.errno close_call.1))
        × ((watdfs_release os logging path fi s).2.open_files_status ≡ s.open_files_status)
  unfolding watdfs_release
  release_failed e = rw e (refl, refl)

  release_done :
      (st : FileStatus)
      → lookup path s.open_files_status ≡ some st
      → is_neg close_call.0 ≡ false
      → ((watdfs_release os logging path fi s).1 ≡ pos 0)
        × ((watdfs_release os logging path fi s).2.open_files_status
            ≡ released s.open_files_status path (release_entry (wants_write fi.flags) st))
  unfolding watdfs_release
  release_done st found e =
      rw (e, touch-present logging path st s.open_files_status found, found) (ground arith)

-- A file with a handle has an entry.
found-Entry :
    (o : Option FileStatus) (n w : ℕ) → Entry o n w → 0 < n → (st : FileStatus) × (o ≡ some st)
found-Entry none n w e h = absurd (omega (arith, e))
found-Entry (some st) n w e h = (st, refl)

-- A file with a handle in the list has an entry.
handle-found :
    (files : Dict FileStatus) (before behind : List Handle) (path : String) (writes : Bool)
    → InStep files (before ++ (path, writes) ∷ behind)
    → (st : FileStatus) × (lookup path files ≡ some st)
handle-found files before behind path writes inv =
    found-Entry (lookup path files) _ _ (inv path)
      (rw (openers_of-append path path writes before behind, eq_refl path) (omega arith))

-- A minus sign does not hide a positive errno.
neg-nonzero : (e : ℕ) → 0 < e → neg e ≢ pos 0
neg-nonzero e h = ground arith

-- A release that fails leaves the map; one that succeeds takes the handle out of it.
module _ {D : Type 0} (os : Os D) (logging : Bool) (path : String) (fi : FileInfo) (s : Server D)
    (close_errno : (fd : ℤ) (d : D)
      → is_neg (os.close fd d).0 ≡ true
      → 0 < os.errno (os.close fd d).1)
    (before behind : List Handle)
    (inv : Inv s (before ++ (path, wants_write fi.flags) ∷ behind)) where
  pub release-Inv :
      (watdfs_release os logging path fi s).1 ≡ pos 0
      → Inv (watdfs_release os logging path fi s).2 (before ++ behind)
  release-Inv ok = elim (Bool-cases (is_neg (close_call os logging path fi s).0)) [
    | inl failed ↦ absurd (
        neg-nonzero _ (close_errno _ _ failed)
          (sym ((release_failed os logging path fi s failed).0) ∙ ok))
    | inr done ↦
        let (st, found) =
          handle-found s.open_files_status before behind path (wants_write fi.flags) inv in
        rw ((release_done os logging path fi s st found done).1) (
          released-InStep s.open_files_status before behind path (wants_write fi.flags) st found
            inv)
  ]

  pub release_failed-Inv :
      (watdfs_release os logging path fi s).1 ≢ pos 0
      → Inv
          (watdfs_release os logging path fi s).2
          (before ++ (path, wants_write fi.flags) ∷ behind)
  release_failed-Inv bad = elim (Bool-cases (is_neg (close_call os logging path fi s).0)) [
    | inl failed ↦ rw ((release_failed os logging path fi s failed).1) inv
    | inr done ↦
        let (st, found) =
          handle-found s.open_files_status before behind path (wants_write fi.flags) inv in
        absurd (bad ((release_done os logging path fi s st found done).0))
  ]
