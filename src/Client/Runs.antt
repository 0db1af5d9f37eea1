-- ===== src/Client/Runs.antt =====
-- How the statements of watdfs_client.cpp run on a map in which a file is open or is not.
use dbs_assignment.Prelude.{◌≡◌, refl, ap, Option, none, some, String, true, false, if◌then◌else◌}
use dbs_assignment.Prelude.Int.{pos, negsuc}
use dbs_assignment.Prelude.Dict.{lookup, insert, touch, lookup-insert_same}
use dbs_assignment.Client.{FileMeta, zero_meta, FilesStatus, World}
use dbs_assignment.Client.Monad.{next, get_meta}
use dbs_assignment.Client.Cache.{cli_file_is_open}

-- The client after the entry of a file has been written.
abbrev pub with_meta : {D S : Type 0} → String → FileMeta → World D S → World D S
with_meta path m w = record w {
  status = record w.status { open_files_status = insert path m w.status.open_files_status };
}

pub is_open-found :
    (path : String) (s : FilesStatus) (m : FileMeta)
    → lookup path s.open_files_status ≡ some m
    → cli_file_is_open path s ≡ pos 0
is_open-found path s m found =
    ap (λ o. if (elim o [ none ↦ false | some _ ↦ true ]) then pos 0 else negsuc 0) found

pub is_open-missing :
    (path : String) (s : FilesStatus)
    → lookup path s.open_files_status ≡ none
    → cli_file_is_open path s ≡ negsuc 0
is_open-missing path s missing =
    ap (λ o. if (elim o [ none ↦ false | some _ ↦ true ]) then pos 0 else negsuc 0) missing

touch-lookup :
    (path : String) (s : FilesStatus) (o : Option FileMeta)
    → lookup path s.open_files_status ≡ o
    → (m : FileMeta) × (lookup path (elim o [
      | none ↦ insert path zero_meta s.open_files_status
      | some _ ↦ s.open_files_status
    ])
        ≡ some m)
touch-lookup path s none e = (zero_meta, lookup-insert_same path zero_meta s.open_files_status)
touch-lookup path s (some m) e = (m, e)

-- Once `operator[]` has been evaluated, the file counts as open.
pub is_open-touched :
    (path : String) (s : FilesStatus)
    → cli_file_is_open path
        (record s { open_files_status = touch zero_meta path s.open_files_status })
      ≡ pos 0
is_open-touched path s =
    let (m, found) = touch-lookup path s (lookup path s.open_files_status) refl in
    is_open-found path (record s { open_files_status = touch zero_meta path s.open_files_status }) m
      found

module _ {D S R : Type 0} (path : String) (w : World D S) where
  pub get_meta-found :
      (m : FileMeta)
      → lookup path w.status.open_files_status ≡ some m
      → get_meta {R = R} path w ≡ next m w
  get_meta-found m found =
      ap
        (λ o.
          next (elim o [ none ↦ zero_meta | some m' ↦ m' ])
            (record w {
              status = record w.status {
                open_files_status = elim o [
                  | none ↦ insert path zero_meta w.status.open_files_status
                  | some _ ↦ w.status.open_files_status
                ];
              };
            }))
        found

  -- `operator[]` on a missing key creates it.
  pub get_meta-missing :
      lookup path w.status.open_files_status ≡ none
      → get_meta {R = R} path w ≡ next zero_meta (with_meta path zero_meta w)
  get_meta-missing missing =
      ap
        (λ o.
          next (elim o [ none ↦ zero_meta | some m' ↦ m' ])
            (record w {
              status = record w.status {
                open_files_status = elim o [
                  | none ↦ insert path zero_meta w.status.open_files_status
                  | some _ ↦ w.status.open_files_status
                ];
              };
            }))
        missing
