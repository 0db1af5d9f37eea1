-- ===== src/Tests/Regular.antt =====
-- A descriptor of the machine in memory is one of a regular file.
use dbs_assignment.Prelude.{
  String, ℕ, ◌≡◌, refl, none, some, List, [], arith, Option, length, overwrite, take, ap, ◌∙◌, sym,
  take-all,
}
use dbs_assignment.Prelude.Int.{ℤ, pos}
use dbs_assignment.Prelude.Dict.{lookup, insert, lookup-insert_same}
use dbs_assignment.System.{zero_timespec, Timespec}
use dbs_assignment.System.Content.{splice, slice}
use dbs_assignment.System.Memory.{
  File, Machine, machine_os, path_of, on_descriptor, on_file, machine_pread,
}
use dbs_assignment.System.Regular.{Stamps, RegularFile}
use dbs_assignment.Client.Transfer.ReadLoop.{length-slice}

-- The first descriptor that a machine opens.
abbrev pub fd : ℤ
fd = pos 3

abbrev pub bytes_of : Option File → List ℕ
bytes_of none = []
bytes_of (some f) = f.bytes

abbrev pub content : String → Machine → List ℕ
content path d = bytes_of (lookup path d.files)

abbrev pub OpenAt : ℕ → String → Machine → Type 0
OpenAt n path d = (path_of (pos n) d ≡ some path) × (f : File) × (lookup path d.files ≡ some f)

abbrev pub Open : String → Machine → Type 0
Open path d = OpenAt 3 path d

-- What the calls do on a descriptor that is open.
pub on_open :
    (descriptor : ℕ) (path : String) (d : Machine) (file : File) (g : File → File) (result : ℤ)
    → path_of (pos descriptor) d ≡ some path
    → lookup path d.files ≡ some file
    → on_descriptor (pos descriptor) g result d
      ≡ (result, record d { files = insert path (g file) d.files })
unfolding on_descriptor on_file
on_open descriptor path d file g result e found = rw (on_descriptor, e, on_file, found) refl

pread_open :
    (descriptor : ℕ) (path : String) (d : Machine) (file : File) (buf : List ℕ) (n offset : ℕ)
    → path_of (pos descriptor) d ≡ some path
    → lookup path d.files ≡ some file
    → machine_pread (pos descriptor) buf n offset d
      ≡ (pos (length (slice offset n file.bytes)), overwrite (slice offset n file.bytes) buf, d)
unfolding machine_pread
pread_open descriptor path d file buf n offset e found = rw (machine_pread, e, found) refl

pub regular_at :
    (descriptor : ℕ) (path : String)
    → RegularFile machine_os (pos descriptor) (content path) (OpenAt descriptor path)
unfolding path_of
regular_at descriptor path = record {
  pwrite_lem = λ buf offset d up few.
      let (e, file, found) = up in
      let file' = record file {
        bytes = splice offset (take (length buf) buf) file.bytes;
        mtim = record { tv_sec = d.clock; tv_nsec = 0 };
      } in
      (
        record d { files = insert path file' d.files },
        on_open descriptor path d file _ (pos (length buf)) e found,
        ap bytes_of (lookup-insert_same path file' d.files)
            ∙ ap (λ xs. splice offset xs file.bytes) (take-all (length buf) buf (omega arith))
            ∙ ap (λ o. splice offset buf (bytes_of o)) (sym found),
        (e, file', lookup-insert_same path file' d.files),
      );
  pread_lem = λ buf n offset d up room few there.
      let (e, file, found) = up in
      (
        d,
        pread_open descriptor path d file buf n offset e found
            ∙ ap (λ m. (pos m, overwrite (slice offset n file.bytes) buf, d))
                (length-slice offset n file.bytes
                  (omega (arith, ap (λ o. length (bytes_of o)) found)))
            ∙ ap (λ o. (pos n, overwrite (slice offset n (bytes_of o)) buf, d)) (sym found),
        refl,
        up,
      );
}

pub regular : (path : String) → RegularFile machine_os fd (content path) (Open path)
regular path = regular_at 3 path

abbrev pub mtim_of : Option File → Timespec
mtim_of none = zero_timespec
mtim_of (some f) = f.mtim

pub on_file_present :
    (path : String) (d : Machine) (file : File) (g : File → File) (result : ℤ)
    → lookup path d.files ≡ some file
    → on_file path g result d ≡ (result, record d { files = insert path (g file) d.files })
unfolding on_file
on_file_present path d file g result found = rw (on_file, found) refl

pub stamps :
    (path : String)
    → Stamps machine_os fd path (content path) (λ d. mtim_of (lookup path d.files)) (Open path)
unfolding path_of
stamps path = record {
  time_lem = λ d up. (d.clock, d, refl, refl, up);
  utimensat_lem = λ atim time d up.
      let (e, file, found) = up in
      let file' : File = record file { atim = atim; mtim = time } in
      (
        record d { files = insert path file' d.files },
        on_file_present path d file (λ f. record f { atim = atim; mtim = time }) (pos 0) found,
        ap bytes_of (lookup-insert_same path file' d.files) ∙ ap bytes_of (sym found),
        ap mtim_of (lookup-insert_same path file' d.files),
        (e, file', lookup-insert_same path file' d.files),
      );
}
