-- ===== src/System/Memory.antt =====
-- A machine in memory, on which the examples run: files by path, open descriptors, a clock that
-- the program does not move, and `errno`.
use dbs_assignment.Prelude.{
  ℕ, zero, suc, Option, none, some, List, [], ◌∷◌, ◌++◌, String, length, take, replicate, overwrite,
}
use dbs_assignment.Prelude.Int.{ℤ, pos, negsuc}
use dbs_assignment.Prelude.Dict.{Dict, lookup, insert}
use dbs_assignment.Errno.{enoent}
use dbs_assignment.System.{Timespec, Stat, Os}
use dbs_assignment.System.Content.{splice, slice}

pub record File : Type 0 where
  pub bytes : List ℕ
  pub atim : Timespec
  pub mtim : Timespec

pub record Machine : Type 0 where
  pub files : Dict File
  pub descriptors : List (Option String)  -- the path behind each descriptor
  pub clock : ℕ
  pub last_errno : ℕ

-- EBADF and EEXIST
abbrev ebadf : ℕ
ebadf = 9

abbrev eexist : ℕ
eexist = 17

abbrev time_of : ℕ → Timespec
time_of sec = record { tv_sec = sec; tv_nsec = 0 }

abbrev entry : {A : Type 0} → List (Option A) → ℕ → Option A
entry [] i = none
entry (x ∷ xs) zero = x
entry (x ∷ xs) (suc i) = entry xs i

abbrev pub clear : {A : Type 0} → List (Option A) → ℕ → List (Option A)
clear [] i = []
clear (x ∷ xs) zero = none ∷ xs
clear (x ∷ xs) (suc i) = x ∷ clear xs i

unfoldable pub path_of : ℤ → Machine → Option String
path_of (pos fd) d = entry d.descriptors fd
path_of (negsuc n) d = none

abbrev fail : ℕ → Machine → ℤ × Machine
fail e d = (negsuc 0, record d { last_errno = e })

unfoldable pub opened : String → Machine → ℤ × Machine
opened path d =
    (pos (length d.descriptors), record d { descriptors = d.descriptors ++ (some path ∷ []) })

unfoldable pub stat_of : File → Stat
stat_of f = record { st_size = length f.bytes; st_atim = f.atim; st_mtim = f.mtim }

unfoldable pub on_file : String → (File → File) → ℤ → Machine → ℤ × Machine
unfolding lookup insert
on_file path f result d = elim (lookup path d.files) [
  | none ↦ fail enoent d
  | some file ↦ (result, record d { files = insert path (f file) d.files })
]

unfoldable pub on_descriptor : ℤ → (File → File) → ℤ → Machine → ℤ × Machine
unfolding path_of on_file
on_descriptor fd f result d = elim (path_of fd d) [
  | none ↦ fail ebadf d
  | some path ↦ on_file path f result d
]

abbrev resized : ℕ → List ℕ → List ℕ
resized n bytes = take n (bytes ++ replicate n 0)

abbrev read_file : List ℕ → ℕ → ℕ → Option File → Machine → ℤ × List ℕ × Machine
read_file buf size offset none d = (negsuc 0, buf, record d { last_errno = ebadf })
read_file buf size offset (some file) d =
    let got = slice offset size file.bytes in (pos (length got), overwrite got buf, d)

unfoldable pub machine_pread : ℤ → List ℕ → ℕ → ℕ → Machine → ℤ × List ℕ × Machine
unfolding path_of lookup
machine_pread fd buf size offset d = elim (path_of fd d) [
  | none ↦ read_file buf size offset none d
  | some path ↦ read_file buf size offset (lookup path d.files) d
]

unfoldable pub machine_stat : String → Stat → Machine → ℤ × Stat × Machine
unfolding lookup stat_of
machine_stat path buf d = elim (lookup path d.files) [
  | none ↦ (negsuc 0, buf, record d { last_errno = enoent })
  | some file ↦ (pos 0, stat_of file, d)
]

abbrev new_file : Machine → File
new_file d = record { bytes = []; atim = time_of d.clock; mtim = time_of d.clock }

unfoldable pub machine_mknod : String → Machine → ℤ × Machine
unfolding lookup insert
machine_mknod path d = elim (lookup path d.files) [
  | none ↦ (pos 0, record d { files = insert path (new_file d) d.files })
  | some _ ↦ fail eexist d
]

unfoldable pub machine_open : String → Machine → ℤ × Machine
unfolding lookup opened
machine_open path d = elim (lookup path d.files) [ none ↦ fail enoent d | some _ ↦ opened path d ]

unfoldable pub machine_create : String → Machine → ℤ × Machine
unfolding lookup insert opened
machine_create path d = elim (lookup path d.files) [
  | none ↦ opened path (record d { files = insert path (new_file d) d.files })
  | some _ ↦ opened path d
]

unfoldable pub machine_close : ℤ → Machine → ℤ × Machine
unfolding path_of
machine_close (negsuc n) d = fail ebadf d
machine_close (pos fd) d = elim (path_of (pos fd) d) [
  | none ↦ fail ebadf d
  | some _ ↦ (pos 0, record d { descriptors = clear d.descriptors fd })
]

-- Modes are not checked, and a write stamps the file with the clock.
abbrev pub machine_os : Os Machine
machine_os = record {
  errno = λ d. d.last_errno;
  time = λ d. (d.clock, d);
  stat = machine_stat;
  mknod = λ path mode dev. machine_mknod path;
  open_file = λ path flags. machine_open path;
  create_file = λ path flags mode. machine_create path;
  close = machine_close;
  pread = machine_pread;
  pwrite = λ fd buf size offset d.
      on_descriptor fd
        (λ f. record f { bytes = splice offset (take size buf) f.bytes; mtim = time_of d.clock })
        (pos size) d;
  truncate = λ path size d.
      on_file path (λ f. record f { bytes = resized size f.bytes; mtim = time_of d.clock }) (pos 0)
        d;
  fsync = λ fd. on_descriptor fd (λ f. f) (pos 0);
  utimensat =
      λ fd path atim mtim. on_file path (λ f. record f { atim = atim; mtim = mtim }) (pos 0);
}

-- No descriptors but the three standard ones, which lead to no file here.
abbrev pub machine_with : Dict File → ℕ → Machine
machine_with files clock = record {
  files = files;
  descriptors = none ∷ none ∷ none ∷ [];
  clock = clock;
  last_errno = 0;
}
