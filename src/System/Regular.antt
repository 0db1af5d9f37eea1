-- ===== src/System/Regular.antt =====
-- What the manual pages say of a descriptor of a regular file, where no call is cut short: `file`
-- shows the bytes of the file and `mtim` its time, and `valid` is the state in which the descriptor
-- is open.
use dbs_assignment.Prelude.{ℕ, ◌+◌, ◌≤◌, ◌≡◌, List, String, length, overwrite}
use dbs_assignment.Prelude.Int.{ℤ, pos}
use dbs_assignment.System.{Os, Timespec}
use dbs_assignment.System.Content.{splice, slice}

-- The largest number of bytes that one call transfers on Linux, 0x7ffff000
abbrev pub max_rw_count : ℕ
max_rw_count = 2147479552

-- pread(2) and pwrite(2)
pub record RegularFile {D : Type 0} (os : Os D) (fd : ℤ) (file : D → List ℕ) (valid : D → Type 0)
    : Type 0 where
  pub pwrite_lem :
      (buf : List ℕ) (offset : ℕ) (d : D)
      → valid d
      → length buf ≤ max_rw_count
      → (d' : D) × (os.pwrite fd buf (length buf) offset d ≡ (pos (length buf), d'))
        × (file d' ≡ splice offset buf (file d))
        × valid d'
  pub pread_lem :
      (buf : List ℕ) (n offset : ℕ) (d : D)
      → valid d
      → n ≤ length buf
      → n ≤ max_rw_count
      → offset + n ≤ length (file d)
      → (d' : D) × (os.pread fd buf n offset d
          ≡ (pos n, overwrite (slice offset n (file d)) buf, d'))
        × (file d' ≡ file d)
        × valid d'

-- time(2), and utimensat(2) on the file, which is `path`
pub record Stamps {D : Type 0} (os : Os D) (fd : ℤ) (path : String) (file : D → List ℕ)
    (mtim : D → Timespec) (valid : D → Type 0) : Type 0 where
  pub time_lem :
      (d : D)
      → valid d
      → (now : ℕ) × (d' : D) × (os.time d ≡ (now, d')) × (file d' ≡ file d) × valid d'
  pub utimensat_lem :
      (atim time : Timespec) (d : D)
      → valid d
      → (d' : D) × (os.utimensat fd path atim time d ≡ (pos 0, d'))
        × (file d' ≡ file d)
        × (mtim d' ≡ time)
        × valid d'
