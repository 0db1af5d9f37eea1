-- ===== src/System.antt =====
-- The operating system under the client and the server: the calls that the sources make, over an
-- unknown state of the machine, `D` below. A call returns its C result, what it leaves in the
-- buffers that it is given, and the machine after it; `errno` is read from the machine. Nothing is
-- assumed of the calls here; the theorems name what they need.
pub mod Content
pub mod Memory
pub mod Regular
use dbs_assignment.Prelude.{ℕ, String, List}
use dbs_assignment.Prelude.Int.{ℤ}

pub record Timespec : Type 0 where
  pub tv_sec : ℕ
  pub tv_nsec : ℕ

-- `struct stat`, the fields that the sources read
pub record Stat : Type 0 where
  pub st_size : ℕ
  pub st_atim : Timespec
  pub st_mtim : Timespec

-- `st_mtime` is a name for the seconds of `st_mtim`.
abbrev pub st_mtime : Stat → ℕ
st_mtime s = s.st_mtim.tv_sec

-- `struct fuse_file_info`, the fields that the sources use; `fh` is a `uint64_t`
pub record FileInfo : Type 0 where
  pub flags : ℕ
  pub fh : ℕ

-- What `memset(_, 0, sizeof _)` leaves.
abbrev pub zero_timespec : Timespec
zero_timespec = record { tv_sec = 0; tv_nsec = 0 }

abbrev pub zero_stat : Stat
zero_stat = record { st_size = 0; st_atim = zero_timespec; st_mtim = zero_timespec }

abbrev pub zero_file_info : FileInfo
zero_file_info = record { flags = 0; fh = 0 }

pub record Os (D : Type 0) : Type 0 where
  pub errno : D → ℕ
  pub time : D → ℕ × D
  pub stat : String → Stat → D → ℤ × Stat × D
  pub mknod : String → ℕ → ℕ → D → ℤ × D
  pub open_file : String → ℕ → D → ℤ × D  -- `open` with two arguments
  pub create_file : String → ℕ → ℕ → D → ℤ × D  -- `open` with a mode
  pub close : ℤ → D → ℤ × D
  pub pread : ℤ → List ℕ → ℕ → ℕ → D → ℤ × List ℕ × D  -- the buffer, the size and the offset
  pub pwrite : ℤ → List ℕ → ℕ → ℕ → D → ℤ × D
  pub truncate : String → ℕ → D → ℤ × D
  pub fsync : ℤ → D → ℤ × D
  pub utimensat : ℤ → String → Timespec → Timespec → D → ℤ × D
