-- ===== src/Errno.antt =====
-- The Linux error numbers and open(2) flags that the sources name, and the codes of rpc.h.
use dbs_assignment.Prelude.{ℕ, ◌%◌}
use dbs_assignment.Prelude.Int.{ℤ, negsuc}

abbrev pub eperm : ℕ
eperm = 1

abbrev pub enoent : ℕ
enoent = 2

abbrev pub eacces : ℕ
eacces = 13

abbrev pub einval : ℕ
einval = 22

abbrev pub emfile : ℕ
emfile = 24

-- `NOT_INIT` and `FUNCTION_FAILURE`
abbrev pub not_init : ℤ
not_init = negsuc 200

abbrev pub function_failure : ℤ
function_failure = negsuc 202

abbrev pub o_rdonly : ℕ
o_rdonly = 0

abbrev pub o_wronly : ℕ
o_wronly = 1

abbrev pub o_rdwr : ℕ
o_rdwr = 2

abbrev pub o_creat : ℕ
o_creat = 0o100

-- `flags & O_ACCMODE`: the two low bits.
abbrev pub acc_mode : ℕ → ℕ
acc_mode flags = flags % 4

-- `S_IRWXU`
abbrev pub s_irwxu : ℕ
s_irwxu = 0o700
