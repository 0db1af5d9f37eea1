-- ===== src/Server/Files.antt =====
-- The handlers of watdfs_server.cpp that pass a call on to the file system.
use dbs_assignment.Prelude.{ℕ, List, String, if◌then◌else◌}
use dbs_assignment.Prelude.Int.{ℤ, pos, neg, is_neg, ltb_ℤ, to_int}
use dbs_assignment.Errno.{o_rdwr}
use dbs_assignment.System.{Os, Stat, Timespec, FileInfo}
use dbs_assignment.Server.{Server, get_full_path}

-- What a handler stores in `*ret` after a system call that returned `sys_ret`.
abbrev pub ret_of : {D : Type 0} → Os D → ℤ → D → ℤ
ret_of os sys_ret d = if is_neg sys_ret then neg (os.errno d) else pos 0

-- The same after `pread` and `pwrite`: only a positive count is passed on.
abbrev pub ret_of_count : {D : Type 0} → Os D → ℤ → D → ℤ
ret_of_count os count d = if ltb_ℤ (pos 0) count then count else neg (os.errno d)

module _ {D : Type 0} (os : Os D) where
  unfoldable pub watdfs_getattr : String → Stat → Server D → ℤ × Stat × ℤ × Server D
  unfolding get_full_path
  watdfs_getattr short_path statbuf s =
      let (sys_ret, statbuf', d) = os.stat (get_full_path short_path s) statbuf s.disk in
      (pos 0, statbuf', ret_of os sys_ret d, record s { disk = d })

  unfoldable pub watdfs_mknod : String → ℕ → ℕ → Server D → ℤ × ℤ × Server D
  unfolding get_full_path
  watdfs_mknod short_path mode dev s =
      let (sys_ret, d) = os.mknod (get_full_path short_path s) mode dev s.disk in
      (pos 0, ret_of os sys_ret d, record s { disk = d })

  -- The buffer is the array that the library has set up for the call.
  unfoldable pub watdfs_read :
      String → List ℕ → ℕ → ℕ → FileInfo → Server D → ℤ × List ℕ × ℤ × Server D
  watdfs_read short_path buf size offset fi s =
      let (pread_ret, buf', d) = os.pread (to_int fi.fh) buf size offset s.disk in
      (pos 0, buf', ret_of_count os pread_ret d, record s { disk = d })

  unfoldable pub watdfs_write : String → List ℕ → ℕ → ℕ → FileInfo → Server D → ℤ × ℤ × Server D
  watdfs_write short_path buf size offset fi s =
      let (pwrite_ret, d) = os.pwrite (to_int fi.fh) buf size offset s.disk in
      (pos 0, ret_of_count os pwrite_ret d, record s { disk = d })

  unfoldable pub watdfs_truncate : String → ℕ → Server D → ℤ × ℤ × Server D
  unfolding get_full_path
  watdfs_truncate short_path newsize s =
      let (sys_ret, d) = os.truncate (get_full_path short_path s) newsize s.disk in
      (pos 0, ret_of os sys_ret d, record s { disk = d })

  unfoldable pub watdfs_fsync : String → FileInfo → Server D → ℤ × ℤ × Server D
  watdfs_fsync short_path fi s =
      let (sys_ret, d) = os.fsync (to_int fi.fh) s.disk in
      (pos 0, ret_of os sys_ret d, record s { disk = d })

  -- The descriptor that is opened here is never closed; a failed `open` is passed on to `utimensat`.
  unfoldable pub watdfs_utimensat : String → Timespec → Timespec → Server D → ℤ × ℤ × Server D
  unfolding get_full_path
  watdfs_utimensat short_path atim mtim s =
      let full_path = get_full_path short_path s in
      let (open_ret, d) = os.open_file full_path o_rdwr s.disk in
      let ret = ret_of os open_ret d in
      let (sys_ret, d') = os.utimensat open_ret full_path atim mtim d in
      (pos 0, if is_neg sys_ret then neg (os.errno d') else ret, record s { disk = d' })
