-- ===== src/Rpc/Agreement.antt =====
-- The client calls what the server has registered, and declares the arrays that it passes.
use dbs_assignment.Prelude.{ℕ, ◌*◌, ◌+◌, len, List, [], ◌∷◌, ◌<◌, ◌≡◌, String, arith}
use dbs_assignment.Rpc.ArgTypes.{
  pathlen, in_long, signature, signature-cons, signature-in_chars, signature-out_chars,
  signature-in_out_chars, array_lens, array_lens-in_long, array_lens-in_chars, array_lens-out_chars,
  array_lens-in_out_chars, buffer_len, array_len-chars,
}
use dbs_assignment.Rpc.Procedures.{
  Sizes, Procedure, getattr, mknod, open_file, release, read, write, truncate, fsync, utimensat,
  lock, unlock, client_types, registered_types, read_types, write_types,
}

-- Every array of a call is short enough for the 16 bits of its length.
pub record IsShort (sizes : Sizes) (path : String) (n : ℕ) : Type 0 where
  pub path_fits : pathlen path < 65536
  pub stat_fits : sizes.stat < 65536
  pub fuse_file_info_fits : sizes.fuse_file_info < 65536
  pub timespec_fits : sizes.timespec * 2 < 65536
  pub buffer_fits : n < 65536

-- Each of the eleven calls of the client has the directions, types and number of arguments that the
-- server registered for it, if no array of the call is longer than 65535 bytes.
pub client_types-agree :
    (sizes : Sizes) (path : String) (n : ℕ)
    → IsShort sizes path n
    → (p : Procedure) → signature (client_types sizes path n p) ≡ signature (registered_types p)
unfolding signature
client_types-agree sizes path n s getattr =
    rw (
      signature-in_chars (pathlen path) _ s.path_fits,
      signature-out_chars sizes.stat _ s.stat_fits,
    )
client_types-agree sizes path n s mknod = rw (signature-in_chars (pathlen path) _ s.path_fits)
client_types-agree sizes path n s open_file = rw (
  signature-in_chars (pathlen path) _ s.path_fits,
  signature-in_out_chars sizes.fuse_file_info _ s.fuse_file_info_fits,
)
client_types-agree sizes path n s release = rw (
  signature-in_chars (pathlen path) _ s.path_fits,
  signature-in_chars sizes.fuse_file_info _ s.fuse_file_info_fits,
)
client_types-agree sizes path n s read = rw (
  signature-in_chars (pathlen path) _ s.path_fits,
  signature-out_chars n _ s.buffer_fits,
  signature-cons in_long _ (omega arith),
  signature-cons in_long _ (omega arith),
  signature-in_chars sizes.fuse_file_info _ s.fuse_file_info_fits,
)
client_types-agree sizes path n s write = rw (
  signature-in_chars (pathlen path) _ s.path_fits,
  signature-in_chars n _ s.buffer_fits,
  signature-cons in_long _ (omega arith),
  signature-cons in_long _ (omega arith),
  signature-in_chars sizes.fuse_file_info _ s.fuse_file_info_fits,
)
client_types-agree sizes path n s truncate = rw (signature-in_chars (pathlen path) _ s.path_fits)
client_types-agree sizes path n s fsync = rw (
  signature-in_chars (pathlen path) _ s.path_fits,
  signature-in_chars sizes.fuse_file_info _ s.fuse_file_info_fits,
)
client_types-agree sizes path n s utimensat = rw (
  signature-in_chars (pathlen path) _ s.path_fits,
  signature-in_chars (sizes.timespec * 2) _ s.timespec_fits,
)
client_types-agree sizes path n s lock = rw (signature-in_chars (pathlen path) _ s.path_fits)
client_types-agree sizes path n s unlock = rw (signature-in_chars (pathlen path) _ s.path_fits)

-- The lengths of the arrays that a stub passes: the path with its end, and the structures and the
-- buffer that the procedure carries.
abbrev pub passed_lens : Sizes → String → ℕ → Procedure → List ℕ
passed_lens sizes path n getattr = (len path + 1) ∷ sizes.stat ∷ []
passed_lens sizes path n mknod = (len path + 1) ∷ []
passed_lens sizes path n open_file = (len path + 1) ∷ sizes.fuse_file_info ∷ []
passed_lens sizes path n release = (len path + 1) ∷ sizes.fuse_file_info ∷ []
passed_lens sizes path n read = (len path + 1) ∷ n ∷ sizes.fuse_file_info ∷ []
passed_lens sizes path n write = (len path + 1) ∷ n ∷ sizes.fuse_file_info ∷ []
passed_lens sizes path n truncate = (len path + 1) ∷ []
passed_lens sizes path n fsync = (len path + 1) ∷ sizes.fuse_file_info ∷ []
passed_lens sizes path n utimensat = (len path + 1) ∷ (sizes.timespec * 2) ∷ []
passed_lens sizes path n lock = (len path + 1) ∷ []
passed_lens sizes path n unlock = (len path + 1) ∷ []

-- Each of the eleven calls of the client declares its arrays with the lengths of what it passes, in
-- order: the path and its final zero, then the buffer of `n` bytes or the structure that the call
-- carries, if no array of the call is longer than 65535 bytes.
pub client_types-lens :
    (sizes : Sizes) (path : String) (n : ℕ)
    → IsShort sizes path n
    → (p : Procedure) → array_lens (client_types sizes path n p) ≡ passed_lens sizes path n p
unfolding array_lens
client_types-lens sizes path n s getattr = rw (
  array_lens-in_chars (pathlen path) _ s.path_fits,
  array_lens-out_chars sizes.stat _ s.stat_fits,
)
client_types-lens sizes path n s mknod = rw (array_lens-in_chars (pathlen path) _ s.path_fits)
client_types-lens sizes path n s open_file = rw (
  array_lens-in_chars (pathlen path) _ s.path_fits,
  array_lens-in_out_chars sizes.fuse_file_info _ s.fuse_file_info_fits,
)
client_types-lens sizes path n s release = rw (
  array_lens-in_chars (pathlen path) _ s.path_fits,
  array_lens-in_chars sizes.fuse_file_info _ s.fuse_file_info_fits,
)
client_types-lens sizes path n s read = rw (
  array_lens-in_chars (pathlen path) _ s.path_fits,
  array_lens-out_chars n _ s.buffer_fits,
  array_lens-in_long _,
  array_lens-in_long _,
  array_lens-in_chars sizes.fuse_file_info _ s.fuse_file_info_fits,
)
client_types-lens sizes path n s write = rw (
  array_lens-in_chars (pathlen path) _ s.path_fits,
  array_lens-in_chars n _ s.buffer_fits,
  array_lens-in_long _,
  array_lens-in_long _,
  array_lens-in_chars sizes.fuse_file_info _ s.fuse_file_info_fits,
)
client_types-lens sizes path n s truncate = rw (array_lens-in_chars (pathlen path) _ s.path_fits)
client_types-lens sizes path n s fsync = rw (
  array_lens-in_chars (pathlen path) _ s.path_fits,
  array_lens-in_chars sizes.fuse_file_info _ s.fuse_file_info_fits,
)
client_types-lens sizes path n s utimensat = rw (
  array_lens-in_chars (pathlen path) _ s.path_fits,
  array_lens-in_chars (sizes.timespec * 2) _ s.timespec_fits,
)
client_types-lens sizes path n s lock = rw (array_lens-in_chars (pathlen path) _ s.path_fits)
client_types-lens sizes path n s unlock = rw (array_lens-in_chars (pathlen path) _ s.path_fits)

-- The buffer of `read` and `write` is declared with the number of bytes that the call asks for.
pub buffer_len-types :
    (sizes : Sizes) (path : String) (n : ℕ)
    → n < 65536
    → (buffer_len (read_types sizes path n) ≡ n) × (buffer_len (write_types sizes path n) ≡ n)
unfolding buffer_len
buffer_len-types sizes path n h =
    let (in_len, out_len, _) = array_len-chars n h in (out_len, in_len)
