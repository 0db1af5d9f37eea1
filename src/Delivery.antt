-- ===== src/Delivery.antt =====
-- The client's transfers over the server's handlers: the RPC library as rpc.h describes it, which
-- runs the registered function on the arguments of the call, between the stubs of
-- watdfs_client.cpp and the handlers of watdfs_server.cpp.
use dbs_assignment.Prelude.{
  leb, ◌⊎◌, ◌≢◌, ◌%◌, some, ℕ, ◌+◌, ◌≤◌, ◌<◌, ◌≡◌, refl, ap, sym, ◌∙◌, List, ◌++◌, String, arith,
  length, take, drop, overwrite, take-length, take-all, drop-all, append-nil, length-append,
  length-drop, true,
}
use dbs_assignment.Prelude.Int.{ℤ, pos, neg, to_int, int_limit}
use dbs_assignment.System.{Os, FileInfo}
use dbs_assignment.System.Content.{splice, slice, slice-splice, length-splice}
use dbs_assignment.System.Regular.{RegularFile}
use dbs_assignment.Rpc.Library.{Library}
use dbs_assignment.Server.{Server}
use dbs_assignment.Server.Files.{watdfs_read, watdfs_write, ret_of_count}
use dbs_assignment.Client.{Env}
use dbs_assignment.Client.Transfer.Writes.{StoresWrites, copy_write-stores}
use dbs_assignment.Client.Transfer.ReadLoop.{ServesReads, length-slice}
use dbs_assignment.Client.Transfer.Reads.{copy_read-serves}
use dbs_assignment.Client.Transfer.{copy_read, copy_write, transfer_ret, count_call}
use dbs_assignment.Rpc.Procedures.{
  Procedure, read_types, write_types, registered_read, registered_write,
}
use dbs_assignment.Rpc.ArgTypes.{max_array_len, signature, buffer_len}
use dbs_assignment.Rpc.Agreement.{IsShort, client_types-agree, buffer_len-types}

-- A library that carries `write` and `read` to the handlers, once the types of the call are those
-- that were registered: an array travels with the length that its type word declares. One that is
-- only an output starts with unknown bytes on the server, `fresh`, and comes back over the client's.
pub record Delivers {D : Type 0} (os : Os D) (rpc : Library (Server D)) : Type 0 where
  pub fresh : ℕ → List ℕ
  pub length_fresh : (n : ℕ) → length (fresh n) ≡ n
  pub write_lem :
      (types : List ℕ) (path : String) (buf : List ℕ) (size offset : ℕ) (fi : FileInfo) (code : ℤ)
      (s : Server D)
      → signature types ≡ signature registered_write
      → rpc.write types path buf size offset fi code s
        ≡ watdfs_write os path (take (buffer_len types) buf) size offset fi s
  pub read_lem :
      (types : List ℕ) (path : String) (buf : List ℕ) (size offset : ℕ) (fi : FileInfo) (code : ℤ)
      (s : Server D)
      → signature types ≡ signature registered_read
      → rpc.read types path buf size offset fi code s ≡ (
          let (r, got, ret, s') = watdfs_read os path (fresh (buffer_len types)) size offset fi s in
          (r, overwrite got buf, ret, s'))

-- The reply of the handlers to a count that is positive.
ret_of_count-pos :
    {D : Type 0} (os : Os D) (n : ℕ) (d : D) → 0 < n → ret_of_count os (pos n) d ≡ pos n
ret_of_count-pos os n d h = ground arith

overwrite-all : (xs buf : List ℕ) → length xs ≡ length buf → overwrite xs buf ≡ xs
overwrite-all xs buf e =
    ap (λ ys. xs ++ ys) (drop-all (length xs) buf (omega arith)) ∙ append-nil xs

length-overwrite :
    (xs buf : List ℕ) → length xs ≤ length buf → length (overwrite xs buf) ≡ length buf
length-overwrite xs buf h =
    omega (arith, length-append xs (drop (length xs) buf), length-drop (length xs) buf)

take-overwrite : (n : ℕ) (xs buf : List ℕ) → length xs ≡ n → take n (overwrite xs buf) ≡ xs
take-overwrite n xs buf e =
    ap (λ m. take m (overwrite xs buf)) (sym e) ∙ take-length xs (drop (length xs) buf)

module _ {D : Type 0} (env : Env D (Server D)) (os : Os D) (path : String)
    (short : IsShort env.sizes path max_array_len) (fi : FileInfo)
    (link : Delivers os env.rpc) where
  -- The calls of the client are short enough with any buffer that an array holds.
  up_to : (n : ℕ) → n ≤ max_array_len → IsShort env.sizes path n
  up_to n h = record {
    path_fits = short.path_fits;
    stat_fits = short.stat_fits;
    fuse_file_info_fits = short.fuse_file_info_fits;
    timespec_fits = short.timespec_fits;
    buffer_fits = omega arith;
  }

  -- A write call with a chunk of the declared length is the handler on that chunk.
  write_call :
      (chunk : List ℕ) (n offset : ℕ) (code : ℤ) (s : Server D)
      → length chunk ≡ n
      → n ≤ max_array_len
      → env.rpc.write (write_types env.sizes path n) path chunk n offset fi code s
        ≡ watdfs_write os path chunk n offset fi s
  write_call chunk n offset code s e h =
      link.write_lem (write_types env.sizes path n) path chunk n offset fi code s
        (client_types-agree env.sizes path n (up_to n h) Procedure.write)
      ∙ ap (λ xs. watdfs_write os path xs n offset fi s)
          (ap (λ l. take l chunk) (buffer_len-types env.sizes path n (omega arith)).1
            ∙ take-all n chunk (omega arith))

  -- A read call is the handler on an array of the declared length.
  read_call :
      (buf : List ℕ) (n offset : ℕ) (code : ℤ) (s : Server D)
      → n ≤ max_array_len
      → env.rpc.read (read_types env.sizes path n) path buf n offset fi code s ≡ (
          let (r, got, ret, s') = watdfs_read os path (link.fresh n) n offset fi s in
          (r, overwrite got buf, ret, s'))
  read_call buf n offset code s h =
      link.read_lem (read_types env.sizes path n) path buf n offset fi code s
        (client_types-agree env.sizes path n (up_to n h) Procedure.read)
      ∙ ap
          (λ l.
            let (r, got, ret, s') = watdfs_read os path (link.fresh l) n offset fi s in
            (r, overwrite got buf, ret, s'))
          (buffer_len-types env.sizes path n (omega arith)).0

module _ {D : Type 0} (env : Env D (Server D)) (os : Os D) (path : String)
    (short : IsShort env.sizes path max_array_len) (fi : FileInfo) (link : Delivers os env.rpc)
    (file : D → List ℕ) (valid : D → Type 0)
    (regular : RegularFile os (to_int fi.fh) file valid) where
  -- The handler of `write`, behind a library that delivers, answers every write call of a client as
  -- `copy_write` needs it, on a descriptor of a regular file, if neither the path nor a structure is
  -- longer than 65535 bytes.
  pub delivered-StoresWrites : StoresWrites env path fi (λ s. file s.disk) (λ s. valid s.disk)
  unfolding watdfs_write
  delivered-StoresWrites = record {
    stores = λ chunk n offset code s e some_bytes fits up.
        let (d', sent, stored, up') = regular.pwrite_lem chunk offset s.disk up (omega arith) in
        (
          record s { disk = d' },
          write_call env os path short fi link chunk n offset code s e fits
              ∙ rw (← e, sent, ret_of_count-pos os (length chunk) d' (omega arith)) refl,
          stored,
          up',
        );
  }

  -- The handler of `read`, behind a library that delivers, answers every read call of bytes that
  -- the file has as `copy_read` needs it, on a descriptor of a regular file, if neither the path nor a
  -- structure is longer than 65535 bytes.
  pub delivered-ServesReads : ServesReads env path fi (λ s. file s.disk) (λ s. valid s.disk)
  unfolding watdfs_read
  delivered-ServesReads = record {
    serves = λ buf n offset code s room some_bytes fits there up.
        let (d', got, kept, up') =
          regular.pread_lem (link.fresh n) n offset s.disk up (omega (arith, link.length_fresh n))
            (omega arith) there in
        (
          record s { disk = d' },
          overwrite (slice offset n (file s.disk)) buf,
          read_call env os path short fi link buf n offset code s fits
              ∙ rw (got, ret_of_count-pos os n d' some_bytes)
                  (ap (λ xs. (pos 0, overwrite xs buf, pos n, record s { disk = d' }))
                    (overwrite-all (slice offset n (file s.disk)) (link.fresh n)
                      (length-slice offset n (file s.disk) there ∙ sym (link.length_fresh n)))),
          length-overwrite (slice offset n (file s.disk)) buf
              (omega (arith, length-slice offset n (file s.disk) there)),
          take-overwrite n (slice offset n (file s.disk)) buf
              (length-slice offset n (file s.disk) there),
          kept,
          up',
        );
  }

  -- A buffer that is not empty, written by `copy_write` through the handlers of the server, is what
  -- `copy_read` then reads at the same offset, in however many calls, and the file is the old one
  -- with the buffer at the offset; provided that the library delivers calls of the registered types,
  -- that neither the path nor a structure is longer than 65535 bytes, that the buffer has less than
  -- 2^31 bytes and, if it has more than 65535, no multiple of that, that the descriptor is one of a
  -- regular file, and that `malloc` succeeds.
  pub read-write :
      (offset : ℕ) (buf room : List ℕ) (s : Server D)
      → length (env.uninit.bytes max_array_len) ≡ max_array_len
      → 0 < length buf
      → length buf < int_limit
      → (length buf ≤ max_array_len) ⊎ (length buf % max_array_len ≢ 0)
      → length room ≡ length buf
      → valid s.disk
      → (s' : Server D) × (s'' : Server D) × (copy_write env path buf (length buf) offset fi s
          ≡ some (pos (length buf), s'))
        × (copy_read env path room (length buf) offset fi s' ≡ some (pos (length buf), buf, s''))
        × (file s''.disk ≡ splice offset buf (file s.disk))
  read-write offset buf room s malloc some_bytes small fits same up =
      let (s', sent, stored, up') =
        copy_write-stores delivered-StoresWrites offset buf s some_bytes small fits up in
      let long : offset + length buf ≤ length (file s'.disk) =
        omega (arith, ap length stored, length-splice offset buf (file s.disk)) in
      let (s'', got, kept, up'') =
        copy_read-serves delivered-ServesReads offset room s' malloc (omega arith) (omega arith)
          (ground (arith, same)) (omega (arith, same)) up' in
      (
        s',
        s'',
        sent,
        ap (λ n. copy_read env path room n offset fi s') (sym same)
            ∙ got
            ∙ ap (λ n. some (pos n, slice offset n (file s'.disk), s'')) same
            ∙ ap (λ f. some (pos (length buf), slice offset (length buf) f, s'')) stored
            ∙ ap (λ xs. some (pos (length buf), xs, s'')) (slice-splice offset buf (file s.disk)),
        kept ∙ stored,
      )

  -- The handler reports a read that finds no byte as a failure, with -errno of whatever call has
  -- failed last, and so does `copy_read` of at most 65535 bytes at the end of a file, once `errno`
  -- is not 0, if neither the path nor a structure is longer than 65535 bytes.
  pub read-at_end :
      (buf got : List ℕ) (size offset : ℕ) (s : Server D) (d : D)
      → size ≤ max_array_len
      → os.pread (to_int fi.fh) (link.fresh size) size offset s.disk ≡ (pos 0, got, d)
      → 0 < os.errno d
      → copy_read env path buf size offset fi s
        ≡ some (neg (os.errno d), overwrite got buf, record s { disk = d })
  unfolding watdfs_read copy_read transfer_ret count_call
  read-at_end buf got size offset s d few e failed =
      rw (single, read_call env os path short fi link buf size offset (pos 1) s few, e)
        (ground arith)
    where
      single : leb size max_array_len ≡ true
      single = ground arith
