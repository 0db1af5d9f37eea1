-- ===== src/Tests/Multiples.antt =====
-- An example of the theorem on buffers whose length is a multiple of 65535.
use dbs_assignment.Prelude.{
  ℕ, ◌≡◌, ◌<◌, ◌≤◌, refl, ap, sym, ◌∙◌, none, some, List, [], ◌∷◌, arith, length, take, take-all,
  replicate,
}
use dbs_assignment.Prelude.Int.{ℤ, pos, negsuc, neg}
use dbs_assignment.Prelude.Dict.{lookup, insert, lookup-insert_same}
use dbs_assignment.System.{FileInfo}
use dbs_assignment.System.Content.{splice, splice-empty}
use dbs_assignment.System.Memory.{File, Machine, machine_os, path_of}
use dbs_assignment.Rpc.ArgTypes.{max_array_len, buffer_len}
use dbs_assignment.Rpc.Procedures.{write_types}
use dbs_assignment.Rpc.Agreement.{buffer_len-types}
use dbs_assignment.Server.Files.{watdfs_write, ret_of_count}
use dbs_assignment.Client.Transfer.{copy_write}
use dbs_assignment.Client.Transfer.Writes.{StoresWrites}
use dbs_assignment.Client.Transfer.Multiples.{RefusesNothing, copy_write-multiple}
use dbs_assignment.Tests.Link.{Remote, env, file_of, length-replicate}
use dbs_assignment.Tests.Regular.{bytes_of, content, Open, on_open}

abbrev fi : FileInfo
fi = record { flags = 2; fh = 3 }

-- The descriptor is open, and the last failure was ENOENT.
abbrev Failed : Remote → Type 0
Failed s = Open "/srv/a" s.disk × (s.disk.last_errno ≡ 2)

abbrev written_file : File → List ℕ → ℕ → ℕ → Machine → File
written_file file buf n offset d = record file {
  bytes = splice offset (take n buf) file.bytes;
  mtim = record { tv_sec = d.clock; tv_nsec = 0 };
}

abbrev written : File → List ℕ → ℕ → ℕ → Machine → Machine
written file buf n offset d = record d {
  files = insert "/srv/a" (written_file file buf n offset d) d.files;
}

write_call :
    (file : File) (types buf : List ℕ) (n offset : ℕ) (code : ℤ) (s : Remote)
    → take (buffer_len types) buf ≡ buf
    → path_of (pos 3) s.disk ≡ some "/srv/a"
    → lookup "/srv/a" s.disk.files ≡ some file
    → env.rpc.write types "/a" buf n offset fi code s ≡ (
      pos 0,
      ret_of_count machine_os (pos n) (written file buf n offset s.disk),
      record s { disk = written file buf n offset s.disk },
    )
unfolding watdfs_write
write_call file types buf n offset code s whole e found =
    rw
      (
        whole,
        on_open 3 "/srv/a" s.disk file (λ f. written_file f buf n offset s.disk) (pos n) e found,
      )
      refl

whole_chunk :
    (chunk : List ℕ) (n : ℕ)
    → length chunk ≡ n
    → n ≤ max_array_len
    → take (buffer_len (write_types env.sizes "/a" n)) chunk ≡ chunk
whole_chunk chunk n e h =
    ap (λ l. take l chunk) (buffer_len-types env.sizes "/a" n (omega arith)).1
    ∙ take-all n chunk (omega arith)

positive : (n : ℕ) (d : Machine) → 0 < n → ret_of_count machine_os (pos n) d ≡ pos n
positive n d h = ground arith

nothing : (d : Machine) → d.last_errno ≡ 2 → ret_of_count machine_os (pos 0) d ≡ negsuc 1
nothing d e = ap neg e

stored : StoresWrites env "/a" fi (λ s. content "/srv/a" s.disk) Failed
unfolding path_of
stored = record {
  stores = λ chunk n offset code s same some_bytes fits up.
      let (e, file, found) = up.0 in
      let d' = written file chunk n offset s.disk in
      let file' = written_file file chunk n offset s.disk in
      (
        record s { disk = d' },
        write_call file (write_types env.sizes "/a" n) chunk n offset code s
              (whole_chunk chunk n same fits) e found
            ∙ ap (λ c. (pos 0, c, record s { disk = d' })) (positive n d' some_bytes),
        ap bytes_of (lookup-insert_same "/srv/a" file' s.disk.files)
            ∙ ap (λ xs. splice offset xs file.bytes) (take-all n chunk (omega arith))
            ∙ ap (λ o. splice offset chunk (bytes_of o)) (sym found),
        ((e, file', lookup-insert_same "/srv/a" file' s.disk.files), up.1),
      );
}

refusing : RefusesNothing env "/a" fi 1 (λ s. content "/srv/a" s.disk) Failed
unfolding path_of
refusing = record {
  refuses = λ offset m s up inside.
      let (e, file, found) = up.0 in
      let d' = written file [] 0 offset s.disk in
      let file' = written_file file [] 0 offset s.disk in
      (
        record s { disk = d' },
        write_call file (write_types env.sizes "/a" 0) [] 0 offset (pos 0) s
              (whole_chunk [] 0 refl (omega arith)) e found
            ∙ ap (λ c. (pos 0, c, record s { disk = d' })) (nothing d' (up.1)),
        ap bytes_of (lookup-insert_same "/srv/a" file' s.disk.files)
            ∙ splice-empty offset file.bytes (omega (arith, ap (λ o. length (bytes_of o)) found))
            ∙ ap bytes_of (sym found),
        ((e, file', lookup-insert_same "/srv/a" file' s.disk.files), up.1),
      );
}

abbrev failed_server : Remote
failed_server = record {
  open_files_status = [];
  server_persist_dir = "/srv";
  disk = record {
    files = ("/srv/a", file_of (1 ∷ 2 ∷ 3 ∷ []) 7) ∷ [];
    descriptors = none ∷ none ∷ none ∷ some "/srv/a" ∷ [];
    clock = 20;
    last_errno = 2;
  };
}

copy_write-multiple_example :
    (s' : Remote) × (copy_write env "/a" (replicate 131070 0) 131070 1 fi failed_server
      ≡ some (negsuc 1, s'))
    × (content "/srv/a" s'.disk
        ≡ splice 1 (replicate 131070 0) (content "/srv/a" failed_server.disk))
unfolding lookup path_of
copy_write-multiple_example =
    copy_write-multiple stored 1 refusing 131070 1 (omega arith) (omega arith) (replicate 131070 0)
      failed_server (length-replicate 131070) (omega arith) (omega arith) ((refl, _, refl), refl)
