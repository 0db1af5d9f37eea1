-- ===== src/Tests/Transfers.antt =====
-- Examples of the theorems on the transfers of watdfs_client.cpp, over the handlers of the server.
use dbs_assignment.Prelude.{◌≡◌, inl, refl, none, some, [], ◌∷◌, arith}
use dbs_assignment.Prelude.Int.{pos, negsuc}
use dbs_assignment.Prelude.Dict.{lookup}
use dbs_assignment.System.{FileInfo}
use dbs_assignment.System.Content.{splice, slice}
use dbs_assignment.System.Memory.{machine_os, path_of, machine_pread}
use dbs_assignment.Rpc.ArgTypes.{max_array_len}
use dbs_assignment.Client.Transfer.{copy_read, copy_write}
use dbs_assignment.Client.Transfer.Writes.{StoresWrites, copy_write-stores}
use dbs_assignment.Client.Transfer.ReadLoop.{ServesReads}
use dbs_assignment.Client.Transfer.Reads.{copy_read-serves}
use dbs_assignment.Delivery.{delivered-StoresWrites, delivered-ServesReads, read-write, read-at_end}
use dbs_assignment.Tests.Regular.{content, Open, regular}
use dbs_assignment.Tests.Link.{length-replicate, short, link, Remote, env, file_of}

abbrev fi : FileInfo
fi = record { flags = 2; fh = 3 }

abbrev opened_server : Remote
opened_server = record {
  open_files_status = [];
  server_persist_dir = "/srv";
  disk = record {
    files = ("/srv/a", file_of (1 ∷ 2 ∷ 3 ∷ []) 7) ∷ [];
    descriptors = none ∷ none ∷ none ∷ some "/srv/a" ∷ [];
    clock = 20;
    last_errno = 0;
  };
}

opened_server-Open : Open "/srv/a" opened_server.disk
unfolding lookup path_of
opened_server-Open = (refl, file_of (1 ∷ 2 ∷ 3 ∷ []) 7, refl)

stored : StoresWrites env "/a" fi (λ s. content "/srv/a" s.disk) (λ s. Open "/srv/a" s.disk)
stored =
    delivered-StoresWrites env machine_os "/a" short fi link (content "/srv/a") (Open "/srv/a")
      (regular "/srv/a")

copy_write-stores_example :
    (s' : Remote) × (copy_write env "/a" (8 ∷ 9 ∷ []) 2 1 fi opened_server ≡ some (pos 2, s'))
    × (content "/srv/a" s'.disk ≡ splice 1 (8 ∷ 9 ∷ []) (content "/srv/a" opened_server.disk))
    × Open "/srv/a" s'.disk
copy_write-stores_example =
    copy_write-stores stored 1 (8 ∷ 9 ∷ []) opened_server (omega arith) (omega arith)
      (inl (omega arith)) opened_server-Open

served : ServesReads env "/a" fi (λ s. content "/srv/a" s.disk) (λ s. Open "/srv/a" s.disk)
served =
    delivered-ServesReads env machine_os "/a" short fi link (content "/srv/a") (Open "/srv/a")
      (regular "/srv/a")

copy_read-serves_example :
    (s' : Remote) × (copy_read env "/a" (0 ∷ 0 ∷ []) 2 1 fi opened_server
      ≡ some (pos 2, slice 1 2 (content "/srv/a" opened_server.disk), s'))
    × (content "/srv/a" s'.disk ≡ content "/srv/a" opened_server.disk)
    × Open "/srv/a" s'.disk
unfolding lookup
copy_read-serves_example =
    copy_read-serves served 1 (0 ∷ 0 ∷ []) opened_server (length-replicate max_array_len)
      (omega arith) (omega arith) (inl (omega arith)) (omega arith) opened_server-Open

delivered-StoresWrites_example :
    StoresWrites env "/a" fi (λ s. content "/srv/a" s.disk) (λ s. Open "/srv/a" s.disk)
delivered-StoresWrites_example =
    delivered-StoresWrites env machine_os "/a" short fi link (content "/srv/a") (Open "/srv/a")
      (regular "/srv/a")

delivered-ServesReads_example :
    ServesReads env "/a" fi (λ s. content "/srv/a" s.disk) (λ s. Open "/srv/a" s.disk)
delivered-ServesReads_example =
    delivered-ServesReads env machine_os "/a" short fi link (content "/srv/a") (Open "/srv/a")
      (regular "/srv/a")

read-write_example :
    (s' : Remote) × (s'' : Remote) × (copy_write env "/a" (8 ∷ 9 ∷ []) 2 1 fi opened_server
      ≡ some (pos 2, s'))
    × (copy_read env "/a" (0 ∷ 0 ∷ []) 2 1 fi s' ≡ some (pos 2, 8 ∷ 9 ∷ [], s''))
    × (content "/srv/a" s''.disk ≡ splice 1 (8 ∷ 9 ∷ []) (content "/srv/a" opened_server.disk))
read-write_example =
    read-write env machine_os "/a" short fi link (content "/srv/a") (Open "/srv/a")
      (regular "/srv/a") 1 (8 ∷ 9 ∷ []) (0 ∷ 0 ∷ []) opened_server (length-replicate max_array_len)
      (omega arith) (omega arith) (inl (omega arith)) refl opened_server-Open

-- Behind the end of the file, after `open` has failed with ENOENT.
abbrev failed_server : Remote
failed_server = record opened_server { disk = record opened_server.disk { last_errno = 2 } }

read-at_end_example :
    copy_read env "/a" (0 ∷ 0 ∷ []) 2 3 fi failed_server
    ≡ some (negsuc 1, 0 ∷ 0 ∷ [], failed_server)
unfolding lookup machine_pread
read-at_end_example =
    read-at_end env machine_os "/a" short fi link (content "/srv/a") (Open "/srv/a")
      (regular "/srv/a") (0 ∷ 0 ∷ []) (0 ∷ 0 ∷ []) 2 3 failed_server failed_server.disk
      (omega arith) refl (omega arith)
