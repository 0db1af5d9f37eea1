-- ===== src/Lib.antt =====
-- WatDFS: a distributed file system of two programs, a client behind FUSE with a cache of whole files
-- and a server, which talk through an RPC library.
--
-- The parts and their files:
--   * rw_lock.h, rw_lock.cpp: the readers-writers lock. Lock has `RwLock` (`rw_lock_t`) and the four
--     functions, a critical section at a time; a call that reaches `pthread_cond_wait` is `waiting`,
--     and each return of the wait is one more `lock_round`; `rw_lock_unlock` says whether it has
--     called `pthread_cond_broadcast`. Lock/Threads interleaves any number of threads: a thread that
--     sleeps runs again only after a broadcast, or when its wait returns without a signal.
--     Lock/Exclusion, Lock/Signals, Lock/Waiting and Lock/Calls prove.
--   * rpc.h: Rpc/ArgTypes and Rpc/Procedures have the argument types of the eleven procedures as the
--     client writes and as the server registers them, Rpc/Agreement compares them. The library is
--     linked as a binary: `Rpc.Library.Library` is its interface, a parameter.
--   * watdfs_server.cpp: Server has the globals (`openFilesStatus_s`, `server_persist_dir`) as a
--     record. Server/Files, Server/Opens and Server/Locks have one function for each handler
--     (`watdfs_getattr` to `watdfs_unlock`), Server/Startup has `main`. Server/Openers, Server/Sharing, Server/Locking,
--     Server/Steps and Server/Reachable follow the map through any sequence of calls. There a handler
--     runs without another in between, although the library may run handlers at once and nothing
--     guards the map; only a lock call sleeps in the middle, and goes on with `resume_lock`.
--     Server/Races has two opens that do run at once.
--   * watdfs_client.cpp: Client has `files_status` and `file_meta`; Client/Monad the statements, with
--     early returns; Client/Stubs the `copy_` functions of one call, Client/Transfer `copy_read` and
--     `copy_write` with their loops, Client/Cache the freshness check, Client/Copies `cli_downloadFile`
--     (here `cli_download_file`) and `cli_write_back`, Client/Opens and Client/Access the operations
--     that FUSE calls, Client/Setup `watdfs_cli_init` and `watdfs_cli_destroy`. The other children prove.
--   * Delivery joins the two programs: the transfers of the client over the handlers of the server.
--
-- The system calls are a parameter, `System.Os`, over an unknown state of the machine, and nothing is
-- assumed of them but what a theorem names; System/Regular says what the manual pages promise of a
-- regular file. System/Memory is a machine on which the examples run, under Tests with a library that
-- runs the server's handlers at once. What a `malloc` or a local variable holds before it is written is
-- a parameter too, `Client.Uninit`.
--
-- Numbers: a descriptor that is kept in a `uint64_t` is wrapped (`to_u64`, `to_int`); the words of the
-- argument types keep 32 bits; `rpcTimes` is converted to an `int`, and where the `int` sums of the
-- transfers (`filesize`, `MAX_ARRAY_LEN * (rpcCount - 1)`) overflow, or a `memcpy` has a negative count,
-- C has no meaning, and `copy_read` and `copy_write` are `none`. Sizes and offsets, which are 64 bits
-- wide, are unbounded. The loops of the transfers recurse on the number of rounds that is left,
-- `rpcTimes` at the start as in the source, so no fuel is needed.
--
-- DLOG prints unless NDEBUG is defined; two of its arguments create a key of a map, and so
-- `watdfs_release` and `watdfs_cli_open` have a parameter `logging`. Not modelled: the printing, the
-- freeing of memory, the Python scripts, and the binaries of the RPC library and of the FUSE front end.
pub mod Prelude
pub mod Errno
pub mod Lock
pub mod Rpc
pub mod System
pub mod Server
pub mod Client
pub mod Delivery
pub mod Tests
