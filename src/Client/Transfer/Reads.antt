-- ===== src/Client/Transfer/Reads.antt =====
-- `copy_read` over a server that answers with the bytes of a file: the calls of one transfer are
-- together one read.
use native.Mathlib.Decide.{dec_le}
use dbs_assignment.Prelude.{
  ◌⊎◌, sym, leb, ℕ, suc, ◌+◌, ◌-◌, ◌*◌, ◌/◌, ◌%◌, ◌≤◌, ◌<◌, ◌≡◌, ◌≢◌, refl, ap, ◌∙◌, List, [], ◌++◌,
  String, true, false, arith, some, length, take-all, overwrite, append-nil, drop-all,
}
use dbs_assignment.Prelude.Int.{pos, int_limit}
use dbs_assignment.System.{FileInfo}
use dbs_assignment.System.Content.{slice}
use dbs_assignment.Rpc.ArgTypes.{max_array_len}
use dbs_assignment.Client.{Env}
use dbs_assignment.Client.Transfer.{start_codes, count_call, transfer_ret, rpc_times, copy_read}
use dbs_assignment.Client.Transfer.Rounds.{rpc_times_lem}
use dbs_assignment.Client.Transfer.ReadLoop.{ServesReads, length-slice, read_loop-Gets}

-- `copy_read` in several calls.
copy_read_chunks :
    {D S : Type 0} {env : Env D S} {path : String} {fi : FileInfo} {content : S → List ℕ}
    {ready : S → Type 0} (server : ServesReads env path fi content ready) (size offset : ℕ)
    (buf : List ℕ) (s : S)
    → size < int_limit
    → size % max_array_len ≢ 0
    → max_array_len < size
    → length (env.uninit.bytes max_array_len) ≡ max_array_len
    → length buf ≡ size
    → offset + size ≤ length (content s)
    → ready s
    → (s' : S) × (copy_read env path buf size offset fi s
        ≡ some (pos size, slice offset size (content s), s'))
      × (content s' ≡ content s)
      × ready s'
unfolding copy_read
copy_read_chunks {env = env} {path = path} {fi = fi} {content = content} server size offset buf s
      small odd big malloc e there up =
    let (c', buf', s', run, ret, kept, up') =
      read_loop-Gets server size offset small odd (size / max_array_len) 1 0 0 size []
        (env.uninit.bytes max_array_len) s (rw rounds_of (omega arith)) (omega arith) (omega arith)
        (omega arith) (omega arith) (omega arith) there up in
    (s', rw (many, rounds_of, run, ret) (ap (λ xs. some (pos size, xs, s')) whole), kept, up')
  where
    many : leb size max_array_len ≡ false
    many = ground arith

    rounds_of : rpc_times size ≡ suc (size / max_array_len)
    rounds_of = omega (arith, rpc_times_lem size small)

    whole :
        overwrite (slice (offset + max_array_len * (1 - 1)) size (content s)) buf
        ≡ slice offset size (content s)
    whole =
        ap (λ at. overwrite (slice at size (content s)) buf) (omega arith)
        ∙ ap (λ xs. slice offset size (content s) ++ xs)
            (drop-all (length (slice offset size (content s))) buf
              (omega (arith, length-slice offset size (content s) there)))
        ∙ append-nil (slice offset size (content s))

-- What one call returns that is answered by the number of its bytes.
once_ret : (n : ℕ) → transfer_ret (count_call start_codes (pos 0) (pos n)) ≡ pos n
unfolding transfer_ret count_call
once_ret n = ground arith

-- `copy_read` in one call.
copy_read_single :
    {D S : Type 0} {env : Env D S} {path : String} {fi : FileInfo} {content : S → List ℕ}
    {ready : S → Type 0} (server : ServesReads env path fi content ready) (size offset : ℕ)
    (buf : List ℕ) (s : S)
    → 0 < size
    → size ≤ max_array_len
    → length buf ≡ size
    → offset + size ≤ length (content s)
    → ready s
    → (s' : S) × (copy_read env path buf size offset fi s
        ≡ some (pos size, slice offset size (content s), s'))
      × (content s' ≡ content s)
      × ready s'
unfolding copy_read
copy_read_single {content = content} server size offset buf s some_bytes few e there up =
    let (s', buf', got, same, bytes, kept, up') =
      server.serves buf size offset (pos 1) s (omega arith) some_bytes few there up in
    (
      s',
      rw (single, got, once_ret size)
          (ap (λ xs. some (pos size, xs, s'))
            (sym (take-all size buf' (omega (arith, same))) ∙ bytes)),
      kept,
      up',
    )
  where
    single : leb size max_array_len ≡ true
    single = ground arith

-- `copy_read` of a whole buffer that is not empty, of bytes that the file has, returns their number
-- and leaves exactly these bytes in the buffer, however many calls it takes; provided that the server
-- is ready, serves every such call and is ready again, that `malloc` gives what it is asked for, and that a buffer longer than
-- 65535 bytes is no multiple of that length, and has less than 2^31 bytes.
pub copy_read-serves :
    {D S : Type 0} {env : Env D S} {path : String} {fi : FileInfo} {content : S → List ℕ}
    {ready : S → Type 0} (server : ServesReads env path fi content ready) (offset : ℕ)
    (buf : List ℕ) (s : S)
    → length (env.uninit.bytes max_array_len) ≡ max_array_len
    → 0 < length buf
    → length buf < int_limit
    → (length buf ≤ max_array_len) ⊎ (length buf % max_array_len ≢ 0)
    → offset + length buf ≤ length (content s)
    → ready s
    → (s' : S) × (copy_read env path buf (length buf) offset fi s
        ≡ some (pos (length buf), slice offset (length buf) (content s), s'))
      × (content s' ≡ content s)
      × ready s'
copy_read-serves server offset buf s malloc some_bytes small fits there up =
    elim (dec_le (length buf) max_array_len) [
      | yes few ↦ copy_read_single server (length buf) offset buf s some_bytes few refl there up
      | no many ↦
          copy_read_chunks server (length buf) offset buf s small (ground arith) (omega arith)
            malloc refl there up
    ]
