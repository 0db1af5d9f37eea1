-- ===== src/Client/Transfer.antt =====
-- `copy_read` and `copy_write` of watdfs_client.cpp, which cut a transfer into calls that fit the
-- arrays of the RPC library. Where one of the `int` counters overflows, C gives the program no
-- meaning, and the functions return `none`.
pub mod Rounds
pub mod Writes
pub mod Multiples
pub mod ReadLoop
pub mod Reads
use dbs_assignment.Prelude.{
  ℕ, zero, suc, ◌+◌, ◌-◌, ◌*◌, ◌/◌, ◌%◌, ◌^◌, Bool, ◌&&◌, Option, none, some, List, [], ◌++◌,
  String, ltb, leb, ◌==◌, if◌then◌else◌, length, take, drop, overwrite,
}
use dbs_assignment.Prelude.Int.{
  ℤ, pos, negsuc, neg, ◌+ℤ◌, is_neg, is_zero, ltb_ℤ, int_limit, is_int,
}
use dbs_assignment.Errno.{einval}
use dbs_assignment.System.{FileInfo}
use dbs_assignment.Rpc.ArgTypes.{max_array_len}
use dbs_assignment.Rpc.Procedures.{read_types, write_types}
use dbs_assignment.Client.{Env}

-- The variables of the two loops that decide how the function returns.
pub record Codes : Type 0 where
  pub rpc_ret : ℤ
  pub return_code : ℤ  -- `returnCode`
  pub filesize : ℤ

abbrev pub start_codes : Codes
start_codes = record { rpc_ret = pos 0; return_code = pos 1; filesize = pos 0 }

-- After a call: `filesize` grows only if the library reports 0.
unfoldable pub count_call : Codes → ℤ → ℤ → Codes
count_call c rpc_ret code = record {
  rpc_ret = rpc_ret;
  return_code = code;
  filesize = if is_zero rpc_ret then c.filesize +ℤ code else c.filesize;
}

-- The test of the `for` loop, but for the number of calls.
unfoldable pub goes_on : Codes → Bool
goes_on c = is_zero c.rpc_ret && ltb_ℤ (pos 0) c.return_code

-- The end of both functions.
unfoldable pub transfer_ret : Codes → ℤ
transfer_ret c =
    if is_neg c.rpc_ret
    then neg einval
    else if is_neg c.return_code
    then c.return_code
    else c.filesize

-- `rpcTimes`: the quotient is a `size_t`, and is converted to an `int`; the loop makes no round if
-- that is negative.
unfoldable pub rpc_times : ℕ → ℕ
rpc_times size =
    let times = (size / max_array_len + 1) % 2 ^ 32 in if ltb times int_limit then times else 0

-- `bufsize` in the round `rpc_count`
unfoldable pub bufsize_of : ℕ → ℕ → ℕ
unfolding rpc_times
bufsize_of size rpc_count =
    if rpc_count == rpc_times size then size - max_array_len * (rpc_count - 1) else max_array_len

-- `mempcpy(tempBufCache, bufCache, returnCode)` behind the bytes in `out`, for a buffer of `size`
-- bytes. A negative count, or one that leaves either buffer, has no meaning in C.
unfoldable pub mempcpy : ℕ → List ℕ → List ℕ → ℤ → Option (List ℕ)
mempcpy size out buf_cache (negsuc n) = none
mempcpy size out buf_cache (pos n) =
    if leb n (length buf_cache) && leb (length out + n) size
    then some (out ++ take n buf_cache)
    else none

module _ {D S : Type 0} (env : Env D S) (path : String) where
  open env use {rpc, sizes, uninit}

  -- Where `copy_read` stands between two calls: its codes, the bytes that it has stored at the
  -- start of the caller's buffer, `bufCache`, and the state behind the library.
  abbrev pub Reading : Type 0
  Reading = Codes × List ℕ × List ℕ × S

  -- The `for` loop; `rounds` is `rpcTimes - rpcCount + 1`, so it is 0 when the count is used up.
  unfoldable pub read_loop : ℕ → ℕ → ℕ → ℕ → FileInfo → Reading → Option Reading
  read_loop zero rpc_count size offset fi st = some st
  read_loop (suc rounds) rpc_count size offset fi (c, out, buf_cache, s) =
      let bufsize = bufsize_of size rpc_count in
      let offset_each = offset + max_array_len * (rpc_count - 1) in
      let (rpc_ret, buf_cache', code, s') =
        rpc.read (read_types sizes path bufsize) path buf_cache bufsize offset_each fi c.return_code
          s in
      let c' = count_call c rpc_ret code in
      let defined = is_int (pos (max_array_len * (rpc_count - 1))) && is_int c'.filesize in
      let rest = λ (out' : List ℕ).
        read_loop rounds (rpc_count + 1) size offset fi (c', out', buf_cache', s') in
      if goes_on c
      then elim (mempcpy size out buf_cache' code) [
        | none ↦ none
        | some out' ↦
            if defined
            then (if ltb_ℤ code (pos bufsize) then some (c', out', buf_cache', s') else rest out')
            else none
      ]
      else some (c, out, buf_cache, s)

  -- What `copy_read` returns, the caller's buffer and the state; `none` where C gives no meaning.
  unfoldable pub copy_read : List ℕ → ℕ → ℕ → FileInfo → S → Option (ℤ × List ℕ × S)
  copy_read buf size offset fi s =
      if leb size max_array_len
      then (let (rpc_ret, buf', code, s') =
            rpc.read (read_types sizes path size) path buf size offset fi (pos 1) s in
          some (transfer_ret (count_call start_codes rpc_ret code), buf', s'))
      else elim (read_loop (rpc_times size) 1 size offset fi
          (start_codes, [], uninit.bytes max_array_len, s)) [
            | none ↦ none
            | some (c, out, _, s') ↦ some (transfer_ret c, overwrite out buf, s')
          ]

  -- Where `copy_write` stands: its codes, the bytes from `tempBufCache` on, and the state.
  abbrev pub Writing : Type 0
  Writing = Codes × List ℕ × S

  unfoldable pub write_loop : ℕ → ℕ → ℕ → ℕ → FileInfo → Writing → Option Writing
  write_loop zero rpc_count size offset fi st = some st
  write_loop (suc rounds) rpc_count size offset fi (c, left, s) =
      let bufsize = bufsize_of size rpc_count in
      let offset_each = offset + max_array_len * (rpc_count - 1) in
      let (rpc_ret, code, s') =
        rpc.write (write_types sizes path bufsize) path (take bufsize left) bufsize offset_each fi
          c.return_code s in
      let c' = count_call c rpc_ret code in
      let defined = is_int (pos (max_array_len * (rpc_count - 1))) && is_int c'.filesize in
      let left' = if is_zero rpc_ret then drop bufsize left else left in
      let rest = write_loop rounds (rpc_count + 1) size offset fi (c', left', s') in
      if goes_on c
      then (if defined
          then (if ltb_ℤ code (pos bufsize) then some (c', left', s') else rest)
          else none)
      else some (c, left, s)

  unfoldable pub copy_write : List ℕ → ℕ → ℕ → FileInfo → S → Option (ℤ × S)
  copy_write buf size offset fi s =
      if leb size max_array_len
      then (let (rpc_ret, code, s') =
            rpc.write (write_types sizes path size) path (take size buf) size offset fi (pos 1) s in
          some (transfer_ret (count_call start_codes rpc_ret code), s'))
      else elim (write_loop (rpc_times size) 1 size offset fi (start_codes, take size buf, s)) [
        | none ↦ none
        | some (c, _, s') ↦ some (transfer_ret c, s')
      ]
