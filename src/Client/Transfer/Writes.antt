-- ===== src/Client/Transfer/Writes.antt =====
-- `copy_write` over a server that stores what it is sent: the calls of one transfer are together
-- one write of the whole buffer.
use native.Mathlib.Decide.{dec_le}
use dbs_assignment.Prelude.{
  leb, ℕ, zero, suc, ◌+◌, ◌-◌, ◌*◌, ◌/◌, ◌%◌, ◌≤◌, ◌<◌, ◌≡◌, ◌≢◌, ◌⊎◌, refl, ap, ◌∙◌, List, [],
  Option, some, String, true, false, arith, length, take, drop, length-take, length-drop,
  take-append-drop, take-all, drop-all,
}
use dbs_assignment.Prelude.Int.{ℤ, pos, int_limit}
use dbs_assignment.System.{FileInfo}
use dbs_assignment.System.Content.{splice, splice-splice}
use dbs_assignment.Rpc.ArgTypes.{max_array_len}
use dbs_assignment.Rpc.Procedures.{write_types}
use dbs_assignment.Client.Transfer.Rounds.{
  running, goes_on-running, count_call-running, not-short, sums-defined, bufsize_of-last,
  bufsize_of-full, last-fits, not_last-fits, rpc_times_lem, transfer_ret-running,
}
use dbs_assignment.Client.{Env}
use dbs_assignment.Client.Transfer.{
  Codes, Writing, count_call, transfer_ret, rpc_times, bufsize_of, write_loop, copy_write,
}

-- A write call that carries at least one byte and no more than an array holds is answered by the
-- number of its bytes, they are in the file that `content` shows, and the server stays `ready`.
pub record StoresWrites {D S : Type 0} (env : Env D S) (path : String) (fi : FileInfo)
    (content : S → List ℕ) (ready : S → Type 0) : Type 0 where
  pub stores :
      (chunk : List ℕ) (n offset : ℕ) (code : ℤ) (s : S)
      → length chunk ≡ n
      → 0 < n
      → n ≤ max_array_len
      → ready s
      → (s' : S) × (env.rpc.write (write_types env.sizes path n) path chunk n offset fi code s
          ≡ (pos 0, pos n, s'))
        × (content s' ≡ splice offset chunk (content s))
        × ready s'

-- One round, once its call has been answered by the number of its bytes.
write_loop-round :
    {D S : Type 0} (env : Env D S) (path : String) (fi : FileInfo) (rounds k size offset m f n : ℕ)
    (left : List ℕ) (s s' : S)
    → bufsize_of size k ≡ suc n
    → env.rpc.write
        (write_types env.sizes path (suc n))
        path
        (take (suc n) left)
        (suc n)
        (offset + max_array_len * (k - 1))
        fi
        (pos (suc m))
        s
      ≡ (pos 0, pos (suc n), s')
    → max_array_len * (k - 1) < int_limit
    → f + suc n < int_limit
    → write_loop env path (suc rounds) k size offset fi (running m f, left, s)
      ≡ write_loop env path rounds
          (k + 1)
          size
          offset
          fi
          (running n (f + suc n), drop (suc n) left, s')
unfolding write_loop
write_loop-round env path fi rounds k size offset m f n left s s' eb sent h h' = rw (
  eb,
  sent,
  goes_on-running m f,
  count_call-running m f n,
  sums-defined k (f + suc n) h h',
  not-short (suc n),
)

-- A chunk and what is behind it, written one after the other, are written as a whole.
pub two_chunks :
    (at at' : ℕ) (left file : List ℕ)
    → at' ≡ at + length (take 65535 left)
    → splice at' (drop 65535 left) (splice at (take 65535 left) file) ≡ splice at left file
two_chunks at at' left file e =
    ap (λ x. splice x (drop 65535 left) (splice at (take 65535 left) file)) e
    ∙ splice-splice at (take 65535 left) (drop 65535 left) file
    ∙ ap (λ l. splice at l file) (take-append-drop 65535 left)

module _ {D S : Type 0} {env : Env D S} {path : String} {fi : FileInfo} {content : S → List ℕ}
    {ready : S → Type 0} (server : StoresWrites env path fi content ready) (size offset : ℕ) where
  pub write_one :
      (rounds k m f n : ℕ) (left : List ℕ) (s : S)
      → bufsize_of size k ≡ suc n
      → suc n ≤ max_array_len
      → suc n ≤ length left
      → max_array_len * (k - 1) < int_limit
      → f + suc n < int_limit
      → ready s
      → (s' : S) × (write_loop env path (suc rounds) k size offset fi (running m f, left, s)
          ≡ write_loop env path rounds
              (k + 1)
              size
              offset
              fi
              (running n (f + suc n), drop (suc n) left, s'))
        × (content s' ≡ splice (offset + max_array_len * (k - 1)) (take (suc n) left) (content s))
        × ready s'
  write_one rounds k m f n left s eb fits enough h h' up =
      let (s', sent, stored, up') =
        server.stores (take (suc n) left) (suc n) (offset + max_array_len * (k - 1)) (pos (suc m)) s
          (omega (arith, length-take (suc n) left)) (omega arith) fits up in
      (
        s',
        write_loop-round env path fi rounds k size offset m f n left s s' eb sent h h',
        stored,
        up',
      )

module _ {D S : Type 0} {env : Env D S} {path : String} {fi : FileInfo} {content : S → List ℕ}
    {ready : S → Type 0} (server : StoresWrites env path fi content ready) (size offset : ℕ)
    (small : size < int_limit) (odd : size % max_array_len ≢ 0) where
  -- What the loop leaves when `left` is still to be sent to the place `at`.
  abbrev Sends : Option (Writing env path) → ℕ → List ℕ → S → Type 0
  Sends result at left s =
      (c' : Codes) × (s' : S) × (result ≡ some (c', [], s'))
      × (transfer_ret c' ≡ pos size)
      × (content s' ≡ splice at left (content s))
      × ready s'

  write_loop-Sends :
      (rounds k m f : ℕ) (left : List ℕ) (s : S)
      → suc rounds + k ≡ rpc_times size + 1
      → 1 ≤ k
      → length left + max_array_len * (k - 1) ≡ size
      → f + length left ≡ size
      → ready s
      → Sends
          (write_loop env path (suc rounds) k size offset fi (running m f, left, s))
          (offset + max_array_len * (k - 1))
          left
          s
  unfolding write_loop
  write_loop-Sends zero k m f left s er pk el ef up =
      let last : k ≡ rpc_times size = omega arith in
      let (some_left, fits) = last-fits size k (length left) last el small odd in
      let n = length left - 1 in
      let (s', run, stored, up') =
        write_one server size offset zero k m f n left s
          (bufsize_of-last size k last ∙ omega (arith, some_left)) (omega (arith, some_left, fits))
          (omega (arith, some_left)) (omega (arith, some_left)) (omega (arith, some_left)) up in
      (
        running n (f + suc n),
        s',
        run ∙ ap (λ l. some (running n (f + suc n), l, s')) (drop-all (suc n) left (omega arith)),
        transfer_ret-running n (f + suc n) ∙ ap pos (omega (arith, some_left)),
        stored
            ∙ ap (λ l. splice (offset + max_array_len * (k - 1)) l (content s))
                (take-all (suc n) left (omega arith)),
        up',
      )
  write_loop-Sends (suc rounds) k m f left s er pk el ef up =
      let full = not_last-fits size k (length left) (omega arith) pk el small in
      let (s', run, stored, up') =
        write_one server size offset (suc rounds) k m f 65534 left s
          (bufsize_of-full size k (omega arith)) (omega arith) full (omega arith)
          (omega (arith, full)) up in
      let (c'', s'', run', ret, stored', up'') =
        write_loop-Sends rounds (k + 1) 65534 (f + 65535) (drop 65535 left) s' (omega arith)
          (omega arith) (omega (arith, length-drop 65535 left, full))
          (omega (arith, length-drop 65535 left, full)) up' in
      (
        c'',
        s'',
        run ∙ run',
        ret,
        stored'
            ∙ ap (λ file. splice (offset + max_array_len * (k + 1 - 1)) (drop 65535 left) file)
                stored
            ∙ two_chunks (offset + max_array_len * (k - 1)) (offset + max_array_len * (k + 1 - 1))
                left (content s) (omega (arith, length-take 65535 left, full)),
        up'',
      )

  -- `copy_write` of a whole buffer.
  pub copy_write_chunks :
      (buf : List ℕ) (s : S)
      → length buf ≡ size
      → max_array_len < size
      → ready s
      → (s' : S) × (copy_write env path buf size offset fi s ≡ some (pos size, s'))
        × (content s' ≡ splice offset buf (content s))
        × ready s'
  unfolding copy_write
  copy_write_chunks buf s e big up =
      let (c', s', run, ret, stored, up') =
        write_loop-Sends (size / max_array_len) 1 0 0 buf s (rw rounds_of (omega arith))
          (omega arith) (omega arith) (omega arith) up in
      (
        s',
        rw (many, take-all size buf (omega arith), rounds_of, run) (ap (λ r. some (r, s')) ret),
        stored ∙ ap (λ at. splice at buf (content s)) at_start,
        up',
      )
    where
      many : leb size max_array_len ≡ false
      many = ground arith

      rounds_of : rpc_times size ≡ suc (size / max_array_len)
      rounds_of = omega (arith, rpc_times_lem size small)

      at_start : offset + max_array_len * (1 - 1) ≡ offset
      at_start = omega arith

-- One call for all.
copy_write_single :
    {D S : Type 0} {env : Env D S} {path : String} {fi : FileInfo} {content : S → List ℕ}
    {ready : S → Type 0} (server : StoresWrites env path fi content ready) (offset : ℕ)
    (buf : List ℕ) (s : S)
    → 0 < length buf
    → length buf ≤ max_array_len
    → ready s
    → (s' : S) × (copy_write env path buf (length buf) offset fi s ≡ some (pos (length buf), s'))
      × (content s' ≡ splice offset buf (content s))
      × ready s'
unfolding copy_write count_call transfer_ret
copy_write_single server offset buf s some_bytes few up =
    let (s', sent, stored, up') =
      server.stores buf (length buf) offset (pos 1) s refl some_bytes few up in
    (s', rw (single, take-all (length buf) buf (omega arith), sent) (ground arith), stored, up')
  where
    single : leb (length buf) max_array_len ≡ true
    single = ground arith

-- `copy_write` of a whole buffer that is not empty returns the number of its bytes, and the file on
-- the server is what one write of the buffer at the offset makes of it, however many calls it takes;
-- provided that the server is ready, stores every call that carries a byte and is ready again, and that a buffer longer than
-- 65535 bytes is no multiple of that length, and has less than 2^31 bytes.
pub copy_write-stores :
    {D S : Type 0} {env : Env D S} {path : String} {fi : FileInfo} {content : S → List ℕ}
    {ready : S → Type 0} (server : StoresWrites env path fi content ready) (offset : ℕ)
    (buf : List ℕ) (s : S)
    → 0 < length buf
    → length buf < int_limit
    → (length buf ≤ max_array_len) ⊎ (length buf % max_array_len ≢ 0)
    → ready s
    → (s' : S) × (copy_write env path buf (length buf) offset fi s ≡ some (pos (length buf), s'))
      × (content s' ≡ splice offset buf (content s))
      × ready s'
copy_write-stores server offset buf s some_bytes small fits up =
    elim (dec_le (length buf) max_array_len) [
      | yes few ↦ copy_write_single server offset buf s some_bytes few up
      | no many ↦
          copy_write_chunks server (length buf) offset small (ground arith) buf s refl (omega arith)
            up
    ]
