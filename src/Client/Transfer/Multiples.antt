-- ===== src/Client/Transfer/Multiples.antt =====
-- `copy_write` of a buffer whose length is a multiple of what an array holds: a last call without
-- bytes follows the others, and its code is the one that is returned.
use dbs_assignment.Prelude.{
  ℕ, zero, suc, ◌+◌, ◌-◌, ◌*◌, ◌/◌, ◌%◌, ◌≤◌, ◌<◌, ◌≡◌, refl, ap, ◌∙◌, List, [], Option, some, ◌&&◌,
  String, true, false, leb, arith, length, take, drop, length-take, length-drop, take-all, drop-all,
}
use dbs_assignment.Prelude.Int.{pos, negsuc, int_limit, is_int}
use dbs_assignment.System.{FileInfo}
use dbs_assignment.System.Content.{splice, length-splice}
use dbs_assignment.Rpc.ArgTypes.{max_array_len}
use dbs_assignment.Rpc.Procedures.{write_types}
use dbs_assignment.Client.{Env}
use dbs_assignment.Client.Transfer.{
  Codes, Writing, count_call, transfer_ret, rpc_times, write_loop, copy_write,
}
use dbs_assignment.Client.Transfer.Rounds.{
  running, goes_on-running, bufsize_of-full, bufsize_of-last, not_last-fits, rpc_times_lem,
}
use dbs_assignment.Client.Transfer.Writes.{StoresWrites, write_one, two_chunks}

-- A write call without bytes, at a place that the file has, is answered by a negative code, changes
-- no byte and leaves the server ready.
pub record RefusesNothing {D S : Type 0} (env : Env D S) (path : String) (fi : FileInfo) (e : ℕ)
    (content : S → List ℕ) (ready : S → Type 0) : Type 0 where
  pub refuses :
      (offset m : ℕ) (s : S)
      → ready s
      → offset ≤ length (content s)
      → (s' : S) × (env.rpc.write (write_types env.sizes path 0) path [] 0 offset fi (pos (suc m)) s
          ≡ (pos 0, negsuc e, s'))
        × (content s' ≡ content s)
        × ready s'

-- Its two sums are `int`s.
failed-defined :
    (k m f e : ℕ)
    → max_array_len * (k - 1) < int_limit
    → f < int_limit
    → e < int_limit
    → (is_int (pos (max_array_len * (k - 1)))
        && is_int (count_call (running m f) (pos 0) (negsuc e)).filesize)
      ≡ true
unfolding count_call
failed-defined k m f e h h' int = ground arith

-- The last round.
write_loop-empty :
    {D S : Type 0} (env : Env D S) (path : String) (fi : FileInfo) (e k size offset m f : ℕ)
    (s s' : S)
    → env.rpc.write
        (write_types env.sizes path 0)
        path
        []
        0
        (offset + max_array_len * (k - 1))
        fi
        (pos (suc m))
        s
      ≡ (pos 0, negsuc e, s')
    → k ≡ rpc_times size
    → size ≡ max_array_len * (k - 1)
    → size < int_limit
    → f < int_limit
    → e < int_limit
    → write_loop env path 1 k size offset fi (running m f, [], s)
      ≡ some (count_call (running m f) (pos 0) (negsuc e), [], s')
unfolding write_loop
write_loop-empty env path fi e k size offset m f s s' sent last whole small small' int =
    rw
      (
        bufsize_of-last size k last ∙ nothing,
        goes_on-running m f,
        sent,
        failed-defined k m f e (omega arith) small' int,
      )
      (ground arith)
  where
    nothing : size - max_array_len * (k - 1) ≡ 0
    nothing = omega arith

transfer_ret-failed :
    (m f e : ℕ) → transfer_ret (count_call (running m f) (pos 0) (negsuc e)) ≡ negsuc e
unfolding transfer_ret count_call
transfer_ret-failed m f e = refl

-- A transfer that does not fit one call is the loop.
copy_write-loop :
    {D S : Type 0} (env : Env D S) (path : String) (fi : FileInfo) (size offset rounds : ℕ)
    (buf : List ℕ) (s : S) (c' : Codes) (s' : S)
    → max_array_len < size
    → rpc_times size ≡ rounds
    → length buf ≤ size
    → write_loop env path rounds 1 size offset fi (running 0 0, buf, s) ≡ some (c', [], s')
    → copy_write env path buf size offset fi s ≡ some (transfer_ret c', s')
unfolding copy_write
copy_write-loop env path fi size offset rounds buf s c' s' big times fits run =
    rw (many, take-all size buf fits, times, run) refl
  where
    many : leb size max_array_len ≡ false
    many = ground arith

module _ {D S : Type 0} {env : Env D S} {path : String} {fi : FileInfo} {content : S → List ℕ}
    {ready : S → Type 0} (server : StoresWrites env path fi content ready) (e : ℕ)
    (refusing : RefusesNothing env path fi e content ready) (size offset : ℕ)
    (small : size < int_limit) (int : e < int_limit) where
  -- What the loop leaves when the bytes in `left` have been sent to the place `at`.
  abbrev Fails : Option (Writing env path) → ℕ → List ℕ → S → Type 0
  Fails result at left s =
      (c' : Codes) × (s' : S) × (result ≡ some (c', [], s'))
      × (transfer_ret c' ≡ negsuc e)
      × (content s' ≡ splice at left (content s))
      × ready s'

  write_loop-Fails :
      (rounds k m f : ℕ) (left : List ℕ) (s : S)
      → suc (suc rounds) + k ≡ rpc_times size + 1
      → 1 ≤ k
      → length left + max_array_len * (k - 1) ≡ size
      → f + length left ≡ size
      → size % max_array_len ≡ 0
      → ready s
      → Fails
          (write_loop env path (suc (suc rounds)) k size offset fi (running m f, left, s))
          (offset + max_array_len * (k - 1))
          left
          s
  write_loop-Fails zero k m f left s er pk el ef even up =
      let next_last : k + 1 ≡ rpc_times size = omega arith in
      let exact : length left ≡ 65535 = omega (arith, rpc_times_lem size small) in
      let (s', run, stored, up') =
        write_one server size offset 1 k m f 65534 left s (bufsize_of-full size k (omega arith))
          (omega arith) (omega arith) (omega arith) (omega (arith, exact)) up in
      let end_of : offset + max_array_len * (k + 1 - 1) ≤ length (content s') = omega (
        arith,
        ap length stored,
        length-take 65535 left,
        length-splice (offset + max_array_len * (k - 1)) (take 65535 left) (content s),
      ) in
      let (s'', sent, kept, up'') =
        refusing.refuses (offset + max_array_len * (k + 1 - 1)) 65534 s' up' end_of in
      (
        count_call (running 65534 (f + 65535)) (pos 0) (negsuc e),
        s'',
        run
            ∙ ap
                (λ l.
                  write_loop env path 1 (k + 1) size offset fi (running 65534 (f + 65535), l, s'))
                (drop-all 65535 left (omega arith))
            ∙ write_loop-empty env path fi e (k + 1) size offset 65534 (f + 65535) s' s'' sent
                next_last (omega arith) small (omega (arith, exact)) int,
        transfer_ret-failed 65534 (f + 65535) e,
        kept
            ∙ stored
            ∙ ap (λ l. splice (offset + max_array_len * (k - 1)) l (content s))
                (take-all 65535 left (omega arith)),
        up'',
      )
  write_loop-Fails (suc rounds) k m f left s er pk el ef even up =
      let full = not_last-fits size k (length left) (omega arith) pk el small in
      let (s', run, stored, up') =
        write_one server size offset (suc (suc rounds)) k m f 65534 left s
          (bufsize_of-full size k (omega arith)) (omega arith) full (omega arith)
          (omega (arith, full)) up in
      let (c'', s'', run', ret, stored', up'') =
        write_loop-Fails rounds (k + 1) 65534 (f + 65535) (drop 65535 left) s' (omega arith)
          (omega arith) (omega (arith, length-drop 65535 left, full))
          (omega (arith, length-drop 65535 left, full)) even up' in
      (
        c'',
        s'',
        run ∙ run',
        ret,
        stored'
            ∙ ap (λ file. splice (offset + max_array_len * (k + 1 - 1)) (drop 65535 left) file)
                stored
            ∙ two_chunks (offset + max_array_len * (k - 1)) (offset + max_array_len * (k + 1 - 1))
                left (content s) (omega (arith, length-take 65535 left, full)),
        up'',
      )

  -- `copy_write` of a buffer that is longer than 65535 bytes, a multiple of that length and less than 2^31 bytes returns the
  -- negative code of a last call that carries no byte, although all bytes of the buffer are stored as
  -- one write of it would; provided that the server answers such a call with a negative `int`.
  pub copy_write-multiple :
      (buf : List ℕ) (s : S)
      → length buf ≡ size
      → max_array_len < size
      → size % max_array_len ≡ 0
      → ready s
      → (s' : S) × (copy_write env path buf size offset fi s ≡ some (negsuc e, s'))
        × (content s' ≡ splice offset buf (content s))
  copy_write-multiple buf s same big even up =
      let (c', s', run, ret, stored, up') =
        write_loop-Fails (size / max_array_len - 1) 1 0 0 buf s
          (omega (arith, rpc_times_lem size small)) (omega arith) (omega arith) (omega arith) even
          up in
      (
        s',
        copy_write-loop env path fi size offset (suc (suc (size / max_array_len - 1))) buf s c' s'
              big (omega (arith, rpc_times_lem size small)) (omega arith) run
            ∙ ap (λ r. some (r, s')) ret,
        stored ∙ ap (λ at. splice at buf (content s)) at_start,
      )
    where
      at_start : offset + max_array_len * (1 - 1) ≡ offset
      at_start = omega arith
