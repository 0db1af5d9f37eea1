-- ===== src/Client/Transfer/ReadLoop.antt =====
-- The loop of `copy_read` over a server that answers with the bytes of a file.
use dbs_assignment.Prelude.{
  append_assoc, sym, ℕ, zero, suc, ◌+◌, ◌-◌, ◌*◌, ◌%◌, ◌≤◌, ◌<◌, ◌≡◌, ◌≢◌, refl, ap, ◌∙◌, List,
  ◌++◌, String, arith, Option, some, length, take, drop, length-append, length-take, length-drop,
  take-take, drop-drop,
}
use dbs_assignment.Prelude.Int.{ℤ, pos, int_limit}
use dbs_assignment.System.{FileInfo}
use dbs_assignment.System.Content.{slice}
use dbs_assignment.Rpc.ArgTypes.{max_array_len}
use dbs_assignment.Rpc.Procedures.{read_types}
use dbs_assignment.Client.{Env}
use dbs_assignment.Client.Transfer.{
  Codes, Reading, transfer_ret, rpc_times, bufsize_of, mempcpy, read_loop,
}
use dbs_assignment.Client.Transfer.Rounds.{
  running, goes_on-running, count_call-running, not-short, sums-defined, bufsize_of-last,
  bufsize_of-full, last-fits, not_last-fits, transfer_ret-running,
}

-- A read call for at least one byte, for no more than an array holds and for no more than the file
-- has behind the offset is answered by the number of its bytes, and they stand at the start of the
-- buffer, whose length is kept. The file is `content`, and does not change.
pub record ServesReads {D S : Type 0} (env : Env D S) (path : String) (fi : FileInfo)
    (content : S → List ℕ) (ready : S → Type 0) : Type 0 where
  pub serves :
      (buf : List ℕ) (n offset : ℕ) (code : ℤ) (s : S)
      → n ≤ length buf
      → 0 < n
      → n ≤ max_array_len
      → offset + n ≤ length (content s)
      → ready s
      → (s' : S) × (buf' : List ℕ) × (env.rpc.read
            (read_types env.sizes path n)
            path
            buf
            n
            offset
            fi
            code
            s
          ≡ (pos 0, buf', pos n, s'))
        × (length buf' ≡ length buf)
        × (take n buf' ≡ slice offset n (content s))
        × (content s' ≡ content s)
        × ready s'

-- One round, once its call has been answered by the number of its bytes.
mempcpy-fits :
    (size n : ℕ) (out buf : List ℕ)
    → n ≤ length buf
    → length out + n ≤ size
    → mempcpy size out buf (pos n) ≡ some (out ++ take n buf)
unfolding mempcpy
mempcpy-fits size n out buf h k = ground arith

read_loop-round :
    {D S : Type 0} (env : Env D S) (path : String) (fi : FileInfo) (rounds k size offset m f n : ℕ)
    (out buf buf' : List ℕ) (s s' : S)
    → bufsize_of size k ≡ suc n
    → env.rpc.read
        (read_types env.sizes path (suc n))
        path
        buf
        (suc n)
        (offset + max_array_len * (k - 1))
        fi
        (pos (suc m))
        s
      ≡ (pos 0, buf', pos (suc n), s')
    → suc n ≤ length buf'
    → length out + suc n ≤ size
    → max_array_len * (k - 1) < int_limit
    → f + suc n < int_limit
    → read_loop env path (suc rounds) k size offset fi (running m f, out, buf, s)
      ≡ read_loop env path rounds
          (k + 1)
          size
          offset
          fi
          (running n (f + suc n), out ++ take (suc n) buf', buf', s')
unfolding read_loop
read_loop-round env path fi rounds k size offset m f n out buf buf' s s' eb got h h' small small' =
    rw (eb, got, goes_on-running m f, mempcpy-fits size (suc n) out buf' h h')
      (rw
        (
          eb,
          got,
          count_call-running m f n,
          sums-defined k (f + suc n) small small',
          not-short (suc n),
        )
        refl)

-- Two pieces of the file, the second where the first ends, are one piece.
slice-slice :
    (at at' l l' : ℕ) (file : List ℕ)
    → at' ≡ at + 65535
    → l ≡ 65535 + l'
    → slice at 65535 file ++ slice at' l' file ≡ slice at l file
slice-slice at at' l l' file e e' =
    ap (λ x. slice at 65535 file ++ slice x l' file) e
    ∙ ap (λ xs. slice at 65535 file ++ take l' xs) (sym (drop-drop 65535 at file))
    ∙ take-take 65535 l' (drop at file)
    ∙ ap (λ x. slice at x file) (sym e')

pub length-slice : (at n : ℕ) (file : List ℕ) → at + n ≤ length file → length (slice at n file) ≡ n
length-slice at n file h = omega (arith, length-take n (drop at file), length-drop at file)

module _ {D S : Type 0} {env : Env D S} {path : String} {fi : FileInfo} {content : S → List ℕ}
    {ready : S → Type 0} (server : ServesReads env path fi content ready) (size offset : ℕ)
    (small : size < int_limit) (odd : size % max_array_len ≢ 0) where
  -- What the loop leaves when `l` bytes from the place `at` on are still to be read.
  abbrev pub Gets : Option (Reading env path) → ℕ → ℕ → List ℕ → S → Type 0
  Gets result at l out s =
      (c' : Codes) × (buf' : List ℕ) × (s' : S) × (result
        ≡ some (c', out ++ slice at l (content s), buf', s'))
      × (transfer_ret c' ≡ pos size)
      × (content s' ≡ content s)
      × ready s'

  read_one :
      (rounds k m f n : ℕ) (out buf : List ℕ) (s : S)
      → bufsize_of size k ≡ suc n
      → suc n ≤ max_array_len
      → max_array_len ≤ length buf
      → length out + suc n ≤ size
      → max_array_len * (k - 1) < int_limit
      → f + suc n < int_limit
      → offset + max_array_len * (k - 1) + suc n ≤ length (content s)
      → ready s
      → (s' : S) × (buf' : List ℕ) × (read_loop env path
            (suc rounds)
            k
            size
            offset
            fi
            (running m f, out, buf, s)
          ≡ read_loop env path rounds (k + 1) size offset fi (
            running n (f + suc n),
            out ++ slice (offset + max_array_len * (k - 1)) (suc n) (content s),
            buf',
            s',
          ))
        × (length buf' ≡ length buf)
        × (content s' ≡ content s)
        × ready s'
  read_one rounds k m f n out buf s eb fits room inside h h' there up =
      let (s', buf', got, same, bytes, kept, up') =
        server.serves buf (suc n) (offset + max_array_len * (k - 1)) (pos (suc m)) s (omega arith)
          (omega arith) fits there up in
      (
        s',
        buf',
        read_loop-round env path fi rounds k size offset m f n out buf buf' s s' eb got
              (omega arith) inside h h'
            ∙ ap
                (λ xs.
                  read_loop env path rounds (k + 1) size offset fi
                    (running n (f + suc n), out ++ xs, buf', s'))
                bytes,
        same,
        kept,
        up',
      )

  pub read_loop-Gets :
      (rounds k m f l : ℕ) (out buf : List ℕ) (s : S)
      → suc rounds + k ≡ rpc_times size + 1
      → 1 ≤ k
      → l + max_array_len * (k - 1) ≡ size
      → f + l ≡ size
      → length out + l ≡ size
      → max_array_len ≤ length buf
      → offset + size ≤ length (content s)
      → ready s
      → Gets
          (read_loop env path (suc rounds) k size offset fi (running m f, out, buf, s))
          (offset + max_array_len * (k - 1))
          l
          out
          s
  unfolding read_loop
  read_loop-Gets zero k m f l out buf s er pk el ef eo room there up =
      let last : k ≡ rpc_times size = omega arith in
      let (some_left, fits) = last-fits size k l last el small odd in
      let n = l - 1 in
      let whole : suc n ≡ l = omega (arith, some_left) in
      let (s', buf', run, same, kept, up') =
        read_one zero k m f n out buf s (bufsize_of-last size k last ∙ omega (arith, some_left))
          (omega (arith, some_left, fits)) room (omega (arith, some_left))
          (omega (arith, some_left)) (omega (arith, some_left)) (omega (arith, some_left)) up in
      (
        running n (f + suc n),
        buf',
        s',
        run
            ∙ ap
                (λ x. some (
                  running n (f + suc n),
                  out ++ slice (offset + max_array_len * (k - 1)) x (content s),
                  buf',
                  s',
                ))
                whole,
        transfer_ret-running n (f + suc n) ∙ ap pos (omega (arith, some_left)),
        kept,
        up',
      )
  read_loop-Gets (suc rounds) k m f l out buf s er pk el ef eo room there up =
      let full = not_last-fits size k l (omega arith) pk el small in
      let at = offset + max_array_len * (k - 1) in
      let (s', buf', run, same, kept, up') =
        read_one (suc rounds) k m f 65534 out buf s (bufsize_of-full size k (omega arith))
          (omega arith) room (omega (arith, full)) (omega arith) (omega (arith, full))
          (omega (arith, full)) up in
      let got = slice at 65535 (content s) in
      let (c'', buf'', s'', run', ret, kept', up'') =
        read_loop-Gets rounds (k + 1) 65534 (f + 65535) (l - 65535) (out ++ got) buf' s'
          (omega arith) (omega arith) (omega (arith, full)) (omega (arith, full))
          (omega (
            arith,
            full,
            length-append out got,
            length-slice at 65535 (content s) (omega (arith, full)),
          ))
          (omega (arith, same)) (omega (arith, ap length kept)) up' in
      (
        c'',
        buf'',
        s'',
        run
            ∙ run'
            ∙ ap (λ xs. some (c'', xs, buf'', s''))
                (ap
                    (λ file.
                      (out ++ got) ++ slice (offset + max_array_len * (k + 1 - 1)) (l - 65535) file)
                    kept
                  ∙ append_assoc out got
                      (slice (offset + max_array_len * (k + 1 - 1)) (l - 65535) (content s))
                  ∙ ap (λ xs. out ++ xs)
                      (slice-slice at (offset + max_array_len * (k + 1 - 1)) l (l - 65535)
                        (content s) (omega arith) (omega (arith, full)))),
        ret,
        kept' ∙ kept,
        up'',
      )
