-- ===== src/System/Content.antt =====
-- What pread(2) and pwrite(2) document of the bytes of a file.
use Prim.Native.Nat.add
use dbs_assignment.Prelude.{
  ℕ, zero, suc, ◌+◌, ◌≤◌, arith, length-append, ◌≡◌, refl, ap, ◌∙◌, append-nil, List, [], ◌∷◌, ◌++◌,
  length, take, drop, drop-nil, take-length,
}

-- The file after `bytes` have been written at `offset`; a gap behind its end reads as zeroes.
unfoldable pub splice : ℕ → List ℕ → List ℕ → List ℕ
splice zero bytes file = bytes ++ drop (length bytes) file
splice (suc offset) bytes [] = 0 ∷ splice offset bytes []
splice (suc offset) bytes (x ∷ file) = x ∷ splice offset bytes file

-- At most `size` bytes from `offset` on.
abbrev pub slice : ℕ → ℕ → List ℕ → List ℕ
slice offset size file = take size (drop offset file)

splice-behind :
    (a b file : List ℕ)
    → splice (length a) b (a ++ drop (length a) file) ≡ (a ++ b) ++ drop (length (a ++ b)) file
unfolding splice
splice-behind [] b file = refl
splice-behind (x ∷ a) b [] = ap (λ l. x ∷ l) (simp drop-nil at (splice-behind a b []))
splice-behind (x ∷ a) b (y ∷ file) = ap (λ l. x ∷ l) (splice-behind a b file)

-- Two writes, the second where the first ended, are one write of both.
pub splice-splice :
    (offset : ℕ) (a b file : List ℕ)
    → splice (offset + length a) b (splice offset a file) ≡ splice offset (a ++ b) file
unfolding splice
splice-splice zero a b file = rw add.zero (splice-behind a b file)
splice-splice (suc offset) a b [] = rw add.suc (ap (λ l. 0 ∷ l) (splice-splice offset a b []))
splice-splice (suc offset) a b (x ∷ file) =
    rw add.suc (ap (λ l. x ∷ l) (splice-splice offset a b file))

-- What has been written is read back.
pub slice-splice :
    (offset : ℕ) (bytes file : List ℕ)
    → slice offset (length bytes) (splice offset bytes file) ≡ bytes
unfolding splice
slice-splice zero bytes file = take-length bytes (drop (length bytes) file)
slice-splice (suc offset) bytes [] = slice-splice offset bytes []
slice-splice (suc offset) bytes (x ∷ file) = slice-splice offset bytes file

-- A write leaves the file long enough for what was written.
pub length-splice :
    (offset : ℕ) (bytes file : List ℕ) → offset + length bytes ≤ length (splice offset bytes file)
unfolding splice
length-splice zero bytes file = omega (arith, length-append bytes (drop (length bytes) file))
length-splice (suc offset) bytes [] = omega (arith, length-splice offset bytes [])
length-splice (suc offset) bytes (x ∷ file) = omega (arith, length-splice offset bytes file)

-- A write at the start of an empty file.
pub splice-nil : (bytes : List ℕ) → splice 0 bytes [] ≡ bytes
unfolding splice
splice-nil bytes = ap (λ xs. bytes ++ xs) (drop-nil (length bytes)) ∙ append-nil bytes

-- A write of nothing, at a place that the file has.
pub splice-empty :
    (offset : ℕ) (file : List ℕ) → offset ≤ length file → splice offset [] file ≡ file
unfolding splice
splice-empty zero file h = refl
splice-empty (suc offset) [] h = absurd (omega arith)
splice-empty (suc offset) (x ∷ file) h = ap (λ l. x ∷ l) (splice-empty offset file (omega arith))
