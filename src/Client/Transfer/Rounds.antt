-- ===== src/Client/Transfer/Rounds.antt =====
-- The rounds of the loops of `copy_read` and `copy_write`: their codes, and how many bytes each carries.
use dbs_assignment.Prelude.{
  ℕ, suc, ◌+◌, ◌-◌, ◌*◌, ◌/◌, ◌%◌, ◌≤◌, ◌<◌, ◌≡◌, ◌≢◌, refl, true, false, ◌&&◌, arith,
}
use dbs_assignment.Prelude.Int.{pos, ltb_ℤ, int_limit, is_int}
use dbs_assignment.Rpc.ArgTypes.{max_array_len}
use dbs_assignment.Client.Transfer.{Codes, goes_on, count_call, transfer_ret, rpc_times, bufsize_of}

-- The codes of the loop after `m + 1` bytes in the last call and `f` in all.
abbrev pub running : ℕ → ℕ → Codes
running m f = record { rpc_ret = pos 0; return_code = pos (suc m); filesize = pos f }

pub goes_on-running : (m f : ℕ) → goes_on (running m f) ≡ true
unfolding goes_on
goes_on-running m f = ground arith

pub count_call-running :
    (m f n : ℕ) → count_call (running m f) (pos 0) (pos (suc n)) ≡ running n (f + suc n)
unfolding count_call
count_call-running m f n = ground arith

pub not-short : (n : ℕ) → ltb_ℤ (pos n) (pos n) ≡ false
not-short n = ground arith

-- The number of bytes of each round: full arrays, and the rest in the last round.
pub bufsize_of-last :
    (size k : ℕ) → k ≡ rpc_times size → bufsize_of size k ≡ size - max_array_len * (k - 1)
unfolding bufsize_of
bufsize_of-last size k e = ground arith

pub bufsize_of-full : (size k : ℕ) → k < rpc_times size → bufsize_of size k ≡ max_array_len
unfolding bufsize_of
bufsize_of-full size k h = ground arith

-- The conversion to `int` keeps the count.
pub rpc_times_lem : (size : ℕ) → size < int_limit → rpc_times size ≡ size / max_array_len + 1
unfolding rpc_times
rpc_times_lem size small = ground arith

-- The two sums of a round are `int`s.
pub sums-defined :
    (k f : ℕ)
    → max_array_len * (k - 1) < int_limit
    → f < int_limit
    → (is_int (pos (max_array_len * (k - 1))) && is_int (pos f)) ≡ true
sums-defined k f h h' = ground arith

-- In the last round something is left, unless the size is a multiple of the length of an array.
pub last-fits :
    (size k l : ℕ)
    → k ≡ rpc_times size
    → l + max_array_len * (k - 1) ≡ size
    → size < int_limit
    → size % max_array_len ≢ 0
    → (0 < l) × (l ≤ max_array_len)
last-fits size k l e el small h = omega (arith, rpc_times_lem size small)

pub not_last-fits :
    (size k l : ℕ)
    → k < rpc_times size
    → 1 ≤ k
    → l + max_array_len * (k - 1) ≡ size
    → size < int_limit
    → max_array_len ≤ l
not_last-fits size k l e pk el small = omega (arith, rpc_times_lem size small)

pub transfer_ret-running : (m f : ℕ) → transfer_ret (running m f) ≡ pos f
unfolding transfer_ret
transfer_ret-running m f = refl
