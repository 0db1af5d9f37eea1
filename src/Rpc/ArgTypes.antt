-- ===== src/Rpc/ArgTypes.antt =====
-- The words of `arg_types`, as rpc.h lays them out: direction and array flags in the top bits, the
-- type in the third byte, the length of an array in the low half; a word 0 ends the list.
use Prim.Native.Nat.{bit_or}
use dbs_assignment.Prelude.{
  ℕ, ◌+◌, ◌*◌, ◌/◌, ◌%◌, ◌^◌, ◌<◌, ◌≡◌, refl, ap, ◌∙◌, false, Bool, List, [], ◌∷◌, String, len,
  ◌==◌, if◌then◌else◌, arith,
}
use dbs_assignment.Rpc.Bits.{or-low_half}

abbrev pub arg_char : ℕ
arg_char = 1

abbrev pub arg_int : ℕ
arg_int = 3

abbrev pub arg_long : ℕ
arg_long = 4

abbrev pub arg_input : ℕ
arg_input = 31

abbrev pub arg_output : ℕ
arg_output = 30

abbrev pub arg_array : ℕ
arg_array = 29

abbrev pub max_array_len : ℕ
max_array_len = 65535

infixl 20 ◌|||◌
abbrev pub ◌|||◌ : ℕ → ℕ → ℕ
a ||| b = bit_or a b

-- `a << k`, for a result that fits an unsigned int
infixl 60 ◌<<◌
abbrev pub ◌<<◌ : ℕ → ℕ → ℕ
a << k = a * 2 ^ k

-- the type words of the stubs; `n` is the length of the array
abbrev pub in_chars : ℕ → ℕ
in_chars n = 1 << arg_input ||| 1 << arg_array ||| arg_char << 16 ||| n

abbrev pub out_chars : ℕ → ℕ
out_chars n = 1 << arg_output ||| 1 << arg_array ||| arg_char << 16 ||| n

abbrev pub in_out_chars : ℕ → ℕ
in_out_chars n = 1 << arg_input ||| 1 << arg_output ||| 1 << arg_array ||| arg_char << 16 ||| n

abbrev pub in_int : ℕ
in_int = 1 << arg_input ||| arg_int << 16

abbrev pub in_long : ℕ
in_long = 1 << arg_input ||| arg_long << 16

abbrev pub out_int : ℕ
out_int = 1 << arg_output ||| arg_int << 16

-- `strlen(path) + 1`
abbrev pub pathlen : String → ℕ
pathlen path = len path + 1

-- What a word says, by its fields.
pub record ArgShape : Type 0 where
  pub is_input : Bool
  pub is_output : Bool
  pub is_array : Bool
  pub type_code : ℕ

abbrev pub shape : ℕ → ArgShape
shape w = record {
  is_input = w / 2 ^ 31 % 2 == 1;
  is_output = w / 2 ^ 30 % 2 == 1;
  is_array = w / 2 ^ 29 % 2 == 1;
  type_code = w / 2 ^ 16 % 2 ^ 8;
}

abbrev pub array_len : ℕ → ℕ
array_len w = w % 2 ^ 16

-- The declared length of the second argument, the buffer of `read` and `write`
unfoldable pub buffer_len : List ℕ → ℕ
buffer_len [] = 0
buffer_len (p ∷ []) = 0
buffer_len (p ∷ b ∷ ws) = array_len b

-- The arguments that a list of words describes, up to the word 0.
unfoldable pub signature : List ℕ → List ArgShape
signature [] = []
signature (w ∷ ws) = if w == 0 then [] else shape w ∷ signature ws

pub signature-cons : (w : ℕ) (ws : List ℕ) → 0 < w → signature (w ∷ ws) ≡ shape w ∷ signature ws
unfolding signature
signature-cons w ws h = let nonzero : (w == 0) ≡ false = ground arith in rw nonzero refl

-- An array word keeps its flags and its type whatever the length, as long as that fits 16 bits.
module _ (n : ℕ) (ws : List ℕ) (h : n < 65536) where
  shape-in_chars : shape (in_chars n) ≡ shape (in_chars 1)
  shape-in_chars = rw (or-low_half 0xa001 n h) (ground arith)

  pub signature-in_chars : signature (in_chars n ∷ ws) ≡ shape (in_chars 1) ∷ signature ws
  signature-in_chars =
      signature-cons (in_chars n) ws (rw (or-low_half 0xa001 n h) (omega arith))
      ∙ ap (λ x. x ∷ signature ws) shape-in_chars

  shape-out_chars : shape (out_chars n) ≡ shape (out_chars 1)
  shape-out_chars = rw (or-low_half 0x6001 n h) (ground arith)

  pub signature-out_chars : signature (out_chars n ∷ ws) ≡ shape (out_chars 1) ∷ signature ws
  signature-out_chars =
      signature-cons (out_chars n) ws (rw (or-low_half 0x6001 n h) (omega arith))
      ∙ ap (λ x. x ∷ signature ws) shape-out_chars

  shape-in_out_chars : shape (in_out_chars n) ≡ shape (in_out_chars 1)
  shape-in_out_chars = rw (or-low_half 0xe001 n h) (ground arith)

  pub signature-in_out_chars :
      signature (in_out_chars n ∷ ws) ≡ shape (in_out_chars 1) ∷ signature ws
  signature-in_out_chars =
      signature-cons (in_out_chars n) ws (rw (or-low_half 0xe001 n h) (omega arith))
      ∙ ap (λ x. x ∷ signature ws) shape-in_out_chars

-- The lengths of the arrays that a list of words describes, up to the word 0.
unfoldable pub array_lens : List ℕ → List ℕ
array_lens [] = []
array_lens (w ∷ ws) =
    let rest = array_lens ws in
    if w == 0 then [] else if (shape w).is_array then array_len w ∷ rest else rest

-- The length of an array can be read back.
pub array_len-chars :
    (n : ℕ)
    → n < 65536
    → (array_len (in_chars n) ≡ n)
      × (array_len (out_chars n) ≡ n)
      × (array_len (in_out_chars n) ≡ n)
array_len-chars n h =
    rw (or-low_half 0xa001 n h, or-low_half 0x6001 n h, or-low_half 0xe001 n h)
      (omega arith, omega arith, omega arith)

module _ (n : ℕ) (ws : List ℕ) (h : n < 65536) where
  pub array_lens-in_chars : array_lens (in_chars n ∷ ws) ≡ n ∷ array_lens ws
  unfolding array_lens
  array_lens-in_chars = rw (or-low_half 0xa001 n h) (ground arith)

  pub array_lens-out_chars : array_lens (out_chars n ∷ ws) ≡ n ∷ array_lens ws
  unfolding array_lens
  array_lens-out_chars = rw (or-low_half 0x6001 n h) (ground arith)

  pub array_lens-in_out_chars : array_lens (in_out_chars n ∷ ws) ≡ n ∷ array_lens ws
  unfolding array_lens
  array_lens-in_out_chars = rw (or-low_half 0xe001 n h) (ground arith)

pub array_lens-in_long : (ws : List ℕ) → array_lens (in_long ∷ ws) ≡ array_lens ws
unfolding array_lens
array_lens-in_long ws = refl
