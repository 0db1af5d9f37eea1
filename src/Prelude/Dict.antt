-- ===== src/Prelude/Dict.antt =====
-- `std::map<std::string, V>` as an association list.
use Prim.Native.String.{String}
use mathlib.Core.Path.{◌≡◌, refl}
use mathlib.Core.Bool.{Bool, true, false}
use mathlib.Core.Option.{Option, none, some}
use mathlib.Core.List.{List, [], ◌∷◌}
use native.Mathlib.Omega.{arith}
use text.Mathlib.Text.{◌==◌}
use text.Mathlib.TextEquality.{eq_iff}
use text.Mathlib.TextPositions.{eq_refl}
use dbs_assignment.Prelude.Tests.{if◌then◌else◌}

abbrev pub Dict {ℓ} : Type ℓ → Type ℓ
Dict V = List (String × V)

module _ {ℓ} {V : Type ℓ} where
  unfoldable pub lookup : String → Dict V → Option V
  lookup k [] = none
  lookup k ((j, v) ∷ m) = if j == k then some v else lookup k m

  -- `m[k] = v`
  unfoldable pub insert : String → V → Dict V → Dict V
  insert k v [] = (k, v) ∷ []
  insert k v ((j, w) ∷ m) = if j == k then (k, v) ∷ m else (j, w) ∷ insert k v m

  -- `m.erase(k)`; every entry of the key goes, so that a key is never found again.
  unfoldable pub erase : String → Dict V → Dict V
  erase k [] = []
  erase k ((j, w) ∷ m) = if j == k then erase k m else (j, w) ∷ erase k m

  -- What a key is bound to after another, or the same one, has been written.
  pub lookup-insert :
      (written read : String) (x : V) (m : Dict V)
      → lookup read (insert written x m) ≡ (if written == read then some x else lookup read m)
  unfolding lookup insert
  lookup-insert written read x [] = refl
  lookup-insert written read x ((key, y) ∷ m) = ground (
    arith,
    lookup-insert written read x m,
    eq_iff written read,
    eq_iff key written,
    eq_iff key read,
  )

  pub lookup-insert_same : (k : String) (v : V) (m : Dict V) → lookup k (insert k v m) ≡ some v
  lookup-insert_same k v m = rw (lookup-insert, eq_refl) refl

  pub lookup-erase :
      (k j : String) (m : Dict V) → lookup j (erase k m) ≡ (if k == j then none else lookup j m)
  unfolding lookup erase
  lookup-erase k j [] = ground arith
  lookup-erase k j ((i, w) ∷ m) =
      ground (arith, eq_iff k j, eq_iff i k, eq_iff i j, lookup-erase k j m)

-- `m.find(k) != m.end()`
abbrev pub contains {ℓ} : {V : Type ℓ} → String → Dict V → Bool
contains k m = elim (lookup k m) [ none ↦ false | some _ ↦ true ]

-- The value that `m[k]` refers to: the one found, or the zero value that it creates.
abbrev pub get_or {ℓ} : {V : Type ℓ} → V → String → Dict V → V
get_or zeroes k m = elim (lookup k m) [ none ↦ zeroes | some v ↦ v ]

-- The map after `m[k]` has been evaluated: a missing key is there from then on.
abbrev pub touch {ℓ} : {V : Type ℓ} → V → String → Dict V → Dict V
touch zeroes k m = elim (lookup k m) [ none ↦ insert k zeroes m | some _ ↦ m ]
