-- ===== src/Common/Maps.antt =====
-- A Go map as an association list with at most one entry that counts for each key: a write replaces
-- the first entry of its key. The order of the entries is never read.
use operator_lib.Common.Tests.{Eq, ◌==◌, if◌then◌else◌, ==_refl, nat_eq}
use operator_lib.Common.Lists.{length}
use mathlib.Core.Logic.{◌≢◌}
use mathlib.Core.Bool.{false}
use mathlib.Core.Path.{◌≡◌, refl, ◌∙◌}
use mathlib.Core.Option.{Option, none, some}
use mathlib.Core.List.{List, [], ◌∷◌}
use native.Mathlib.Omega.{arith}

module _ {ℓ κ} {Key : Type ℓ} {Value : Type κ} ⦃e : Eq Key⦄ where
  -- `value, ok := entries[key]`
  unfoldable pub lookup : Key → List (Key × Value) → Option Value
  lookup key [] = none
  lookup key ((first, value) ∷ entries) = if first == key then some value else lookup key entries

  -- `entries[key] = value`
  unfoldable pub insert : Key → Value → List (Key × Value) → List (Key × Value)
  insert key value [] = (key, value) ∷ []
  insert key value ((first, old) ∷ entries) =
      if first == key then (key, value) ∷ entries else (first, old) ∷ insert key value entries

  pub lookup-insert :
      (key other : Key) (value : Value) (entries : List (Key × Value))
      → lookup other (insert key value entries)
        ≡ (if key == other then some value else lookup other entries)
  unfolding lookup insert
  lookup-insert key other value [] = refl
  lookup-insert key other value ((first, old) ∷ entries) = ground (
    arith,
    e.beq_iff key other,
    e.beq_iff first key,
    e.beq_iff first other,
    lookup-insert key other value entries,
  )

  pub lookup-insert_self :
      (key : Key) (value : Value) (entries : List (Key × Value))
      → lookup key (insert key value entries) ≡ some value
  lookup-insert_self key value entries = simp (lookup-insert, ==_refl)

  pub lookup-insert_ne :
      (key other : Key) (value : Value) (entries : List (Key × Value))
      → key ≢ other
      → lookup other (insert key value entries) ≡ lookup other entries
  lookup-insert_ne key other value entries h =
      lookup-insert key other value entries ∙ ground (arith, e.beq_iff key other)

  pub length-insert-ne-zero :
      (key : Key) (value : Value) (entries : List (Key × Value))
      → (length (insert key value entries) == 0) ≡ false
  unfolding insert
  length-insert-ne-zero key value [] = refl
  length-insert-ne-zero key value ((first, old) ∷ entries) = ground arith
