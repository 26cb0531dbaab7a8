-- ===== src/Prelude/Dicts.antt =====
-- Go's `map[string]V` as an association list: the first entry of a key counts. A loop over a map
-- visits its entries in the list's order, so a statement about every list covers every order.
use Prim.Native.String.{String}
use mathlib.Core.Path.{◌≡◌, refl}
use mathlib.Core.Option.{Option, none, some}
use mathlib.Core.List.{List, [], ◌∷◌}
use native.Mathlib.Omega.{arith}
use text.Mathlib.Text.{◌==◌}
use text.Mathlib.TextEquality.{eq_iff}
use bank_vaults.Prelude.Tests.{if◌then◌else◌}

abbrev pub Dict {ℓ} : Type ℓ → Type ℓ
Dict V = List (String × V)

module _ {ℓ} {V : Type ℓ} where
  -- m[k], with `none` for a missing key
  unfoldable pub lookup : String → Dict V → Option V
  lookup key [] = none
  lookup key ((name, val) ∷ rest) = if name == key then some val else lookup key rest

  -- delete(m, k)
  unfoldable pub delete : String → Dict V → Dict V
  delete key [] = []
  delete key ((name, val) ∷ rest) =
      let shorter = delete key rest in if name == key then shorter else (name, val) ∷ shorter

  -- m[k] = v
  unfoldable pub insert : String → V → Dict V → Dict V
  insert key new [] = (key, new) ∷ []
  insert key new ((name, old) ∷ rest) =
      if name == key then (key, new) ∷ rest else (name, old) ∷ insert key new rest

  pub lookup-delete :
      (key other : String) (d : Dict V)
      → lookup other (delete key d) ≡ (if key == other then none else lookup other d)
  unfolding lookup delete
  lookup-delete key other [] = ground arith
  lookup-delete key other ((name, val) ∷ rest) =
      ground
        (arith, lookup-delete key other rest, eq_iff name key, eq_iff name other, eq_iff key other)

  pub lookup-insert :
      (key other : String) (new : V) (d : Dict V)
      → lookup other (insert key new d) ≡ (if key == other then some new else lookup other d)
  unfolding lookup insert
  lookup-insert key other new [] = refl
  lookup-insert key other new ((name, old) ∷ rest) = ground (
    arith,
    lookup-insert key other new rest,
    eq_iff name other,
    eq_iff key other,
    eq_iff name key,
  )

  -- To write what is there changes nothing.
  pub insert-there :
      (key : String) (v : V) (d : Dict V) → lookup key d ≡ some v → insert key v d ≡ d
  unfolding lookup insert
  insert-there key v [] h = cc
  insert-there key v ((name, old) ∷ rest) h =
      ground (arith, insert-there key v rest, eq_iff name key)
