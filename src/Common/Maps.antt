-- ===== src/Common/Maps.antt =====
-- A Go map with string keys: its entries in the order in which a `range` loop visits them. Go
-- leaves that order open, so what is proved for every list of entries holds for every order.
use mathlib.Core.Path.{◌≡◌, refl}
use mathlib.Core.List.{List, [], ◌∷◌}
use mathlib.Core.Option.{Option, none, some}
use native.Mathlib.Omega.{arith}
use pre_scaling_operator.Common.Tests.{if◌then◌else◌}
use pre_scaling_operator.Common.Strings.{Text, ◌==◌, ==_iff}

abbrev pub Map {ℓ} : Type ℓ → Type ℓ
Map V = List (Text × V)

module _ {ℓ} {V : Type ℓ} where
  -- v, found := m[key]
  unfoldable pub lookup : Text → Map V → Option V
  lookup key [] = none
  lookup key ((stored, value) ∷ rest) = if stored == key then some value else lookup key rest

  -- No key stands twice, as in every Go map.
  abbrev pub UniqueKeys : Map V → Type ℓ
  UniqueKeys [] = Unit
  UniqueKeys ((key, value) ∷ rest) = (lookup key rest ≡ none) × UniqueKeys rest

  -- m[key] = new
  unfoldable pub insert : Text → V → Map V → Map V
  insert key new [] = (key, new) ∷ []
  insert key new ((stored, old) ∷ rest) =
      if stored == key then (key, new) ∷ rest else (stored, old) ∷ insert key new rest

  pub lookup-insert :
      (key other : Text) (new : V) (m : Map V)
      → lookup other (insert key new m) ≡ (if key == other then some new else lookup other m)
  unfolding lookup insert
  lookup-insert key other new [] = refl
  lookup-insert key other new ((stored, old) ∷ rest) = ground (
    arith,
    ==_iff key other,
    ==_iff stored key,
    ==_iff stored other,
    lookup-insert key other new rest,
  )

  pub insert-UniqueKeys :
      (key : Text) (new : V) (m : Map V) → UniqueKeys m → UniqueKeys (insert key new m)
  unfolding insert lookup
  insert-UniqueKeys key new [] u = (refl, tt)
  insert-UniqueKeys key new ((stored, old) ∷ rest) u = ground (
    arith,
    ==_iff stored key,
    ==_iff key stored,
    lookup-insert key stored new rest,
    insert-UniqueKeys key new rest u.1,
  )

-- m[k], with the zero value where the key is missing.
abbrev pub or_default {ℓ} : {V : Type ℓ} → V → Option V → V
or_default d none = d
or_default d (some v) = v
