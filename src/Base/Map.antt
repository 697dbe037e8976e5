-- ===== src/Base/Map.antt =====
-- Go's `map[string]V` as an association list with one entry to a key.
use mathlib.Core.Path.{◌≡◌, refl}
use mathlib.Core.Option.{Option, none, some}
use mathlib.Core.List.{List, [], ◌∷◌}
use native.Mathlib.Omega.{arith}
use encarno.Base.Tests.{if◌then◌else◌}
use encarno.Base.Bytes.{Bytes, equal, equal_iff}

abbrev pub Map {ℓ} : Type ℓ → Type ℓ
Map V = List (Bytes × V)

module _ {ℓ} {A : Type ℓ} where
  -- a, ok := m[key]
  unfoldable pub lookup : Bytes → Map A → Option A
  lookup key [] = none
  lookup key ((key', a) ∷ rest) =
      let found = lookup key rest in if equal key' key then some a else found

  -- m[key] = a
  unfoldable pub insert : Bytes → A → Map A → Map A
  insert key a [] = (key, a) ∷ []
  insert key a ((key', a') ∷ rest) =
      let below = insert key a rest in
      if equal key' key then (key, a) ∷ rest else (key', a') ∷ below

  pub lookup-insert :
      (key other : Bytes) (a : A) (entries : Map A)
      → lookup other (insert key a entries)
        ≡ (if equal key other then some a else lookup other entries)
  unfolding lookup insert
  lookup-insert key other a [] = refl
  lookup-insert key other a ((key', a') ∷ rest) = ground (
    arith,
    lookup-insert key other a rest,
    equal_iff key' key,
    equal_iff key' other,
    equal_iff key other,
  )
