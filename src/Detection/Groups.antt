-- ===== src/Detection/Groups.antt =====
-- Go maps from strings as association lists, with the writes that the package makes.
pub mod Laws
use belay_engine.Prelude.{
  Text, not, List, [], ◌∷◌, ◌++◌, Option, some, none, ◌==◌, if◌then◌else◌, filterb, text_ltb, sort,
  map, nat_eq, list_eq,
}

module _ {V : Type 0} where
  -- `m[key]`
  unfoldable pub lookup : Text → List (Text × V) → Option V
  lookup key [] = none
  lookup key ((k, v) ∷ rest) = if k == key then some v else lookup key rest

  -- `m[key] = append(m[key], value)`
  unfoldable pub append_to : Text → V → List (Text × List V) → List (Text × List V)
  append_to key value [] = (key, value ∷ []) ∷ []
  append_to key value ((k, vs) ∷ rest) =
      if k == key then (k, vs ++ value ∷ []) ∷ rest else (k, vs) ∷ append_to key value rest

  -- `m[key]` of a map to slices.
  unfoldable pub members : Text → List (Text × List V) → List V
  members key [] = []
  members key ((k, vs) ∷ rest) = if k == key then vs else members key rest

  -- `sortedKeys`
  unfoldable pub sorted_keys : List (Text × V) → List Text
  sorted_keys m = sort text_ltb (map (λ entry. entry.0) m)

  -- `delete(m, key)`
  unfoldable pub delete : Text → List (Text × V) → List (Text × V)
  delete key m = filterb (λ entry. not (entry.0 == key)) m

module _ {V : Type 0} (key_of : V → Text) where
  -- `for … { m[key] = append(m[key], value) }`
  unfoldable pub group_onto : List (Text × List V) → List V → List (Text × List V)
  unfolding append_to
  group_onto groups [] = groups
  group_onto groups (value ∷ values) = group_onto (append_to (key_of value) value groups) values
