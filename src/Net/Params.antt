-- ===== src/Net/Params.antt =====
-- `std::set<std::string>` and `std::map<std::string, …>` as net/http uses them: lists in the order of
-- their keys, each key once.
pub mod Sets
pub mod Maps
use nbsdk.Prelude.{ℕ, Bool, true, false, Option, none, some, List, [], ◌∷◌, Text, if◌then◌else◌}
use nbsdk.Net.Strings.{text_eq, text_lt}

-- `set.emplace(x)`: nothing changes if `x` is there.
unfoldable pub add : Text → List Text → List Text
add x [] = x ∷ []
add x (y ∷ ys) = if text_eq x y then y ∷ ys else if text_lt x y then x ∷ y ∷ ys else y ∷ add x ys

-- `set.erase(x)`
unfoldable pub remove : Text → List Text → List Text
remove x [] = []
remove x (y ∷ ys) = if text_eq x y then ys else y ∷ remove x ys

module _ {V : Type 0} where
  -- `map.find(k)`
  unfoldable pub find : Text → List (Text × V) → Option V
  find k [] = none
  find k ((j, v) ∷ m) = if text_eq k j then some v else find k m

  -- `map.emplace(k, v)`: nothing changes if `k` is there.
  unfoldable pub emplace : Text → V → List (Text × V) → List (Text × V)
  emplace k v [] = (k, v) ∷ []
  emplace k v ((j, w) ∷ m) =
      if text_eq k j
      then (j, w) ∷ m
      else if text_lt k j
      then (k, v) ∷ (j, w) ∷ m
      else (j, w) ∷ emplace k v m

  -- A change of the value through an iterator at `k`.
  unfoldable pub update : Text → (V → V) → List (Text × V) → List (Text × V)
  update k f [] = []
  update k f ((j, w) ∷ m) = if text_eq k j then (j, f w) ∷ m else (j, w) ∷ update k f m

  -- `map.erase(k)`
  unfoldable pub erase : Text → List (Text × V) → List (Text × V)
  erase k [] = []
  erase k ((j, w) ∷ m) = if text_eq k j then m else (j, w) ∷ erase k m
