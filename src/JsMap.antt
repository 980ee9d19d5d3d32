-- ===== src/JsMap.antt =====
-- The `Map<string, V>` of JavaScript: an association list in insertion order. `set` keeps the place
-- of a key that is there and puts a new key last, `delete` forgets the place.
pub mod Laws
use metamodels.Common.{
  ℕ, String, Bool, Option, none, some, List, [], ◌∷◌, str_eq, if◌then◌else◌, is_some, length,
}

abbrev pub JsMap {ℓ} : Type ℓ → Type ℓ
JsMap V = List (String × V)

module _ {ℓ} {V : Type ℓ} where
  unfoldable pub get : JsMap V → String → Option V
  get [] k = none
  get ((j, v) ∷ m) k = if str_eq j k then some v else get m k

  unfoldable pub set : JsMap V → String → V → JsMap V
  set [] k v = (k, v) ∷ []
  set ((j, w) ∷ m) k v = let rest = set m k v in if str_eq j k then (j, v) ∷ m else (j, w) ∷ rest

  unfoldable pub delete : JsMap V → String → JsMap V
  delete [] k = []
  delete ((j, w) ∷ m) k = let rest = delete m k in if str_eq j k then rest else (j, w) ∷ rest

  abbrev pub has : JsMap V → String → Bool
  has m k = is_some (get m k)

  abbrev pub size : JsMap V → ℕ
  size m = length m

  -- `m.keys().next().value`
  unfoldable pub first_key : JsMap V → Option String
  first_key [] = none
  first_key ((j, w) ∷ m) = some j
