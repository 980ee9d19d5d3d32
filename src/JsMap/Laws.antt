-- ===== src/JsMap/Laws.antt =====
-- What a map answers after it was written, and how large it is.
use metamodels.Common.{
  ◌+◌, ◌≤◌, ◌<◌, String, ◌≡◌, refl, true, false, none, some, [], ◌∷◌, arith, str_eq, eq_iff,
  if◌then◌else◌,
}
use metamodels.JsMap.{JsMap, get, set, delete, has, size, first_key}

module _ {ℓ} {V : Type ℓ} where
  pub get-set :
      (m : JsMap V) (k j : String) (v : V)
      → get (set m k v) j ≡ (if str_eq k j then some v else get m j)
  unfolding get set
  get-set [] k j v = refl
  get-set ((i, w) ∷ m) k j v = ground (arith, eq_iff k j, eq_iff i k, eq_iff i j, get-set m k j v)

  pub get-delete :
      (m : JsMap V) (k j : String) → get (delete m k) j ≡ (if str_eq k j then none else get m j)
  unfolding get delete
  get-delete [] k j = ground arith
  get-delete ((i, w) ∷ m) k j = ground (arith, eq_iff k j, eq_iff i k, eq_iff i j, get-delete m k j)

  pub size-set_new :
      (m : JsMap V) (k : String) (v : V) → has m k ≡ false → size (set m k v) ≡ size m + 1
  unfolding get set
  size-set_new [] k v h = omega arith
  size-set_new ((i, w) ∷ m) k v h = ground (arith, size-set_new m k v)

  pub size-set_old : (m : JsMap V) (k : String) (v : V) → has m k ≡ true → size (set m k v) ≡ size m
  unfolding get set
  size-set_old [] k v h = ground arith
  size-set_old ((i, w) ∷ m) k v h = ground (arith, size-set_old m k v)

  pub size-delete : (m : JsMap V) (k : String) → size (delete m k) ≤ size m
  unfolding delete
  size-delete [] k = omega arith
  size-delete ((i, w) ∷ m) k = ground (arith, size-delete m k)

  -- The oldest entry leaves with its key.
  pub size-delete_first :
      (m : JsMap V) (k : String) → first_key m ≡ some k → size (delete m k) < size m
  unfolding delete first_key
  size-delete_first [] k h = ground arith
  size-delete_first ((i, w) ∷ m) k h = ground (arith, size-delete m k, eq_iff i k)
