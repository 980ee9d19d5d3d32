-- ===== src/ControlPlane/Success.antt =====
-- What a service that gives a result has passed on the way to it.
use metamodels.Common.{
  ◌≡◌, refl, sym, ◌⊎◌, inl, inr, Bool, true, false, Option, none, some, arith, if◌then◌else◌,
}
use metamodels.ControlPlane.Authorize.{Actor, Capability, authorize}
use metamodels.ControlPlane.Database.{
  ServiceError, Reply, returns, throws, ◌>>=◌, ◌>>◌, fail_if, or_fail, require_capability,
}

module _ {B : Type 0} where
  pub passed :
      (b : Bool) (e : ServiceError) (m : Reply B) (x : B)
      → (fail_if b e >> m) ≡ returns x
      → (b ≡ false) × (m ≡ returns x)
  passed true e m x h = cc
  passed false e m x h = (refl, h)

  pub found :
      {A : Type 0} (o : Option A) (e : ServiceError) (k : A → Reply B) (x : B)
      → (or_fail o e >>= k) ≡ returns x
      → (a : A) × (o ≡ some a) × (k a ≡ returns x)
  found none e k x h = cc
  found (some a) e k x h = (a, refl, h)

  pub went_on :
      {A : Type 0} (m : Reply A) (k : A → Reply B) (x : B)
      → (m >>= k) ≡ returns x
      → (a : A) × (m ≡ returns a) × (k a ≡ returns x)
  went_on (returns a) k x h = (a, refl, h)
  went_on (throws e) k x h = cc

  pub allowed_to :
      (actor : Actor) (c : Capability) (m : Reply B) (x : B)
      → (require_capability actor c >> m) ≡ returns x
      → (authorize actor c ≡ true) × (m ≡ returns x)
  unfolding authorize
  allowed_to actor c m x h = let (a, k) = passed _ _ m x h in (ground arith, k)

  pub returns-inj : (x y : B) → returns x ≡ returns y → x ≡ y
  returns-inj x y h = cc

  pub not_refused :
      (b : Bool) (e : ServiceError) (y x : B)
      → (if b then throws e else returns y) ≡ returns x
      → (b ≡ false) × (y ≡ x)
  not_refused true e y x h = cc
  not_refused false e y x h = (refl, returns-inj y x h)

  pub either_way :
      (a b : Bool) (e : ServiceError) (x y z : B)
      → (if a then returns x else if b then returns y else throws e) ≡ returns z
      → ((a ≡ true) × (z ≡ x)) ⊎ ((a ≡ false) × (b ≡ true) × (z ≡ y))
  either_way true b e x y z h = inl (refl, sym (returns-inj x z h))
  either_way false true e x y z h = inr (refl, refl, sym (returns-inj y z h))
  either_way false false e x y z h = cc
