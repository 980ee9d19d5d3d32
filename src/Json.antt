-- ===== src/Json.antt =====
-- The values of type `unknown`: what JSON parsing and request bodies give. A number is an integer
-- here: fractions, and the Infinity that JSON overflows to, are not modelled.
use metamodels.Common.{
  String, ◌≡◌, refl, Bool, true, false, Option, none, some, arith, str_eq, eq_iff, if◌then◌else◌, ℤ,
}

mutual
  -- The own properties of a plain object, in order, each key once.
  pub data Fields : Type 0 where
    end : Fields
    field : String → Value → Fields → Fields

  pub data Value : Type 0 where
    undefined null : Value
    str : String → Value
    bool : Bool → Value
    num : ℤ → Value
    obj : Fields → Value
    arr : Items → Value

  pub data Items : Type 0 where
    nil : Items
    cons : Value → Items → Items

-- The value of a property of a plain object; `undefined` where it is missing.
unfoldable pub get_field : Fields → String → Value
get_field end k = undefined
get_field (field j v fs) k = if str_eq j k then v else get_field fs k

-- `v?.k`, for a `k` that no primitive, array or prototype has.
unfoldable pub prop : Value → String → Value
unfolding get_field
prop (obj fs) k = get_field fs k
prop undefined k = undefined
prop _ k = undefined

-- `{ ...fs, k: v }`
unfoldable pub with_field : Fields → String → Value → Fields
with_field end k v = field k v end
with_field (field j w fs) k v =
    let rest = with_field fs k v in if str_eq j k then field j v fs else field j w rest

abbrev pub is_string : Value → Option String
is_string (str s) = some s
is_string undefined = none
is_string _ = none

-- `typeof v === 'number'`
abbrev pub is_number : Value → Option ℤ
is_number (num n) = some n
is_number undefined = none
is_number _ = none

-- `v === true`
abbrev pub is_true : Value → Bool
is_true (bool true) = true
is_true undefined = false
is_true _ = false

-- A plain object, not null and no array.
abbrev pub is_record : Value → Option Fields
is_record (obj fs) = some fs
is_record undefined = none
is_record _ = none

abbrev pub is_array : Value → Option Items
is_array (arr xs) = some xs
is_array undefined = none
is_array _ = none

pub get_field-with :
    (fs : Fields) (k j : String) (v : Value)
    → get_field (with_field fs k v) j ≡ (if str_eq k j then v else get_field fs j)
unfolding get_field with_field
get_field-with end k j v = refl
get_field-with (field i w fs) k j v =
    ground (arith, eq_iff k j, eq_iff i k, eq_iff i j, get_field-with fs k j v)
