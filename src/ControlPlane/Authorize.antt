-- ===== src/ControlPlane/Authorize.antt =====
-- apps/control-plane/src/auth/authorize.ts and packages/schema/src/capabilities.ts: who may do what.
use metamodels.Common.{
  String, Bool, true, false, ◌&&◌, Option, none, some, List, str_eq, if◌then◌else◌, any,
}

pub data Role : Type 0 where
  admin member viewer : Role

pub data Capability : Type 0 where
  read resource_write user_manage license_manage : Capability

-- The credential of the audit log: `session`, `token:<client>:<jti>` or `consent:<client>:<grant>`.
pub data Credential : Type 0 where
  session : Credential
  token : String → String → Credential
  consent : String → String → Credential

-- `grants` is `none` for the console's session, which is not restricted.
pub record Actor : Type 0 where
  pub id : String
  pub org_id : String
  pub email : String
  pub role : Role
  pub grants : Option (List Capability)
  pub credential : Credential

abbrev pub role_name : Role → String
role_name admin = "admin"
role_name member = "member"
role_name viewer = "viewer"

-- `isRole`, and the role that it finds.
unfoldable pub parse_role : String → Option Role
parse_role s =
    if str_eq s "admin"
    then some admin
    else if str_eq s "member"
    then some member
    else if str_eq s "viewer"
    then some viewer
    else none

-- `MATRIX`
abbrev pub matrix : Role → Capability → Bool
matrix admin c = true
matrix member read = true
matrix member resource_write = true
matrix member user_manage = false
matrix member license_manage = false
matrix viewer read = true
matrix viewer resource_write = false
matrix viewer user_manage = false
matrix viewer license_manage = false

abbrev pub same_capability : Capability → Capability → Bool
same_capability read read = true
same_capability resource_write resource_write = true
same_capability user_manage user_manage = true
same_capability license_manage license_manage = true
same_capability _ _ = false

-- `user.grants?.has(action) ?? true`
abbrev pub granted : Option (List Capability) → Capability → Bool
granted none c = true
granted (some grants) c = any (λ g. same_capability g c) grants

unfoldable pub authorize : Actor → Capability → Bool
authorize actor c = matrix actor.role c && granted actor.grants c
