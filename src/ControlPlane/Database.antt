-- ===== src/ControlPlane/Database.antt =====
-- The tables of packages/schema/src/schema.ts that the services change, what a service may throw, and
-- apps/control-plane/src/server/audit.ts. A transaction that throws has no database to give back: what
-- it wrote is rolled back.
use metamodels.Common.{
  append, ℕ, ◌+◌, String, Bool, true, false, not, ◌&&◌, Option, none, some, List, [], ◌∷◌, ◌++◌,
  map, str_eq, if◌then◌else◌, filter, any,
}
use metamodels.Json.{Value}
use metamodels.ControlPlane.Authorize.{
  Capability, Credential, session, token, consent, Actor, authorize,
}

pub record User : Type 0 where
  pub id : String
  pub org_id : String
  pub email : String
  pub password_hash : String
  pub role : String
  pub status : String

pub record Invite : Type 0 where
  pub id : String
  pub org_id : String
  pub email : String
  pub role : String
  pub token_hash : String
  pub expires_at : ℕ
  pub accepted_at : Option ℕ

pub record Entitlement : Type 0 where
  pub org_id : String
  pub license_key_enc : String
  pub license_last4 : String
  pub instance_id : Option String
  pub status : String
  pub seats : ℕ
  pub tier : Option String
  pub last_validated_at : Option ℕ
  pub grace_until : Option ℕ

pub record Paddock : Type 0 where
  pub id : String
  pub org_id : String
  pub flock_id : String
  pub slug : String
  pub name : String
  pub status : String
  pub theme : String

pub record FlockRow : Type 0 where
  pub id : String
  pub org_id : String
  pub breed : String
  pub name : String
  pub base_url : String
  pub upstream_auth_enc : Option String
  pub tls_trust : Bool
  pub health_ok : Option Bool

pub record ApiKey : Type 0 where
  pub id : String
  pub org_id : String
  pub name : String
  pub prefix : String
  pub hash : String
  pub status : String
  pub expires_at : Option ℕ
  pub overrides : Value
  pub kind : String
  pub grant_id : Option String
  pub oauth_client_id : Option String
  pub user_id : Option String

pub record KeyPaddock : Type 0 where
  pub key_id : String
  pub paddock_id : String

pub record AuditRow : Type 0 where
  pub org_id : String
  pub actor : String
  pub action : String
  pub target : String
  pub detail : Value
  pub changed_by : String

pub record Db : Type 0 where
  pub users : List User
  pub invites : List Invite
  pub entitlements : List Entitlement
  pub flocks : List FlockRow
  pub paddocks : List Paddock
  pub keys : List ApiKey
  pub key_paddocks : List KeyPaddock
  pub audit : List AuditRow

-- What a service throws. `invalid_input` is the refusal of a schema, `unique_violation` the database's.
pub data ServiceError : Type 0 where
  forbidden : Capability → ServiceError
  not_found duplicate_invite slug_taken : String → ServiceError
  bad_binding license_unreadable last_admin self_action seat_limit credential_rebind invalid_input
        unique_violation :
      ServiceError
  invite_invalid invite_expired invite_accepted password_too_short : ServiceError

-- A service returns or throws, and what follows a throw is not run.
pub data Reply {ℓ} (A : Type ℓ) : Type ℓ where
  throws : ServiceError → Reply A
  returns : A → Reply A

infixl 5 ◌>>◌ ◌>>=◌
abbrev pub ◌>>=◌ : {A B : Type 0} → Reply A → (A → Reply B) → Reply B
throws why >>= next = throws why
returns a >>= next = next a

abbrev pub ◌>>◌ : {B : Type 0} → Reply (Unit {0}) → Reply B → Reply B
test >> next = test >>= λ _. next

abbrev pub fail_if : Bool → ServiceError → Reply (Unit {0})
fail_if false why = returns tt
fail_if true why = throws why

abbrev pub or_fail {ℓ} : {A : Type ℓ} → Option A → ServiceError → Reply A
or_fail none e = throws e
or_fail (some a) e = returns a

-- `requireCapability`
abbrev pub require_capability : Actor → Capability → Reply (Unit {0})
unfolding authorize
require_capability actor c = fail_if (not (authorize actor c)) (forbidden c)

-- `UPDATE … SET f WHERE p` and the rows that it gives back.
abbrev pub update_where : {A : Type 0} → (A → Bool) → (A → A) → List A → List A
update_where p f rows = map (λ r. if p r then f r else r) rows

abbrev pub delete_where : {A : Type 0} → (A → Bool) → List A → List A
delete_where p rows = filter (λ r. not (p r)) rows

abbrev pub count_where : {A : Type 0} → (A → Bool) → List A → ℕ
count_where p [] = 0
count_where p (r ∷ rows) = (if p r then 1 else 0) + count_where p rows

abbrev credential_text : Credential → String
credential_text session = "session"
credential_text (token client jti) = append "token:" (append client (append ":" jti))
credential_text (consent client grant) = append "consent:" (append client (append ":" grant))

-- `writeAudit`
unfoldable pub write_audit : Actor → String → String → Value → Db → Db
write_audit actor action target detail db = record db {
  audit =
      db.audit
      ++ record {
        org_id = actor.org_id;
        actor = actor.email;
        action = action;
        target = target;
        detail = detail;
        changed_by = credential_text actor.credential;
      }
        ∷ [];
}

-- Deleted paddocks take their links to keys along: the foreign keys cascade.
unfoldable pub delete_paddocks : (Paddock → Bool) → Db → Db
delete_paddocks p db = record db {
  paddocks = delete_where p db.paddocks;
  key_paddocks =
      delete_where
        (λ (l : KeyPaddock). any (λ (q : Paddock). p q && str_eq q.id l.paddock_id) db.paddocks)
        db.key_paddocks;
}
