-- ===== src/Examples/Flocks.antt =====
-- A flock that is saved with a token, and then renamed.
use metamodels.Common.{◌≡◌, refl, true, false, not, ◌&&◌, none, some, [], ◌∷◌, find}
use metamodels.Schema.Scan.{fits}
use metamodels.Schema.Sealed.{seal, aad, is_uuid}
use metamodels.ControlPlane.Authorize.{Actor, viewer, session, authorize, admin}
use metamodels.ControlPlane.Database.{FlockRow, Db, returns, write_audit}
use metamodels.ControlPlane.Flocks.{
  omitted, token, SaveFlockInput, FlockView, FlockConnection, is_flock, credential, update_flock,
  create_flock, write_flock, save_flock, get_flock_connection,
}
use metamodels.ControlPlane.Flocks.Credential.{save_flock-connects, save_flock-keeps}
use metamodels.Examples.Members.{value_of, two_members}
use metamodels.Examples.Seals.{
  toy, toy_laws, as_is, new_ring, new_held, letters, org, barn, new_fresh,
}

abbrev admin_of_barn : Actor
admin_of_barn = record {
  id = "u1";
  org_id = org;
  email = "ada@acme.test";
  role = admin;
  grants = none;
  credential = session;
}

abbrev viewer_of_barn : Actor
viewer_of_barn = record {
  id = "u3";
  org_id = org;
  email = "eve@acme.test";
  role = viewer;
  grants = none;
  credential = session;
}

abbrev with_token : SaveFlockInput
with_token = record {
  id = none;
  breed = "ollama";
  name = "barn";
  base_url = "http://barn:11434";
  upstream_auth = token "s3";
  tls_trust = false;
}

abbrev no_view : FlockView
no_view = record {
  id = "";
  org_id = "";
  breed = "";
  name = "";
  base_url = "";
  tls_trust = false;
  health_ok = none;
  has_upstream_auth = false;
}

unfoldable saved : FlockView × Db
unfolding save_flock
saved =
    value_of (no_view, two_members)
      (save_flock toy as_is new_ring admin_of_barn (some with_token) barn.flock_id (letters 16)
        two_members)

saved_run :
    save_flock toy as_is new_ring admin_of_barn
      (some with_token)
      barn.flock_id
      (letters 16)
      two_members
    ≡ returns saved
unfolding save_flock saved write_audit authorize write_flock create_flock credential seal aad
    is_uuid
saved_run = refl

save_flock-connects_example :
    (c : FlockConnection) × (get_flock_connection toy as_is new_ring viewer_of_barn saved.0.id
        saved.1
      ≡ returns c)
    × (c.upstream_auth ≡ some "s3")
    × (c.base_url ≡ "http://barn:11434")
unfolding fits authorize
save_flock-connects_example =
    save_flock-connects toy toy_laws as_is new_ring new_held admin_of_barn viewer_of_barn with_token
      "s3" barn.flock_id (letters 16) two_members saved (new_fresh "") refl saved_run refl refl

-- The same flock under another name.
abbrev renamed : SaveFlockInput
renamed = record {
  id = some barn.flock_id;
  breed = "ollama";
  name = "big barn";
  base_url = "http://barn:11434";
  upstream_auth = omitted;
  tls_trust = false;
}

abbrev barn_row : FlockRow
barn_row = record {
  id = barn.flock_id;
  org_id = org;
  breed = "ollama";
  name = "barn";
  base_url = "http://barn:11434";
  upstream_auth_enc = some "sealed:v1:0123456789abcdef:AAAAAAAAAAAAAAAA:AB:AAAAAAAAAAAAAAAAAAAAAA";
  tls_trust = false;
  health_ok = some true;
}

abbrev one_flock : Db
one_flock = record two_members { flocks = barn_row ∷ [] }

unfoldable renamed_flock : FlockView × Db
unfolding save_flock
renamed_flock =
    value_of (no_view, two_members)
      (save_flock toy as_is new_ring admin_of_barn (some renamed) "" (letters 16) one_flock)

renamed_run :
    save_flock toy as_is new_ring admin_of_barn (some renamed) "" (letters 16) one_flock
    ≡ returns renamed_flock
unfolding save_flock renamed_flock write_audit authorize write_flock update_flock credential
renamed_run = refl

save_flock-keeps_example :
    (stored : FlockRow) × (find (is_flock org barn.flock_id) renamed_flock.1.flocks ≡ some stored)
    × (stored.upstream_auth_enc
        ≡ some "sealed:v1:0123456789abcdef:AAAAAAAAAAAAAAAA:AB:AAAAAAAAAAAAAAAAAAAAAA")
    × (stored.base_url ≡ "http://barn:11434")
    × ((not false && stored.tls_trust) ≡ false)
save_flock-keeps_example =
    save_flock-keeps toy as_is new_ring admin_of_barn renamed barn.flock_id ""
      "sealed:v1:0123456789abcdef:AAAAAAAAAAAAAAAA:AB:AAAAAAAAAAAAAAAAAAAAAA" (letters 16) barn_row
      one_flock renamed_flock refl refl refl refl renamed_run
