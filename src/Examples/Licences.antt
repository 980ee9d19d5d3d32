-- ===== src/Examples/Licences.antt =====
-- A licence that the server calls invalid, of an organisation whose status is no longer active.
use metamodels.Common.{
  String, ◌≡◌, refl, false, ◌||◌, Option, none, some, [], ◌∷◌, str_eq, ltb, if◌then◌else◌,
}
use metamodels.ControlPlane.Database.{Entitlement, Db}
use metamodels.ControlPlane.Seats.{base_seats, get_seat_limit}
use metamodels.ControlPlane.Licence.{LsResult, LemonSqueezy, revalidate_license}
use metamodels.ControlPlane.Licence.Grace.{seats_after, grace_after, revalidate_license-seats}
use metamodels.Examples.Members.{two_members}

abbrev team : Entitlement
team = record {
  org_id = "acme";
  license_key_enc = "sealed";
  license_last4 = "1234";
  instance_id = some "n1";
  status = "active";
  seats = 5;
  tier = some "Team 5";
  last_validated_at = some 100;
  grace_until = some 900;
}

abbrev licensed : Db
licensed = record two_members { entitlements = team ∷ [] }

abbrev expired : LsResult
expired = record {
  valid = false;
  status = "expired";
  variant_name = some "Team 5";
  instance_id = none;
}

abbrev server : LemonSqueezy
server = record { activate = λ k n. none; validate = λ k i. some expired }

abbrev opens_all : String → Option String
opens_all enc = some "key-1234"

revalidate_license-seats_example :
    (db' : Db) × (revalidate_license opens_all server "acme" 500 licensed ≡ some db')
    × (get_seat_limit db' "acme" 800 ≡ (
        if str_eq "expired" "active" || ltb 800 (grace_after opens_all server 500 team expired)
        then seats_after opens_all server team expired
        else base_seats))
revalidate_license-seats_example =
    revalidate_license-seats opens_all server "acme" "key-1234" 500 800 licensed team expired refl
      refl refl refl
