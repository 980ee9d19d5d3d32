-- ===== src/Examples/Members.antt =====
-- An organisation of three seats, whose admin promotes a member, invites a third one, and is taken away.
use metamodels.Common.{append, ℕ, String, ◌≡◌, refl, true, none, some, [], ◌∷◌, arith}
use metamodels.ControlPlane.Authorize.{admin, viewer, Actor, session, authorize, parse_role}
use metamodels.ControlPlane.Database.{User, Db, returns, Reply, write_audit}
use metamodels.ControlPlane.Users.{change_user_role}
use metamodels.ControlPlane.Users.LastAdmin.{has_active_admin}
use metamodels.ControlPlane.Invites.{
  InviteInput, CreatedInvite, invite_user, accept_invite, accept_read,
}
use metamodels.ControlPlane.Members.{changes_role, invites, accepts, Steps, waits, steps}
use metamodels.ControlPlane.Members.Seats.{IsSound, Steps-IsSound}
use metamodels.ControlPlane.Members.Admins.{Steps-HasAdmin}

abbrev hashed : String → String
hashed t = append "sha256:" t

abbrev three_seats : String → ℕ
three_seats o = 3

abbrev pub ada : User
ada = record {
  id = "u1";
  org_id = "acme";
  email = "ada@acme.test";
  password_hash = "x";
  role = "admin";
  status = "active";
}

abbrev pub bob : User
bob = record {
  id = "u2";
  org_id = "acme";
  email = "bob@acme.test";
  password_hash = "y";
  role = "member";
  status = "active";
}

abbrev pub two_members : Db
two_members = record {
  users = ada ∷ bob ∷ [];
  invites = [];
  entitlements = [];
  flocks = [];
  paddocks = [];
  keys = [];
  key_paddocks = [];
  audit = [];
}

abbrev pub as_ada : Actor
as_ada = record {
  id = "u1";
  org_id = "acme";
  email = "ada@acme.test";
  role = admin;
  grants = none;
  credential = session;
}

abbrev pub value_of {ℓ} : {A : Type ℓ} → A → Reply A → A
value_of d (returns a) = a
value_of d _ = d

unfoldable promoted : Db
unfolding change_user_role
promoted = value_of two_members (change_user_role as_ada "u2" admin two_members)

abbrev carol : InviteInput
carol = record { email = "carol@acme.test"; role = viewer }

no_invite : CreatedInvite
no_invite = record { id = ""; email = ""; role = ""; token = "" }

unfoldable invited : CreatedInvite × Db
unfolding invite_user promoted
invited =
    value_of (no_invite, two_members)
      (invite_user hashed as_ada (some carol) "t1" "i1" 3 1000 promoted)

unfoldable joined_by_carol : Actor × Db
unfolding accept_invite invited
joined_by_carol =
    value_of (as_ada, two_members) (accept_invite hashed "t1" 12 "z" "u3" 2000 invited.1)

promoted_run : change_user_role as_ada "u2" admin two_members ≡ returns promoted
unfolding change_user_role promoted write_audit authorize
promoted_run = refl

invited_run : invite_user hashed as_ada (some carol) "t1" "i1" 3 1000 promoted ≡ returns invited
unfolding invite_user invited promoted write_audit authorize change_user_role
invited_run = refl

joined_run : accept_invite hashed "t1" 12 "z" "u3" 2000 invited.1 ≡ returns joined_by_carol
unfolding accept_invite joined_by_carol invited promoted write_audit authorize change_user_role
    accept_read invite_user parse_role
joined_run = refl

trace : Steps hashed three_seats 0 two_members 2000 joined_by_carol.1
trace =
    steps {now = 1000}
      (steps {now = 10}
        (steps {now = 5} (waits (omega arith)) (omega arith)
          (changes_role as_ada "u2" admin {now = 10} promoted_run))
        (omega arith) (invites as_ada (some carol) "t1" "i1" {now = 1000} invited invited_run))
      (omega arith) (accepts "t1" 12 "z" "u3" {now = 2000} joined_by_carol joined_run)

two_members-IsSound : IsSound hashed three_seats 0 two_members
two_members-IsSound = ((refl, (refl, tt)), λ o. ground arith)

Steps-IsSound_example : IsSound hashed three_seats 2000 joined_by_carol.1
Steps-IsSound_example =
    Steps-IsSound hashed three_seats 0 2000 two_members joined_by_carol.1 trace two_members-IsSound

Steps-HasAdmin_example : has_active_admin "acme" joined_by_carol.1.users ≡ true
Steps-HasAdmin_example =
    Steps-HasAdmin hashed three_seats "acme" 0 2000 two_members joined_by_carol.1 trace
      two_members-IsSound refl
