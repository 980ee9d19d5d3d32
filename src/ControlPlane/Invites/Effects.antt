-- ===== src/ControlPlane/Invites/Effects.antt =====
-- What the services of the invites write to the tables of the users and the invites.
use metamodels.Common.{
  ℕ, ◌+◌, String, ◌≡◌, sym, ap, ◌∙◌, true, false, not, ◌&&◌, Option, some, [], ◌∷◌, ◌++◌, arith,
  str_eq, eq_refl, ltb, leb, length, find, any,
}
use metamodels.ControlPlane.Authorize.{Actor, user_manage, parse_role}
use metamodels.ControlPlane.Database.{
  User, Invite, Db, returns, update_where, delete_where, write_audit, not_found, seat_limit,
  duplicate_invite, invalid_input, password_too_short, invite_invalid, invite_accepted,
  invite_expired,
}
use metamodels.ControlPlane.Success.{passed, found, went_on, allowed_to, returns-inj, not_refused}
use metamodels.ControlPlane.Seats.{is_open, is_pending, count_active_users, count_pending_invites}
use metamodels.ControlPlane.Invites.{
  InviteInput, CreatedInvite, invite_row, invite_user, insert_invite, is_revocable, revoke_invite,
  accept_read, accept_invite, clashes_user, insert_user, user_row, accepted, role_or_viewer,
}

insert_invite-rows :
    (new : Invite) (db db' : Db)
    → insert_invite new db ≡ returns db'
    → db' ≡ record db { invites = db.invites ++ new ∷ [] }
insert_invite-rows new db db' h = let (_, e) = not_refused _ _ _ db' h in sym e

insert_user-rows :
    (new : User) (db db' : Db)
    → insert_user new db ≡ returns db'
    → (any (clashes_user new) db.users ≡ false) × (db' ≡ record db { users = db.users ++ new ∷ [] })
insert_user-rows new db db' h = let (fresh, e) = not_refused _ _ _ db' h in (fresh, sym e)

module _ (hash_invite_token : String → String) where
  pub invite_user-rows :
      (actor : Actor) (input : Option InviteInput) (token id : String) (limit now : ℕ) (db : Db)
      (made : CreatedInvite × Db)
      → invite_user hash_invite_token actor input token id limit now db ≡ returns made
      → (d : InviteInput) × (leb limit
            (count_active_users db actor.org_id + count_pending_invites db actor.org_id now)
          ≡ false)
        × (made.1.users ≡ db.users)
        × (made.1.invites ≡ db.invites ++ invite_row actor d id (hash_invite_token token) now ∷ [])
  unfolding invite_user write_audit
  invite_user-rows actor input token id limit now db made h =
      let (_, h1) = allowed_to actor user_manage _ made h in
      let (d, _, h2) = found input invalid_input _ made h1 in
      let (free, h3) =
        passed
          (leb limit
            (count_active_users db actor.org_id + count_pending_invites db actor.org_id now))
          seat_limit _ made h2 in
      let (_, h4) = passed _ (duplicate_invite d.email) _ made h3 in
      let (db', e, h5) =
        went_on (insert_invite (invite_row actor d id (hash_invite_token token) now) db) _ made
          h4 in
      let rows = insert_invite-rows _ db db' e in
      let out = sym (returns-inj _ made h5) in
      (
        d,
        free,
        ap (λ (m : CreatedInvite × Db). m.1.users) out ∙ ap (λ (x : Db). x.users) rows,
        ap (λ (m : CreatedInvite × Db). m.1.invites) out ∙ ap (λ (x : Db). x.invites) rows,
      )

pub revoke_invite-rows :
    (actor : Actor) (id : String) (db db' : Db)
    → revoke_invite actor id db ≡ returns db'
    → (db'.users ≡ db.users)
      × (db'.invites ≡ delete_where (is_revocable actor.org_id id) db.invites)
unfolding revoke_invite write_audit
revoke_invite-rows actor id db db' h =
    let (_, h1) = allowed_to actor user_manage _ db' h in
    let (_, h2) =
      passed (not (any (is_revocable actor.org_id id) db.invites)) (not_found id) _ db' h1 in
    let out = sym (returns-inj _ db' h2) in
    (ap (λ (x : Db). x.users) out, ap (λ (x : Db). x.invites) out)

-- The user that an invite makes.
unfoldable pub joined : Invite → String → String → User
unfolding parse_role
joined inv password_hash id = user_row inv (role_or_viewer (parse_role inv.role)) password_hash id

pub accept_read-rows :
    (inv : Invite) (password_hash id : String) (now : ℕ) (db : Db) (made : Actor × Db)
    → accept_read inv password_hash id now db ≡ returns made
    → (any (clashes_user (joined inv password_hash id)) db.users ≡ false)
      × (made.1.users ≡ db.users ++ joined inv password_hash id ∷ [])
      × (made.1.invites
          ≡ update_where (λ (i : Invite). str_eq i.id inv.id) (accepted now) db.invites)
unfolding accept_read write_audit joined
accept_read-rows inv password_hash id now db made h =
    let (_, h1) =
      passed (not (any (λ (i : Invite). str_eq i.id inv.id && is_open i.accepted_at) db.invites))
        invite_accepted _ made h in
    let (db', e, h2) = went_on (insert_user (joined inv password_hash id) db) _ made h1 in
    let (fresh, rows) = insert_user-rows _ db db' e in
    let out = sym (returns-inj _ made h2) in
    (
      fresh,
      ap (λ (m : Actor × Db). m.1.users) out ∙ ap (λ (x : Db). x.users) rows,
      ap (λ (m : Actor × Db). m.1.invites) out
          ∙ ap
              (λ (x : Db).
                update_where (λ (i : Invite). str_eq i.id inv.id) (accepted now) x.invites)
              rows,
    )

pub accept_invite-reads :
    (hash_invite_token : String → String) (token : String) (length : ℕ) (password_hash id : String)
    (now : ℕ) (db : Db) (made : Actor × Db)
    → accept_invite hash_invite_token token length password_hash id now db ≡ returns made
    → (inv : Invite) × (find
          (λ (i : Invite). str_eq i.token_hash (hash_invite_token token))
          db.invites
        ≡ some inv)
      × (is_pending inv.org_id now inv ≡ true)
      × (accept_read inv password_hash id now db ≡ returns made)
unfolding accept_invite
accept_invite-reads hash_invite_token token length password_hash id now db made h =
    let (_, h1) = passed (ltb length 8) password_too_short _ made h in
    let (inv, at, h2) =
      found (find (λ (i : Invite). str_eq i.token_hash (hash_invite_token token)) db.invites)
        invite_invalid _ made h1 in
    let (unused, h3) = passed (not (is_open inv.accepted_at)) invite_accepted _ made h2 in
    let (early, h4) = passed (leb inv.expires_at now) invite_expired _ made h3 in
    (inv, at, ground (arith, unused, early, eq_refl inv.org_id), h4)
