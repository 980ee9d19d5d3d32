-- ===== src/ControlPlane/Keys/Revoke.antt =====
-- What is left of a key that was revoked.
use metamodels.Common.{
  String, ◌≡◌, refl, ap, ◌∙◌, inl, inr, Bool, true, false, List, [], ◌∷◌, arith, filter, any,
}
use metamodels.ControlPlane.Authorize.{Actor, resource_write, authorize}
use metamodels.ControlPlane.Database.{ApiKey, Db, returns, not_found, update_where, write_audit}
use metamodels.ControlPlane.Rows.{any_mono, any-update_same, any-update_cleared}
use metamodels.ControlPlane.Success.{allowed_to, either_way}
use metamodels.ControlPlane.Keys.{
  is_key, is_active_key, revoked, revoke_key, is_oauth_key_of, audit_revoked,
  revoke_oauth_keys_for_user,
}

is_active_key-revoked :
    (org_id id : String) (k : ApiKey) → is_active_key org_id id (revoked k) ≡ false
is_active_key-revoked org_id id k = ground arith

revoke_key-gone :
    (actor : Actor) (id : String) (db : Db)
    → authorize actor resource_write ≡ true
    → any (is_active_key actor.org_id id) db.keys ≡ false
    → any (is_key actor.org_id id) db.keys ≡ true
    → revoke_key actor id db ≡ returns db
unfolding revoke_key
revoke_key-gone actor id db may gone there = simp (may, gone, there)

-- What a successful revocation leaves in the table.
revoke_key-keys :
    (actor : Actor) (id : String) (db db' : Db)
    → revoke_key actor id db ≡ returns db'
    → (any (is_active_key actor.org_id id) db'.keys ≡ false)
      × (any (is_key actor.org_id id) db'.keys ≡ true)
unfolding revoke_key write_audit
revoke_key-keys actor id db db' h =
    let (_, h1) = allowed_to actor resource_write _ db' h in
    let p : ApiKey → Bool = is_active_key actor.org_id id in
    let q : ApiKey → Bool = is_key actor.org_id id in
    elim (either_way (any p db.keys) (any q db.keys) (not_found id) _ db db' h1) [
      | inl (e, out) ↦
          let rows = ap (λ (x : Db). x.keys) out in
          (
            ap (any p) rows
                ∙ any-update_cleared p p revoked db.keys
                    (λ k _. is_active_key-revoked actor.org_id id k) (λ k a. a),
            ap (any q) rows
                ∙ any-update_same p q revoked db.keys (λ k. refl)
                ∙ any_mono p q db.keys (λ k a. ground arith) e,
          )
      | inr (e, there, out) ↦
          (ap (λ (x : Db). any p x.keys) out ∙ e, ap (λ (x : Db). any q x.keys) out ∙ there)
    ]

-- After a revocation that succeeded, no active key of the actor's organisation has the id, and revoking it
-- again succeeds and leaves the database as it is.
pub revoke_key_twice :
    (actor : Actor) (id : String) (db db' : Db)
    → revoke_key actor id db ≡ returns db'
    → (any (is_active_key actor.org_id id) db'.keys ≡ false)
      × (revoke_key actor id db' ≡ returns db')
unfolding revoke_key
revoke_key_twice actor id db db' h =
    let (may, _) = allowed_to actor resource_write _ db' h in
    let (gone, there) = revoke_key-keys actor id db db' h in
    (gone, revoke_key-gone actor id db' may gone there)

audit_revoked-keys :
    (actor : Actor) (reason : String) (ks : List ApiKey) (db : Db)
    → (audit_revoked actor reason ks db).keys ≡ db.keys
unfolding audit_revoked
audit_revoked-keys actor reason [] db = refl
audit_revoked-keys actor reason (k ∷ ks) db = audit_revoked-keys actor reason ks _

is_oauth_key_of-revoked :
    (org_id id : String) (k : ApiKey) → is_oauth_key_of org_id id (revoked k) ≡ false
is_oauth_key_of-revoked org_id id k = ground arith

-- No active key of the user in the organisation is left that was made for an app.
pub revoke_oauth_keys_for_user-keys :
    (actor : Actor) (id reason : String) (db : Db)
    → any (is_oauth_key_of actor.org_id id) (revoke_oauth_keys_for_user actor id reason db).1.keys
      ≡ false
unfolding revoke_oauth_keys_for_user
revoke_oauth_keys_for_user-keys actor id reason db =
    let p = is_oauth_key_of actor.org_id id in
    ap (any p) (
      audit_revoked-keys actor reason (filter p db.keys)
        (record db { keys = update_where p revoked db.keys }))
    ∙ any-update_cleared p p revoked db.keys (λ k _. is_oauth_key_of-revoked actor.org_id id k)
        (λ k a. a)
