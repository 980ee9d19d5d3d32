-- ===== src/ControlPlane/Members/Seats.antt =====
-- The members and the pending invites of an organisation stay within its seats.
use metamodels.Common.{
  ℕ, ◌+◌, ◌≤◌, String, ◌≡◌, refl, sym, ap, ◌∙◌, inl, inr, Bool, true, ◌&&◌, some, List, [], ◌∷◌,
  ◌++◌, arith, str_eq, eq_iff, eq_refl, leb, if◌then◌else◌, Bool-cases, find, any, before,
}
use metamodels.ControlPlane.Members.{
  Step, changes_role, changes_status, invites, revokes, accepts, Steps, waits, steps,
}
use metamodels.ControlPlane.Authorize.{Role}
use metamodels.ControlPlane.Database.{User, Invite, Db, update_where, count_where}
use metamodels.ControlPlane.Rows.{
  count-append, count_delete, count_update, count_update_less, count_update_one, count_update_same,
  update_where-IsKeyed, insert-IsKeyed, find_passes, find-any, any_less,
}
use metamodels.ControlPlane.Seats.{is_active_user, is_pending}
use metamodels.ControlPlane.Users.{is_user, with_role, UserStatus, active, deactivated, with_status}
use metamodels.ControlPlane.Users.Effects.{
  takes_seat, change_user_role-Rewrites, set_user_status-Rewrites,
}
use metamodels.ControlPlane.Users.LastAdmin.{IsKeyedByUser, user_id, is_user-id}
use metamodels.ControlPlane.Invites.{invite_row, is_revocable, clashes_user, accepted}
use metamodels.ControlPlane.Invites.Effects.{
  invite_user-rows, revoke_invite-rows, joined, accept_read-rows, accept_invite-reads,
}

abbrev pub seats_used : String → ℕ → List User → List Invite → ℕ
seats_used o now users rows =
    count_where (is_active_user o) users + count_where (is_pending o now) rows

-- Later, the pending invites are no more.
pub later_pending :
    (o : String) (now later : ℕ) (rows : List Invite)
    → now ≤ later
    → count_where (is_pending o later) rows ≤ count_where (is_pending o now) rows
later_pending o now later [] h = omega arith
later_pending o now later (i ∷ rows) h = ground (arith, later_pending o now later rows)

-- A new role takes no seat.
pub with_role-seats :
    (o org_id id : String) (role : Role) (users : List User)
    → count_where (is_active_user o) (update_where (is_user org_id id) (with_role role) users)
      ≤ count_where (is_active_user o) users
with_role-seats o org_id id role users =
    count_update (is_user org_id id) (is_active_user o) (with_role role) users (λ r _ h. h)

-- A member who is put back takes one seat of the organisation, and only one who was away.
pub with_status-seats :
    (o org_id id : String) (status : UserStatus) (target : User) (users : List User)
    → IsKeyedByUser users
    → find (is_user org_id id) users ≡ some target
    → count_where (is_active_user o) (update_where (is_user org_id id) (with_status status) users)
      ≤ count_where (is_active_user o) users
        + (if takes_seat status target && str_eq o org_id then 1 else 0)
with_status-seats o org_id id deactivated target users keyed at =
    let less =
      count_update (is_user org_id id) (is_active_user o) (with_status deactivated) users
        (λ r _ h. ground arith) in
    ground arith
with_status-seats o org_id id active target users keyed at =
    let one =
      count_update_one user_id (is_user org_id id) id (is_user-id org_id id) (is_active_user o)
        (with_status active) users keyed in
    let p = find_passes _ target users at in
    elim (Bool-cases (str_eq o org_id)) [
      | inl e ↦ elim (Bool-cases (str_eq target.status "active")) [
        | inl was ↦
            let same =
              count_update_same user_id (is_user org_id id) id (is_user-id org_id id)
                (is_active_user o) (with_status active) target users keyed at
                (ground (
                  arith,
                  p,
                  was,
                  e,
                  eq_iff target.org_id org_id,
                  eq_iff o org_id,
                  eq_iff target.org_id o,
                )) in
            omega (arith, same)
        | inr away ↦ ground (arith, one, away, e)
      ]
      | inr e ↦
          let less =
            count_update (is_user org_id id) (is_active_user o) (with_status active) users (λ r h k.
              ground (arith, e, eq_iff r.org_id org_id, eq_iff o org_id, eq_iff r.org_id o)) in
          omega (arith, less)
    ]

-- The seats that one more invite takes.
pub invite_row-seats :
    (o : String) (now : ℕ) (new : Invite) (rows : List Invite)
    → count_where (is_pending o now) (rows ++ new ∷ [])
      ≤ count_where (is_pending o now) rows + (if str_eq new.org_id o then 1 else 0)
invite_row-seats o now new rows = ground (arith, count-append (is_pending o now) rows (new ∷ []))

joined-seats :
    (o : String) (inv : Invite) (password_hash id : String) (users : List User)
    → count_where (is_active_user o) (users ++ joined inv password_hash id ∷ [])
      ≡ count_where (is_active_user o) users + (if str_eq inv.org_id o then 1 else 0)
unfolding joined
joined-seats o inv password_hash id users =
    let org : (joined inv password_hash id).org_id ≡ inv.org_id = refl in
    let status : (joined inv password_hash id).status ≡ "active" = refl in
    ground
      (arith, org, status, count-append (is_active_user o) users (joined inv password_hash id ∷ []))

-- The seat that an accepted invite leaves is the one that its user takes.
pub accepted-seats :
    (o : String) (now : ℕ) (inv : Invite) (password_hash id : String) (users : List User)
    (rows : List Invite)
    → any (λ (i : Invite). str_eq i.id inv.id && is_pending inv.org_id now i) rows ≡ true
    → seats_used o now
        (users ++ joined inv password_hash id ∷ [])
        (update_where (λ (i : Invite). str_eq i.id inv.id) (accepted now) rows)
      ≤ seats_used o now users rows
accepted-seats o now inv password_hash id users rows h =
    let same : Invite → Bool = λ i. str_eq i.id inv.id in
    let less = count_update same (is_pending o now) (accepted now) rows (λ r _ h. ground arith) in
    let more = joined-seats o inv password_hash id users in
    elim (Bool-cases (str_eq inv.org_id o)) [
      | inl e ↦
          let one =
            count_update_less same (is_pending o now) (accepted now) rows (λ r. ground arith)
              (sym (
                  ap (λ x. any (λ (i : Invite). same i && is_pending x now i) rows)
                    ((eq_iff inv.org_id o).0 e))
                ∙ h) in
          ground (arith, more, one, e)
      | inr e ↦ ground (arith, more, less, e)
    ]

module _ (hash_invite_token : String → String) (limit : String → ℕ) where
  -- Ids of users are unique, and no organisation has more members and pending invites than seats.
  abbrev pub IsSound : ℕ → Db → Type 0
  IsSound now db =
      IsKeyedByUser db.users × ((o : String) → seats_used o now db.users db.invites ≤ limit o)

  IsSound-moved :
      (now : ℕ) (db : Db) (users : List User) (rows : List Invite)
      → db.users ≡ users
      → db.invites ≡ rows
      → IsKeyedByUser users
      → ((o : String) → seats_used o now users rows ≤ limit o)
      → IsSound now db
  IsSound-moved now db users rows u i keyed h = (rw u keyed, λ o. rw (u, i) (h o))

  -- The guard of an organisation's seats, read for `o`.
  seats_free :
      (o org_id : String) (now : ℕ) (db : Db)
      → str_eq o org_id ≡ true
      → leb (limit o) (seats_used o now db.users db.invites)
        ≡ leb (limit org_id) (seats_used org_id now db.users db.invites)
  seats_free o org_id now db e =
      ap (λ x. leb (limit x) (seats_used x now db.users db.invites)) ((eq_iff o org_id).0 e)

  pub Step-IsSound :
      (now : ℕ) (db db' : Db)
      → Step hash_invite_token limit now db db'
      → IsSound now db
      → IsSound now db'
  Step-IsSound now db db' (changes_role actor id role run) (keyed, h) =
      let (_, _, _, _, (u, i)) = change_user_role-Rewrites actor id role db db' run in
      IsSound-moved now db' _ _ u i
        (update_where-IsKeyed user_id _ (with_role role) db.users (λ _. refl) keyed)
        (λ o. omega (arith, h o, with_role-seats o actor.org_id id role db.users))
  Step-IsSound now db db' (changes_status actor id status run) (keyed, h) =
      let (target, at, _, seat, _, (u, i)) =
        set_user_status-Rewrites actor id status (limit actor.org_id) now db db' run in
      IsSound-moved now db' _ _ u i
        (update_where-IsKeyed user_id _ (with_status status) db.users (λ _. refl) keyed)
        (λ o. ground (
          arith,
          seat,
          h o,
          seats_free o actor.org_id now db,
          with_status-seats o actor.org_id id status target db.users keyed at,
        ))
  Step-IsSound now db db' (invites actor input token id made run) (keyed, h) =
      let (d, free, u, i) =
        invite_user-rows hash_invite_token actor input token id (limit actor.org_id) now db made
          run in
      let new = invite_row actor d id (hash_invite_token token) now in
      IsSound-moved now made.1 _ _ u i keyed (λ o. ground (
        arith,
        free,
        h o,
        eq_iff actor.org_id o,
        eq_iff o actor.org_id,
        seats_free o actor.org_id now db,
        invite_row-seats o now new db.invites,
      ))
  Step-IsSound now db db' (revokes actor id run) (keyed, h) =
      let (u, i) = revoke_invite-rows actor id db db' run in
      IsSound-moved now db' _ _ u i keyed (λ o.
        omega
          (arith, h o, count_delete (is_revocable actor.org_id id) (is_pending o now) db.invites))
  Step-IsSound now db db' (accepts token n password_hash id made run) (keyed, h) =
      let (inv, at, pending, read) =
        accept_invite-reads hash_invite_token token n password_hash id now db made run in
      let (fresh, u, i) = accept_read-rows inv password_hash id now db made read in
      IsSound-moved now made.1 _ _ u i
        (insert-IsKeyed user_id db.users (joined inv password_hash id)
          (any_less (clashes_user (joined inv password_hash id)) _ db.users (λ u k. ground arith)
            fresh)
          keyed)
        (λ o. omega (
          arith,
          h o,
          accepted-seats o now inv password_hash id db.users db.invites
              (find-any _ _ inv db.invites at (ground (arith, pending, eq_refl inv.id))),
        ))

  pub IsSound-later : (now later : ℕ) (db : Db) → now ≤ later → IsSound now db → IsSound later db
  IsSound-later now later db late (keyed, h) =
      (keyed, λ o. omega (arith, h o, later_pending o now later db.invites late))

  -- Along any sequence of successful role changes, status changes, invites, revocations of invites and
  -- acceptances, at times that do not decrease and with the seats of each organisation fixed: if at its start the
  -- ids of the users are unique and every organisation has at most as many active users and pending invites as
  -- seats, so it is at its end.
  pub Steps-IsSound :
      (start now : ℕ) (db db' : Db)
      → Steps hash_invite_token limit start db now db'
      → IsSound start db
      → IsSound now db'
  Steps-IsSound start now db _ (waits late) h = IsSound-later start now db late h
  Steps-IsSound start now db db' (steps {now = before} {db' = mid} trace late last) h =
      Step-IsSound now mid db' last
        (IsSound-later before now mid late (Steps-IsSound start before db mid trace h))
