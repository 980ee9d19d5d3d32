-- ===== src/ControlPlane/Flocks/Credential.antt =====
-- Where a flock's credential goes.
use metamodels.Common.{
  String, ◌≡◌, refl, sym, ap, ◌∙◌, true, false, not, ◌&&◌, Option, none, some, arith, str_eq,
  eq_iff, eq_refl, if◌then◌else◌, or_else, is_some, find, and_split,
}
use metamodels.JsMap.{get}
use metamodels.Schema.Sealed.{SealBinding, Crypto, SealKeyring, seal}
use metamodels.Schema.Sealed.RoundTrip.{CryptoLaws, is_fresh, open_sealed-seal}
use metamodels.ControlPlane.Authorize.{Actor, read, resource_write, authorize}
use metamodels.ControlPlane.Database.{
  FlockRow, Db, returns, write_audit, not_found, credential_rebind, bad_binding,
}
use metamodels.ControlPlane.Rows.{find_updated, find_new, any_less, find_passes}
use metamodels.ControlPlane.Success.{allowed_to, passed, found, went_on, not_refused, returns-inj}
use metamodels.ControlPlane.Flocks.{
  omitted, token, SaveFlockInput, FlockView, FlockConnection, is_flock, moves_credential, rebinds,
  is_omitted, with_input, enc_after, connection, credential, update_flock, create_flock,
  write_flock, save_flock, get_flock_connection, insert_flock, flock_row, open_stored,
}

update_flock-rows :
    (actor : Actor) (d : SaveFlockInput) (id : String) (enc : Option (Option String)) (db : Db)
    (made : FlockView × Db)
    → update_flock actor d id enc db ≡ returns made
    → (r : FlockRow) × (find (is_flock actor.org_id id) db.flocks ≡ some r)
      × (is_omitted d.upstream_auth && rebinds d (some r) ≡ false)
      × (find (is_flock actor.org_id id) made.1.flocks ≡ some (with_input d enc r))
      × (made.0.id ≡ id)
unfolding update_flock write_audit
update_flock-rows actor d id enc db made run =
    let (guard, h1) =
      passed (is_omitted d.upstream_auth && rebinds d (find (is_flock actor.org_id id) db.flocks))
        credential_rebind _ made run in
    let (r, at, h2) = found (find (is_flock actor.org_id id) db.flocks) (not_found id) _ made h1 in
    let out = sym (returns-inj _ made h2) in
    let it = find_passes (is_flock actor.org_id id) r db.flocks at in
    (
      r,
      at,
      sym (ap (λ o. is_omitted d.upstream_auth && rebinds d o) at) ∙ guard,
      ap (λ (m : FlockView × Db). find (is_flock actor.org_id id) m.1.flocks) out
          ∙ find_updated (is_flock actor.org_id id) (is_flock actor.org_id id) (with_input d enc) r
              db.flocks (λ x. refl) at
          ∙ ap (λ b. some (if b then with_input d enc r else r)) it,
      ap (λ (m : FlockView × Db). m.0.id) out
          ∙ (eq_iff r.id id).0 (and_split (str_eq r.id id) (str_eq r.org_id actor.org_id) it).0,
    )

create_flock-rows :
    (actor : Actor) (d : SaveFlockInput) (id : String) (enc : Option (Option String)) (db : Db)
    (made : FlockView × Db)
    → create_flock actor d id enc db ≡ returns made
    → (find (is_flock actor.org_id id) made.1.flocks ≡ some (flock_row actor d id enc))
      × (made.0.id ≡ id)
unfolding create_flock write_audit
create_flock-rows actor d id enc db made run =
    let (db', h1, h2) = went_on (insert_flock (flock_row actor d id enc) db) _ made run in
    let (fresh, rows) = not_refused _ _ _ db' h1 in
    let out = sym (returns-inj _ made h2) in
    (
      ap (λ (m : FlockView × Db). find (is_flock actor.org_id id) m.1.flocks) out
          ∙ ap (λ (x : Db). find (is_flock actor.org_id id) x.flocks) (sym rows)
          ∙ find_new (is_flock actor.org_id id) db.flocks (flock_row actor d id enc)
              (any_less (λ (r : FlockRow). str_eq r.id id) _ db.flocks (λ r h. ground arith) fresh)
              (simp (eq_refl id, eq_refl actor.org_id)),
      ap (λ (m : FlockView × Db). m.0.id) out,
    )

-- The row that a save leaves under the id that it gives back.
written_row :
    (actor : Actor) (d : SaveFlockInput) (new_id : String) (o : Option String)
    (enc : Option (Option String)) (db : Db) (made : FlockView × Db)
    → write_flock actor d new_id o enc db ≡ returns made
    → (stored : FlockRow) × (find (is_flock actor.org_id (or_else o new_id)) made.1.flocks
        ≡ some stored)
      × (made.0.id ≡ or_else o new_id)
      × (stored.base_url ≡ d.base_url)
      × ((value : Option String) → enc ≡ some value → stored.upstream_auth_enc ≡ value)
unfolding write_flock
written_row actor d new_id (some id) enc db made run =
    let (r, _, _, at, same) = update_flock-rows actor d id enc db made run in
    (with_input d enc r, at, same, refl, λ value e. ap (enc_after r.upstream_auth_enc) e)
written_row actor d new_id none enc db made run =
    let (at, same) = create_flock-rows actor d new_id enc db made run in
    (flock_row actor d new_id enc, at, same, refl, λ value e. ap (enc_after none) e)

module _ (crypto : Crypto) (lower_case : String → String) (ring : SealKeyring crypto) where
  -- What a save that returns has passed: the column it writes, and the write.
  save_flock-writes :
      (actor : Actor) (d : SaveFlockInput) (new_id : String) (iv : crypto.Bytes) (db : Db)
      (made : FlockView × Db)
      → save_flock crypto lower_case ring actor (some d) new_id iv db ≡ returns made
      → (enc : Option (Option String)) × (credential crypto lower_case ring d.upstream_auth
            (record { org_id = actor.org_id; flock_id = or_else d.id new_id })
            iv
          ≡ returns enc)
        × (write_flock actor d new_id d.id enc db ≡ returns made)
  unfolding save_flock
  save_flock-writes actor d new_id iv db made run =
      let (_, h1) = allowed_to actor resource_write _ made run in
      went_on
        (credential crypto lower_case ring d.upstream_auth
          (record { org_id = actor.org_id; flock_id = or_else d.id new_id }) iv)
        _ made h1

  credential-token :
      (t : String) (bind : SealBinding) (iv : crypto.Bytes) (enc : Option (Option String))
      → credential crypto lower_case ring (token t) bind iv ≡ returns enc
      → (value : String) × (seal crypto lower_case t ring bind iv ≡ some value)
        × (enc ≡ some (some value))
  unfolding credential
  credential-token t bind iv enc run =
      let (value, e, h) = found (seal crypto lower_case t ring bind iv) bad_binding _ enc run in
      (value, e, sym (returns-inj _ enc h))

module _ (crypto : Crypto) (laws : CryptoLaws crypto) (lower_case : String → String)
    (ring : SealKeyring crypto) (held : get ring.by_kid ring.current.kid ≡ some ring.current) where
  get_flock_connection-token :
      (reader : Actor) (id t value : String) (iv : crypto.Bytes) (r : FlockRow) (db : Db)
      → authorize reader read ≡ true
      → find (is_flock reader.org_id id) db.flocks ≡ some r
      → r.upstream_auth_enc ≡ some value
      → is_fresh crypto laws ring iv ≡ true
      → seal crypto lower_case t ring (record { org_id = reader.org_id; flock_id = id }) iv
        ≡ some value
      → get_flock_connection crypto lower_case ring reader id db
        ≡ returns (connection r (some t) none)
  unfolding get_flock_connection open_stored
  get_flock_connection-token reader id t value iv r db may at stored fresh run =
      let (opens, _, _) =
        open_sealed-seal crypto laws lower_case ring ring
          (record { org_id = reader.org_id; flock_id = id }) iv t value fresh held run in
      simp (may, at, stored, opens)

  -- When a flock is saved with a token, sealed with a vector of 12 bytes under a current key that the keyring
  -- holds under its id of 16 hexadecimal digits, every reader of the organisation who then asks for the
  -- connection of the flock gets this token and the address of the input.
  pub save_flock-connects :
      (actor reader : Actor) (d : SaveFlockInput) (t new_id : String) (iv : crypto.Bytes) (db : Db)
      (made : FlockView × Db)
      → is_fresh crypto laws ring iv ≡ true
      → d.upstream_auth ≡ token t
      → save_flock crypto lower_case ring actor (some d) new_id iv db ≡ returns made
      → reader.org_id ≡ actor.org_id
      → authorize reader read ≡ true
      → (c : FlockConnection) × (get_flock_connection crypto lower_case ring reader made.0.id made.1
          ≡ returns c)
        × (c.upstream_auth ≡ some t)
        × (c.base_url ≡ d.base_url)
  save_flock-connects actor reader d t new_id iv db made fresh sent run org may =
      let (enc, col, wrote) =
        save_flock-writes crypto lower_case ring actor d new_id iv db made run in
      let id : String = or_else d.id new_id in
      let (value, sealed, e) =
        credential-token crypto lower_case ring t (record { org_id = actor.org_id; flock_id = id })
          iv enc
          (sym (
              ap
                (λ x.
                  credential crypto lower_case ring x
                    (record { org_id = actor.org_id; flock_id = id }) iv)
                sent)
            ∙ col) in
      let (r, at, same, url, stored) = written_row actor d new_id d.id enc db made wrote in
      let there = ap (λ o. find (is_flock o id) made.1.flocks) org ∙ at in
      (
        connection r (some t) none,
        ap (λ i. get_flock_connection crypto lower_case ring reader i made.1) same
            ∙ get_flock_connection-token reader id t value iv r made.1 may there
                (stored (some value) e) fresh
                (ap (λ o. seal crypto lower_case t ring (record { org_id = o; flock_id = id }) iv)
                    org
                  ∙ sealed),
        refl,
        url,
      )

omitted_stays :
    (d : SaveFlockInput) (r : FlockRow) (value : String)
    → d.upstream_auth ≡ omitted
    → r.upstream_auth_enc ≡ some value
    → (is_omitted d.upstream_auth && rebinds d (some r)) ≡ false
    → (d.base_url ≡ r.base_url) × ((not r.tls_trust && d.tls_trust) ≡ false)
omitted_stays d r value sent has guard =
    let stay : moves_credential r d ≡ false =
      sym (
        ap (λ x. is_omitted x && (is_some r.upstream_auth_enc && moves_credential r d)) sent
        ∙ ap (λ x. is_some x && moves_credential r d) has)
      ∙ guard in
    (
      ground (arith, stay, eq_iff r.base_url d.base_url, eq_iff d.base_url r.base_url),
      ground (arith, stay),
    )

some-inj : {A : Type 0} (x y : A) → some x ≡ some y → x ≡ y
some-inj x y h = cc

module _ (crypto : Crypto) (lower_case : String → String) (ring : SealKeyring crypto) where
  credential-omitted :
      (bind : SealBinding) (iv : crypto.Bytes) (enc : Option (Option String))
      → credential crypto lower_case ring omitted bind iv ≡ returns enc
      → enc ≡ none
  unfolding credential
  credential-omitted bind iv enc h = sym (returns-inj _ enc h)

  -- An update that returns without naming the credential of a flock that has one keeps it, keeps the address
  -- that it goes to, and does not switch the trust in any TLS certificate on.
  pub save_flock-keeps :
      (actor : Actor) (d : SaveFlockInput) (id new_id value : String) (iv : crypto.Bytes)
      (r : FlockRow) (db : Db) (made : FlockView × Db)
      → d.id ≡ some id
      → d.upstream_auth ≡ omitted
      → find (is_flock actor.org_id id) db.flocks ≡ some r
      → r.upstream_auth_enc ≡ some value
      → save_flock crypto lower_case ring actor (some d) new_id iv db ≡ returns made
      → (stored : FlockRow) × (find (is_flock actor.org_id id) made.1.flocks ≡ some stored)
        × (stored.upstream_auth_enc ≡ some value)
        × (stored.base_url ≡ r.base_url)
        × (not r.tls_trust && stored.tls_trust ≡ false)
  unfolding write_flock
  save_flock-keeps actor d id new_id value iv r db made is_id sent at has run =
      let bind : SealBinding = record { org_id = actor.org_id; flock_id = or_else d.id new_id } in
      let (enc, col, wrote) =
        save_flock-writes crypto lower_case ring actor d new_id iv db made run in
      let none_sent =
        credential-omitted bind iv enc
          (sym (ap (λ x. credential crypto lower_case ring x bind iv) sent) ∙ col) in
      let (r', at', guard, after, _) =
        update_flock-rows actor d id enc db made
          (sym (ap (λ o. write_flock actor d new_id o enc db) is_id) ∙ wrote) in
      let same = some-inj r' r (sym at' ∙ at) in
      let has' = ap (λ (x : FlockRow). x.upstream_auth_enc) same ∙ has in
      let (url, tls) = omitted_stays d r' value sent has' guard in
      (
        with_input d enc r',
        after,
        ap (enc_after r'.upstream_auth_enc) none_sent ∙ has',
        url ∙ ap (λ (x : FlockRow). x.base_url) same,
        sym (ap (λ (x : FlockRow). not x.tls_trust && d.tls_trust) same) ∙ tls,
      )
