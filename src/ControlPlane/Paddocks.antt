-- ===== src/ControlPlane/Paddocks.antt =====
-- apps/control-plane/src/server/paddocks-service.ts.
use metamodels.Common.{
  append, String, Bool, true, false, not, ◌&&◌, ◌||◌, Option, none, some, [], ◌∷◌, ◌++◌, str_eq,
  if◌then◌else◌, or_else, find, any,
}
use metamodels.Json.{null, str, obj, end, field}
use metamodels.ControlPlane.Authorize.{Actor, read, resource_write, authorize}
use metamodels.ControlPlane.Database.{
  ◌>>=◌, ◌>>◌, Paddock, Db, not_found, slug_taken, invalid_input, unique_violation, Reply, returns,
  throws, fail_if, or_fail, require_capability, update_where, write_audit, delete_paddocks,
}
use metamodels.ControlPlane.Flocks.{is_flock}

-- `savePaddockInput`, as its schema gives it.
pub record SavePaddockInput : Type 0 where
  pub id : Option String
  pub flock_id : String
  pub name : String
  pub slug : String
  pub status : Option String
  pub theme : String

abbrev pub is_paddock : String → String → Paddock → Bool
is_paddock org_id id p = str_eq p.id id && str_eq p.org_id org_id

unfoldable pub get_paddock : Actor → String → Db → Reply Paddock
unfolding authorize
get_paddock actor id db = do
  require_capability actor read
  or_fail (find (is_paddock actor.org_id id) db.paddocks) (not_found id)

abbrev is_other : Option String → Paddock → Bool
is_other none p = true
is_other (some id) p = not (str_eq p.id id)

-- The slug is that of another paddock, of whatever organisation.
abbrev pub clashes : SavePaddockInput → Option Paddock → Bool
clashes d none = false
clashes d (some p) = is_other d.id p

-- A status that the input does not name stays.
abbrev pub with_values : SavePaddockInput → Paddock → Paddock
with_values d p = record p {
  flock_id = d.flock_id;
  name = d.name;
  slug = d.slug;
  theme = d.theme;
  status = or_else d.status p.status;
}

abbrev paddock_target : String → String
paddock_target id = append "paddock:" id

abbrev pub paddock_row : Actor → SavePaddockInput → String → Paddock
paddock_row actor d id = record {
  id = id;
  org_id = actor.org_id;
  flock_id = d.flock_id;
  slug = d.slug;
  name = d.name;
  status = or_else d.status "active";
  theme = d.theme;
}

abbrev insert_paddock : Paddock → Db → Reply Db
insert_paddock new db =
    if any (λ (p : Paddock). str_eq p.id new.id || str_eq p.slug new.slug) db.paddocks
    then throws unique_violation
    else returns (record db { paddocks = db.paddocks ++ new ∷ [] })

unfoldable pub write_paddock :
    Actor → SavePaddockInput → String → Option String → Db → Reply (Paddock × Db)
unfolding write_audit
write_paddock actor d new_id (some id) db = do
  p ← or_fail (find (is_paddock actor.org_id id) db.paddocks) (not_found id)
  returns (
    with_values d p,
    write_audit actor "paddock.update" (paddock_target id) (obj (field "slug" (str d.slug) end))
        (record db {
          paddocks = update_where (is_paddock actor.org_id id) (with_values d) db.paddocks;
        }),
  )
write_paddock actor d new_id none db = do
  db' ← insert_paddock (paddock_row actor d new_id) db
  returns (
    paddock_row actor d new_id,
    write_audit actor "paddock.create" (paddock_target new_id)
        (obj (field "slug" (str d.slug) (field "flockId" (str d.flock_id) end))) db',
  )

unfoldable pub save_paddock : Actor → Option SavePaddockInput → String → Db → Reply (Paddock × Db)
unfolding write_paddock authorize
save_paddock actor input new_id db = do
  require_capability actor resource_write
  d ← or_fail input invalid_input
  fail_if (not (any (is_flock actor.org_id d.flock_id) db.flocks)) (not_found d.flock_id)
  fail_if (clashes d (find (λ (p : Paddock). str_eq p.slug d.slug) db.paddocks)) (slug_taken d.slug)
  write_paddock actor d new_id d.id db

abbrev with_status : String → Paddock → Paddock
with_status status p = record p { status = status }

unfoldable pub set_paddock_status : Actor → String → String → Db → Reply (Paddock × Db)
unfolding write_audit authorize
set_paddock_status actor id status db = do
  require_capability actor resource_write
  p ← or_fail (find (is_paddock actor.org_id id) db.paddocks) (not_found id)
  returns (
    with_status status p,
    write_audit actor "paddock.status" (paddock_target id) (obj (field "status" (str status) end))
        (record db {
          paddocks = update_where (is_paddock actor.org_id id) (with_status status) db.paddocks;
        }),
  )

unfoldable pub delete_paddock : Actor → String → Db → Reply Db
unfolding write_audit authorize delete_paddocks
delete_paddock actor id db = do
  require_capability actor resource_write
  fail_if (not (any (is_paddock actor.org_id id) db.paddocks)) (not_found id)
  returns (
      write_audit actor "paddock.delete" (paddock_target id) null
        (delete_paddocks (is_paddock actor.org_id id) db))
