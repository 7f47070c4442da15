-- ===== src/Storage/Sqlite/Events.antt =====
-- The methods of sqlite.go on events and event_properties.
use oximetric.Base.{
  ℕ, ℤ, Str, lit, Bool, true, false, not, ◌&&◌, ◌||◌, List, [], ◌∷◌, ◌++◌, Option, none, some, ◌==◌,
  int_eq, str_eq, if◌then◌else◌, is_empty, ltb, keep, length,
}
use oximetric.Model.{Time, Event, EventProperty}
use oximetric.Storage.Store.{Result, Done, ok, err}
use oximetric.Storage.Schema.{
  EventRow, Db, statement, refused_if, fresh_id, has_project, has_app_user?, has_device, has_event,
}

abbrev pub null_str : Str → Option Str
null_str s = if is_empty s then none else some s

abbrev pub event_row : Event → Time → EventRow
event_row event now = record {
  id = event.id;
  project_id = event.project_id;
  device_id = event.device_id;
  user_id = event.user_id;
  name = event.name;
  timestamp = event.timestamp;
  ip_address = null_str event.ip_address;
  country = null_str event.country;
  city = null_str event.city;
  created_at = now;
}

-- The foreign keys of an event.
abbrev pub has_references : Event → Db → Bool
has_references event db =
    has_project db.projects event.project_id
    && has_device db.devices event.device_id
    && has_app_user? db.app_users event.user_id

-- INSERT OR IGNORE passes over a taken id. A missing project, device or user is an error, since
-- OR IGNORE does not cover foreign keys.
unfoldable pub insert_event_run : Event → Db → Db × Result Bool
insert_event_run event db =
    if has_event db.events event.id
    then (db, ok false)
    else refused_if (not (has_references event db)) db
        (record db { events = db.events ++ event_row event db.now ∷ [] }, ok true)

unfoldable pub insert_event : Event → Db → Db × Result Bool
unfolding insert_event_run
insert_event event = statement (insert_event_run event)

-- CHECK (value_type IN ('string', 'int', 'float', 'bool', 'datetime'))
unfoldable pub is_value_type : Str → Bool
is_value_type t =
    t == lit "string"
    || t == lit "int"
    || t == lit "float"
    || t == lit "bool"
    || t == lit "datetime"

unfoldable pub insert_property_run : EventProperty → Db → Db × Done
insert_property_run p db =
    let id = fresh_id (λ (q : EventProperty). q.id) db.properties in
    refused_if (not (has_event db.events p.event_id && is_value_type p.value_type)) db
      (record db { properties = db.properties ++ record p { id = id } ∷ [] }, ok tt)

infixl 5 ◌then_run◌
unfoldable pub ◌then_run◌ : Db × Done → (Db → Db × Done) → Db × Done
(db, ok done) then_run next = next db
(db, err e) then_run next = (db, err e)

-- The loop over the prepared statement: it stops at the first error.
unfoldable pub insert_properties_loop : List EventProperty → Db → Db × Done
unfolding ◌then_run◌
insert_properties_loop [] db = (db, ok tt)
insert_properties_loop (p ∷ ps) db =
    statement (insert_property_run p) db then_run insert_properties_loop ps

-- A statement that touches no table: BEGIN, PREPARE, COMMIT.
unfoldable pub bare : Db → Db × Done
bare = statement (λ db. (db, ok tt))

-- The deferred rollback: the properties are as they were, unless the commit has gone through.
unfoldable pub rolled_back : List EventProperty → Db × Done → Db × Done
rolled_back before (db, ok done) = (db, ok done)
rolled_back before (db, err e) = (record db { properties = before }, err e)

unfoldable pub insert_event_properties : List EventProperty → Db → Db × Done
unfolding insert_properties_loop bare rolled_back
insert_event_properties props db =
    rolled_back db.properties
      (bare db then_run bare then_run insert_properties_loop props then_run bare)

-- DELETE FROM events WHERE project_id = ? AND created_at < ?, with the cascade to the properties.
abbrev pub is_expired : ℤ → Time → EventRow → Bool
is_expired project_id before e = e.project_id == project_id && ltb e.created_at before

unfoldable pub cleanup_run : ℤ → Time → Db → Db × Result ℕ
cleanup_run project_id before db =
    let gone = keep (is_expired project_id before) db.events in
    (
      record db {
        events = keep (λ e. not (is_expired project_id before e)) db.events;
        properties = keep (λ (p : EventProperty). not (has_event gone p.event_id)) db.properties;
      },
      ok (length gone),
    )

unfoldable pub cleanup_events : ℤ → Time → Db → Db × Result ℕ
unfolding cleanup_run
cleanup_events project_id before = statement (cleanup_run project_id before)
