-- ===== src/Storage/Postgres/Events.antt =====
-- The methods of postgres.go on events and event_properties.
use oximetric.Base.{ℕ, ℤ, Str, Bool, not, ◌&&◌, List, [], ◌∷◌, ◌++◌}
use oximetric.Model.{Time, Event, EventProperty}
use oximetric.Storage.Store.{Result, Done, ok, err}
use oximetric.Storage.Schema.{Db, statement, refused_if, has_event}
use oximetric.Storage.Sqlite.Events as Sqlite
use oximetric.Storage.Sqlite.Events.{insert_event_run, is_value_type}
use oximetric.Storage.Postgres.{PgDb, on_tables, serial, property_ids}

module _ (is_timestamp : Str → Bool) where
  -- A text that is no timestamp is refused first, whether the id is taken or not.
  unfoldable pub insert_event : Event → PgDb → PgDb × Result Bool
  insert_event event = on_tables (
      statement
        λ db. refused_if (not (is_timestamp event.timestamp)) db (insert_event_run event db))

unfoldable pub insert_property_run : EventProperty → ℤ → Db → Db × Done
insert_property_run p id db =
    refused_if (not (has_event db.events p.event_id && is_value_type p.value_type)) db
      (record db { properties = db.properties ++ record p { id = id } ∷ [] }, ok tt)

infixl 5 ◌then_run◌
unfoldable pub ◌then_run◌ : PgDb × Done → (PgDb → PgDb × Done) → PgDb × Done
(s, ok done) then_run next = next s
(s, err e) then_run next = (s, err e)

-- The loop over the prepared statement: it stops at the first error.
unfoldable pub insert_properties_loop : List EventProperty → PgDb → PgDb × Done
unfolding insert_property_run ◌then_run◌
insert_properties_loop [] s = (s, ok tt)
insert_properties_loop (p ∷ ps) s =
    serial property_ids (insert_property_run p) s then_run insert_properties_loop ps

-- PING, BEGIN, PREPARE, COMMIT.
unfoldable pub bare : PgDb → PgDb × Done
bare = on_tables Sqlite.bare

-- The deferred rollback: the properties are as they were, unless the commit has gone through. The
-- sequence is not rolled back.
unfoldable pub rolled_back : List EventProperty → PgDb × Done → PgDb × Done
rolled_back before (s, ok done) = (s, ok done)
rolled_back before (s, err e) =
    (record s { tables = record s.tables { properties = before } }, err e)

unfoldable pub insert_event_properties : List EventProperty → PgDb → PgDb × Done
unfolding insert_properties_loop bare rolled_back ◌then_run◌
insert_event_properties props s =
    rolled_back s.tables.properties
      (bare s then_run bare then_run insert_properties_loop props then_run bare)

unfoldable pub cleanup_events : ℤ → Time → PgDb → PgDb × Result ℕ
cleanup_events project_id before = on_tables (Sqlite.cleanup_events project_id before)
