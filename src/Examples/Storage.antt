-- ===== src/Examples/Storage.antt =====
-- A database with one project, one device and one event.
use oximetric.Base.{Str, lit, pos, true, List, [], ◌∷◌, none, some, ◌≡◌, refl, str_beq}
use oximetric.Model.{Project, Device, Event, EventProperty}
use oximetric.Storage.Store.{err, failed}
use oximetric.Storage.Schema.{Db, statement, refused_if}
use oximetric.Storage.Sqlite.Events.{
  event_row, bare, ◌then_run◌, insert_properties_loop, insert_property_run, is_value_type,
  rolled_back, insert_event_properties,
}
use oximetric.Storage.Keyed.{IsKeyed}
use oximetric.Storage.Keyed.History.{run_calls-IsKeyed}
use oximetric.Storage.Sound.{IsSound}
use oximetric.Storage.Sound.Properties.{insert_event_properties_atomic}
use oximetric.Storage.Sound.History.{Call, empty_db, run_calls, run_calls-IsSound}

abbrev site : Project
site = record { id = pos 1; name = lit "site"; retention_days = pos 30; created_at = 5 }

abbrev phone : Device
phone = record {
  id = lit "d";
  project_id = pos 1;
  user_id = none;
  platform = lit "ios";
  os_version = [];
  app_version = [];
  locale = [];
  first_seen_at = 5;
  last_seen_at = 5;
}

abbrev opened : Event
opened = record {
  id = lit "e";
  project_id = pos 1;
  device_id = lit "d";
  user_id = none;
  name = lit "open";
  timestamp = [];
  ip_address = [];
  country = [];
  city = [];
  created_at = 0;
}

-- A property of the event, of a given type.
abbrev typed : Str → EventProperty
typed type = record {
  id = pos 0;
  event_id = lit "e";
  key = lit "k";
  value_type = type;
  value_string = none;
  value_int = none;
  value_float = none;
  value_bool = some true;
  value_datetime = none;
}

abbrev pub one_event : Db
one_event = record {
  projects = site ∷ [];
  tokens = [];
  console_users = [];
  app_users = [];
  devices = phone ∷ [];
  events = event_row opened 7 ∷ [];
  properties = [];
  faults = [];
  now = 9;
}

-- The second property's type breaks the CHECK of the table.
abbrev mixed : List EventProperty
mixed = typed (lit "bool") ∷ typed (lit "date") ∷ []

mixed_failed : (insert_event_properties mixed one_event).1 ≡ err failed
unfolding insert_event_properties bare ◌then_run◌ insert_properties_loop insert_property_run
    is_value_type rolled_back statement refused_if lit str_beq
mixed_failed = refl

insert_event_properties_atomic_example :
    record ((insert_event_properties mixed one_event).0) { faults = [] } ≡ one_event
insert_event_properties_atomic_example =
    insert_event_properties_atomic mixed one_event failed mixed_failed

-- A history with a failing statement, in which the project goes last.
abbrev history : List Call
history =
    Call.new_project site
    ∷ Call.upsert phone
    ∷ Call.event opened
    ∷ Call.set_faults (true ∷ [])
    ∷ Call.properties mixed
    ∷ Call.properties (typed (lit "bool") ∷ [])
    ∷ Call.delete_project (pos 1)
    ∷ []

run_calls-IsSound_example : IsSound (run_calls history empty_db)
run_calls-IsSound_example = run_calls-IsSound history

run_calls-IsKeyed_example : IsKeyed (run_calls history empty_db)
run_calls-IsKeyed_example = run_calls-IsKeyed history
