-- ===== src/Storage/Sound/History.antt =====
-- Whatever the program calls, and whenever the driver fails, the references stay whole.
use oximetric.Base.{ℤ, Str, Bool, List, [], ◌∷◌}
use oximetric.Model.{Time, Project, ProjectToken, ConsoleUser, Device, Event, EventProperty}
use oximetric.Storage.Schema.{Db}
use oximetric.Storage.Sqlite.Users.{create_console_user, update_console_user, delete_console_user}
use oximetric.Storage.Sqlite.Projects
use oximetric.Storage.Sqlite.Projects.{create_project}
use oximetric.Storage.Sqlite.Tokens.{
  create_project_token, update_project_token, delete_project_token,
}
use oximetric.Storage.Sqlite.Devices.{upsert_device, link_device_to_user, get_or_create_app_user}
use oximetric.Storage.Sqlite.Events.{insert_event, insert_event_properties, cleanup_events}
use oximetric.Storage.Sound.{IsSound}
use oximetric.Storage.Sound.Operations.{
  create_console_user-Keeps, update_console_user-Keeps, delete_console_user-Keeps,
  create_project-Keeps, update_project-Keeps, create_project_token-Keeps,
  update_project_token-Keeps, delete_project_token-Keeps, upsert_device-Keeps,
  link_device_to_user-Keeps, get_or_create_app_user-Keeps, insert_event-Keeps,
}
use oximetric.Storage.Sound.Properties.{insert_event_properties-Keeps}
use oximetric.Storage.Sound.Cascade.{delete_project-Keeps, cleanup_events-Keeps}

-- The calls of the store that write, and what the world does meanwhile: the clock of the database
-- is set, and the driver's coming failures are chosen.
pub data Call : Type 0 where
  create_user update_user : ConsoleUser → Call
  delete_user : ℤ → Call
  new_project update_project : Project → Call
  delete_project : ℤ → Call
  create_token update_token : ProjectToken → Call
  delete_token : ℤ → Call
  upsert : Device → Call
  link : Str → ℤ → Call
  identify : ℤ → Str → Call
  event : Event → Call
  properties : List EventProperty → Call
  cleanup : ℤ → Time → Call
  set_clock : Time → Call
  set_faults : List Bool → Call

unfoldable pub run_call : Call → Db → Db
run_call (Call.create_user u) db = (create_console_user u db).0
run_call (Call.update_user u) db = (update_console_user u db).0
run_call (Call.delete_user id) db = (delete_console_user id db).0
run_call (Call.new_project p) db = (create_project p db).0
run_call (Call.update_project p) db = (Projects.update_project p db).0
run_call (Call.delete_project id) db = (Projects.delete_project id db).0
run_call (Call.create_token t) db = (create_project_token t db).0
run_call (Call.update_token t) db = (update_project_token t db).0
run_call (Call.delete_token id) db = (delete_project_token id db).0
run_call (Call.upsert d) db = (upsert_device d db).0
run_call (Call.link device_id user_id) db = (link_device_to_user device_id user_id db).0
run_call (Call.identify project_id anonymous_id) db =
    (get_or_create_app_user project_id anonymous_id db).0
run_call (Call.event e) db = (insert_event e db).0
run_call (Call.properties ps) db = (insert_event_properties ps db).0
run_call (Call.cleanup project_id before) db = (cleanup_events project_id before db).0
run_call (Call.set_clock now) db = record db { now = now }
run_call (Call.set_faults faults) db = record db { faults = faults }

unfoldable pub run_calls : List Call → Db → Db
unfolding run_call
run_calls [] db = db
run_calls (c ∷ cs) db = run_calls cs (run_call c db)

-- The tables that the migration creates.
abbrev pub empty_db : Db
empty_db = record {
  projects = [];
  tokens = [];
  console_users = [];
  app_users = [];
  devices = [];
  events = [];
  properties = [];
  faults = [];
  now = 0;
}

run_call-IsSound : (c : Call) (db : Db) → IsSound db → IsSound (run_call c db)
unfolding run_call
run_call-IsSound (Call.create_user u) db s = create_console_user-Keeps u db s
run_call-IsSound (Call.update_user u) db s = update_console_user-Keeps u db s
run_call-IsSound (Call.delete_user id) db s = delete_console_user-Keeps id db s
run_call-IsSound (Call.new_project p) db s = create_project-Keeps p db s
run_call-IsSound (Call.update_project p) db s = update_project-Keeps p db s
run_call-IsSound (Call.delete_project id) db s = delete_project-Keeps id db s
run_call-IsSound (Call.create_token t) db s = create_project_token-Keeps t db s
run_call-IsSound (Call.update_token t) db s = update_project_token-Keeps t db s
run_call-IsSound (Call.delete_token id) db s = delete_project_token-Keeps id db s
run_call-IsSound (Call.upsert d) db s = upsert_device-Keeps d db s
run_call-IsSound (Call.link device_id user_id) db s =
    link_device_to_user-Keeps device_id user_id db s
run_call-IsSound (Call.identify project_id anonymous_id) db s =
    get_or_create_app_user-Keeps project_id anonymous_id db s
run_call-IsSound (Call.event e) db s = insert_event-Keeps e db s
run_call-IsSound (Call.properties ps) db s = insert_event_properties-Keeps ps db s
run_call-IsSound (Call.cleanup project_id before) db s = cleanup_events-Keeps project_id before db s
run_call-IsSound (Call.set_clock now) db s = record {
  tokens = s.tokens;
  app_users = s.app_users;
  devices = s.devices;
  events = s.events;
  properties = s.properties;
}
run_call-IsSound (Call.set_faults faults) db s = record {
  tokens = s.tokens;
  app_users = s.app_users;
  devices = s.devices;
  events = s.events;
  properties = s.properties;
}

run_calls_from-IsSound : (cs : List Call) (db : Db) → IsSound db → IsSound (run_calls cs db)
unfolding run_calls
run_calls_from-IsSound [] db s = s
run_calls_from-IsSound (c ∷ cs) db s =
    run_calls_from-IsSound cs (run_call c db) (run_call-IsSound c db s)

-- After any sequence of writing calls on the empty database, with any failures of the driver among
-- their statements, every project, device, app user and event that a row refers to has its row.
pub run_calls-IsSound : (cs : List Call) → IsSound (run_calls cs empty_db)
run_calls-IsSound cs =
    run_calls_from-IsSound cs empty_db
      (record { tokens = tt; app_users = tt; devices = tt; events = tt; properties = tt })
