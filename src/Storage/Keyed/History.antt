-- ===== src/Storage/Keyed/History.antt =====
-- Whatever the program calls, and whenever the driver fails, the keys hold.
use oximetric.Base.{List, [], ◌∷◌}
use oximetric.Storage.Schema.{Db}
use oximetric.Storage.Sound.History.{Call, run_call, run_calls, empty_db}
use oximetric.Storage.Keyed.{IsKeyed}
use oximetric.Storage.Keyed.Tables.{IsKeyed-faults}
use oximetric.Storage.Keyed.Operations.{
  create_console_user-Keeps, update_console_user-Keeps, delete_console_user-Keeps,
  create_project-Keeps, update_project-Keeps, create_project_token-Keeps,
  update_project_token-Keeps, delete_project_token-Keeps, upsert_device-Keeps,
  link_device_to_user-Keeps, insert_event-Keeps,
}
use oximetric.Storage.Keyed.Cascade.{
  get_or_create_app_user-Keeps, insert_event_properties-IsKeyed, delete_project-Keeps,
  cleanup_events-Keeps,
}

run_call-IsKeyed : (c : Call) (db : Db) → IsKeyed db → IsKeyed (run_call c db)
unfolding run_call
run_call-IsKeyed (Call.create_user u) = create_console_user-Keeps u
run_call-IsKeyed (Call.update_user u) = update_console_user-Keeps u
run_call-IsKeyed (Call.delete_user id) = delete_console_user-Keeps id
run_call-IsKeyed (Call.new_project p) = create_project-Keeps p
run_call-IsKeyed (Call.update_project p) = update_project-Keeps p
run_call-IsKeyed (Call.delete_project id) = delete_project-Keeps id
run_call-IsKeyed (Call.create_token t) = create_project_token-Keeps t
run_call-IsKeyed (Call.update_token t) = update_project_token-Keeps t
run_call-IsKeyed (Call.delete_token id) = delete_project_token-Keeps id
run_call-IsKeyed (Call.upsert d) = upsert_device-Keeps d
run_call-IsKeyed (Call.link device_id user_id) = link_device_to_user-Keeps device_id user_id
run_call-IsKeyed (Call.identify project_id anonymous_id) =
    get_or_create_app_user-Keeps project_id anonymous_id
run_call-IsKeyed (Call.event e) = insert_event-Keeps e
run_call-IsKeyed (Call.properties ps) = insert_event_properties-IsKeyed ps
run_call-IsKeyed (Call.cleanup project_id before) = cleanup_events-Keeps project_id before
run_call-IsKeyed (Call.set_clock now) = λ db k. record {
  projects = k.projects;
  tokens = k.tokens;
  console_users = k.console_users;
  roles = k.roles;
  app_users = k.app_users;
  devices = k.devices;
  events = k.events;
  properties = k.properties;
}
run_call-IsKeyed (Call.set_faults faults) = λ db. IsKeyed-faults db faults

run_calls_from-IsKeyed : (cs : List Call) (db : Db) → IsKeyed db → IsKeyed (run_calls cs db)
unfolding run_calls
run_calls_from-IsKeyed [] db k = k
run_calls_from-IsKeyed (c ∷ cs) db k =
    run_calls_from-IsKeyed cs (run_call c db) (run_call-IsKeyed c db k)

-- After any sequence of writing calls on the empty database, with any failures of the driver among
-- their statements, no two rows of a table share an id, no two tokens their text, no two console users a name
-- or an email, no two app users of a project their anonymous id, and every console user has one of
-- the three roles.
pub run_calls-IsKeyed : (cs : List Call) → IsKeyed (run_calls cs empty_db)
run_calls-IsKeyed cs = run_calls_from-IsKeyed cs empty_db (record {
  projects = tt;
  tokens = tt;
  console_users = tt;
  roles = tt;
  app_users = tt;
  devices = tt;
  events = tt;
  properties = tt;
})
