-- ===== src/Storage/Sqlite/Projects.antt =====
-- The methods of sqlite.go on projects.
use oximetric.Base.{
  ℤ, not, ◌&&◌, List, [], ◌∷◌, ◌++◌, Option, none, ◌==◌, int_eq, str_eq, if◌then◌else◌, keep,
  update_where, is_positive,
}
use oximetric.Model.{Project, AppUser, Device, EventProperty}
use oximetric.Storage.Store.{Result, Done, ok}
use oximetric.Storage.Schema.{
  TokenRow, EventRow, Db, statement, first_row, fresh_id, order_by, has_device, has_app_user?,
  has_event,
}

unfoldable pub create_project_run : Project → Db → Db × Result Project
create_project_run project db =
    let id = fresh_id (λ (p : Project). p.id) db.projects in
    (
      record db { projects = db.projects ++ record project { id = id; created_at = db.now } ∷ [] },
      ok (record project { id = id }),
    )

unfoldable pub create_project : Project → Db → Db × Result Project
unfolding create_project_run
create_project project = statement (create_project_run project)

unfoldable pub get_project : ℤ → Db → Db × Result Project
get_project id = statement (λ db. (db, first_row (λ p. p.id == id) db.projects))

abbrev pub set_project : Project → Project → Project
set_project project row = record project { id = row.id; created_at = row.created_at }

unfoldable pub update_project : Project → Db → Db × Done
update_project project = statement λ db. (
  record db { projects = update_where (λ r. r.id == project.id) (set_project project) db.projects },
  ok tt,
)

-- ON DELETE SET NULL, once the app users that are left are known.
abbrev pub null_if_gone : List AppUser → Option ℤ → Option ℤ
null_if_gone us user = if has_app_user? us user then user else none

abbrev pub unlink_devices : List AppUser → List Device → List Device
unlink_devices us [] = []
unlink_devices us (d ∷ ds) = record d { user_id = null_if_gone us d.user_id } ∷ unlink_devices us ds

abbrev pub unlink_events : List AppUser → List EventRow → List EventRow
unlink_events us [] = []
unlink_events us (e ∷ es) = record e { user_id = null_if_gone us e.user_id } ∷ unlink_events us es

-- DELETE FROM projects WHERE id = ?, with the deletions that cascade from it: the tokens, the app
-- users and the devices of the project; the events of the project or of a deleted device; the
-- properties of a deleted event. References to a deleted app user become NULL.
unfoldable pub delete_project_run : ℤ → Db → Db
delete_project_run id db =
    let users = keep (λ (u : AppUser). not (u.project_id == id)) db.app_users in
    let gone = keep (λ (d : Device). d.project_id == id) db.devices in
    let stays = λ (e : EventRow). not (e.project_id == id) && not (has_device gone e.device_id) in
    let gone_events = keep (λ (e : EventRow). not (stays e)) db.events in
    record db {
      projects = keep (λ (p : Project). not (p.id == id)) db.projects;
      tokens = keep (λ (t : TokenRow). not (t.project_id == id)) db.tokens;
      app_users = users;
      devices = unlink_devices users (keep (λ (d : Device). not (d.project_id == id)) db.devices);
      events = unlink_events users (keep stays db.events);
      properties =
          keep (λ (p : EventProperty). not (has_event gone_events p.event_id)) db.properties;
    }

unfoldable pub delete_project : ℤ → Db → Db × Done
unfolding delete_project_run
delete_project id = statement (λ db. (delete_project_run id db, ok tt))

unfoldable pub list_projects : Db → Db × Result (List Project)
list_projects = statement λ db. (db, ok (order_by (λ (p : Project). p.created_at) db.projects))

unfoldable pub get_projects_with_retention : Db → Db × Result (List Project)
get_projects_with_retention =
    statement λ db. (db, ok (keep (λ (p : Project). is_positive p.retention_days) db.projects))
