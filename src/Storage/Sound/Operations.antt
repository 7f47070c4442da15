-- ===== src/Storage/Sound/Operations.antt =====
-- Every statement but the two deletions with a cascade keeps the references whole.
use oximetric.Base.{
  ◌≡◌, refl, ap, ◌∙◌, ◌||◌, Bool, true, false, not, ℤ, Str, arith, update_where, ◌==◌, int_eq,
  str_eq, Bool-cases, inl, inr, All-concat, All-keep, All-update_where,
}
use oximetric.Model.{ConsoleUser, Project, ProjectToken, AppUser, Device, Event}
use oximetric.Storage.Store.{Result, ok, err, no_rows, failed}
use oximetric.Storage.Schema.{
  TokenRow, EventRow, Db, statement, first_row, has_project, has_app_user?, has_device, has_event,
}
use oximetric.Storage.Sound.{IsSound}
use oximetric.Storage.Sound.Rows.{
  update_where_none, exists_row-append, exists_row-update_where, has_app_user?-append,
}
use oximetric.Storage.Sqlite.Users.{create_console_user, update_console_user, delete_console_user}
use oximetric.Storage.Sqlite.Projects.{create_project, update_project, set_project}
use oximetric.Storage.Sqlite.Tokens.{
  create_project_token, update_project_token, delete_project_token, set_token,
}
use oximetric.Storage.Sqlite.Devices.{
  upsert_device, upsert_device_run, link_device_to_user, link_device_run, get_or_create_app_user,
  touch, set_user_id, insert_app_user_run, select_app_user, create_if_missing, is_app_user,
}
use oximetric.Storage.Sqlite.Events.{insert_event, insert_event_run}
use oximetric.Storage.Sound.Tables.{
  Keeps, statement-Keeps, with_users, with_projects, with_tokens, with_app_users, with_devices,
  with_events, refused_if-IsSound,
}

not-or_right : (a b : Bool) → (a || not b) ≡ false → b ≡ true
not-or_right a b h = ground arith

unnot : (b : Bool) → not b ≡ false → b ≡ true
unnot b h = ground arith

pub create_console_user-Keeps : (user : ConsoleUser) → Keeps (create_console_user user)
unfolding create_console_user
create_console_user-Keeps user =
    statement-Keeps _ λ db s. refused_if-IsSound _ db _ s (λ _. with_users s _)

pub update_console_user-Keeps : (user : ConsoleUser) → Keeps (update_console_user user)
unfolding update_console_user
update_console_user-Keeps user =
    statement-Keeps _ λ db s. refused_if-IsSound _ db _ s (λ _. with_users s _)

pub delete_console_user-Keeps : (id : ℤ) → Keeps (delete_console_user id)
unfolding delete_console_user
delete_console_user-Keeps id = statement-Keeps _ λ db s. with_users s _

pub create_project-Keeps : (project : Project) → Keeps (create_project project)
unfolding create_project
create_project-Keeps project = statement-Keeps _ λ db s.
    with_projects s _ (λ id h. exists_row-append (λ (p : Project). p.id == id) db.projects _ h)

pub update_project-Keeps : (project : Project) → Keeps (update_project project)
unfolding update_project
update_project-Keeps project = statement-Keeps _ λ db s. with_projects s _ (λ id h.
    exists_row-update_where (λ (p : Project). p.id == id) _ (set_project project) db.projects
      (λ p. refl)
    ∙ h)

pub create_project_token-Keeps : (token : ProjectToken) → Keeps (create_project_token token)
unfolding create_project_token
create_project_token-Keeps token = statement-Keeps _ λ db s.
    refused_if-IsSound _ db _ s
      (λ found. with_tokens s _ (All-concat _ db.tokens _ s.tokens (not-or_right _ _ found)))

pub update_project_token-Keeps : (token : ProjectToken) → Keeps (update_project_token token)
unfolding update_project_token
update_project_token-Keeps token = statement-Keeps _ λ db s. with_tokens s _ (
    All-update_where _ _ (λ (r : TokenRow). r.id == token.id) (set_token token) db.tokens (λ t h. h)
      (λ t h. h) s.tokens)

pub delete_project_token-Keeps : (id : ℤ) → Keeps (delete_project_token id)
unfolding delete_project_token
delete_project_token-Keeps id = statement-Keeps _ λ db s.
    with_tokens s _
      (All-keep _ _ (λ (t : TokenRow). not (t.id == id)) db.tokens (λ t _ h. h) s.tokens)

-- An update of devices that leaves the ids and the projects, and gives no dangling user.
update_devices-IsSound :
    {db : Db} (s : IsSound db) (q : Device → Bool) (g : Device → Device)
    → ((d : Device) → (g d).id ≡ d.id)
    → ((d : Device) → (g d).project_id ≡ d.project_id)
    → ((d : Device)
        → has_app_user? db.app_users d.user_id ≡ true
        → has_app_user? db.app_users (g d).user_id ≡ true)
    → IsSound (record db { devices = update_where q g db.devices })
update_devices-IsSound {db} s q g same_id same_project linked =
    with_devices s _
      (λ id h.
        exists_row-update_where (λ (d : Device). d.id == id) q g db.devices
          (λ d. ap (λ i. i == id) (same_id d))
        ∙ h)
      (All-update_where _ _ q g db.devices (λ d h. h)
        (λ d h. (ap (has_project db.projects) (same_project d) ∙ h.0, linked d h.1)) s.devices)

upsert_device_run-Keeps : (device : Device) → Keeps (upsert_device_run device)
unfolding upsert_device_run
upsert_device_run-Keeps device db s = elim (Bool-cases (has_device db.devices device.id)) [
  | inl e ↦ rw e (
      update_devices-IsSound s (λ d. d.id == device.id) (touch device db.now) (λ d. refl)
        (λ d. refl) (λ d h. h))
  | inr e ↦ rw e (
      refused_if-IsSound _ db _ s (λ found.
        with_devices s _ (λ id h. exists_row-append (λ (d : Device). d.id == id) db.devices _ h)
          (All-concat _ db.devices _ s.devices (unnot _ found, refl))))
]

pub upsert_device-Keeps : (device : Device) → Keeps (upsert_device device)
unfolding upsert_device
upsert_device-Keeps device = statement-Keeps _ (upsert_device_run-Keeps device)

link_device_run-Keeps : (device_id : Str) (user_id : ℤ) → Keeps (link_device_run device_id user_id)
unfolding link_device_run
link_device_run-Keeps device_id user_id db s = refused_if-IsSound _ db _ s λ found.
    elim (Bool-cases (has_device db.devices device_id)) [
      | inr e ↦
          rw
            (update_where_none (λ (d : Device). d.id == device_id) (set_user_id user_id) db.devices
              e)
            s
      | inl e ↦
          update_devices-IsSound s (λ d. d.id == device_id) (set_user_id user_id) (λ d. refl)
            (λ d. refl) (λ d _. ground arith)
    ]

pub link_device_to_user-Keeps :
    (device_id : Str) (user_id : ℤ) → Keeps (link_device_to_user device_id user_id)
unfolding link_device_to_user
link_device_to_user-Keeps device_id user_id =
    statement-Keeps _ (link_device_run-Keeps device_id user_id)

insert_event_run-Keeps : (event : Event) → Keeps (insert_event_run event)
unfolding insert_event_run
insert_event_run-Keeps event db s = elim (Bool-cases (has_event db.events event.id)) [
  | inl e ↦ rw e s
  | inr e ↦ rw e (
      refused_if-IsSound _ db _ s (λ found.
        with_events s _ (λ id h. exists_row-append (λ (e : EventRow). e.id == id) db.events _ h)
          (All-concat _ db.events _ s.events (ground arith, ground arith, ground arith))))
]

pub insert_event-Keeps : (event : Event) → Keeps (insert_event event)
unfolding insert_event
insert_event-Keeps event = statement-Keeps _ (insert_event_run-Keeps event)

insert_app_user_run-Keeps :
    (project_id : ℤ) (anonymous_id : Str) → Keeps (insert_app_user_run project_id anonymous_id)
unfolding insert_app_user_run
insert_app_user_run-Keeps project_id anonymous_id db s = refused_if-IsSound _ db _ s (λ found.
    with_app_users s _ (has_app_user?-append db.app_users _)
      (All-concat _ db.app_users _ s.app_users (not-or_right _ _ found)))

-- A query changes no table.
pub query-Keeps {ℓ} : {A : Type ℓ} (read : Db → Result A) → Keeps (statement (λ db. (db, read db)))
query-Keeps read = statement-Keeps _ λ db s. s

pub get_or_create_app_user-Keeps :
    (project_id : ℤ) (anonymous_id : Str) → Keeps (get_or_create_app_user project_id anonymous_id)
unfolding get_or_create_app_user
get_or_create_app_user-Keeps project_id anonymous_id db s =
    by_result (select_app_user project_id anonymous_id db)
      (query-Keeps (λ d. first_row (is_app_user project_id anonymous_id) d.app_users) db s)
  where
    by_result :
        (found : Db × Result AppUser)
        → IsSound found.0
        → IsSound (create_if_missing project_id anonymous_id found).0
    by_result (db', ok u) s' = s'
    by_result (db', err failed) s' = s'
    by_result (db', err no_rows) s' =
        statement-Keeps _ (insert_app_user_run-Keeps project_id anonymous_id) db' s'
