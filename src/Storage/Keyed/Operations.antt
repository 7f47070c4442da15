-- ===== src/Storage/Keyed/Operations.antt =====
-- Every statement on one table keeps the keys.
use oximetric.Base.{
  ◌≡◌, refl, ap, not, Bool, ℤ, Str, arith, update_where, ◌==◌, int_eq, str_eq, Bool-cases, inl, inr,
  All-concat, All-keep, All-update_where,
}
use oximetric.Model.{ConsoleUser, Project, ProjectToken, Device, Event}
use oximetric.Storage.Schema.{TokenRow, Db, has_device, has_event, exists_row, fresh_id}
use oximetric.Storage.Keyed.{same_project, same_token, same_user, same_device, same_event, IsKeyed}
use oximetric.Storage.Sound.Rows.{update_where_none}
use oximetric.Storage.Keyed.Tables.{
  Keeps, statement-Keeps, refused_if-IsKeyed, with_projects, with_tokens, with_devices, with_events,
  with_users,
}
use oximetric.Storage.Keyed.Rows.{
  exists_row-or, Pairwise-concat, Pairwise-keep, Pairwise-update_where, Pairwise-set_user,
  fresh_id-above,
}
use oximetric.Storage.Sqlite.Users.{
  clashes, set_user, create_console_user, update_console_user, delete_console_user,
}
use oximetric.Storage.Sqlite.Projects.{create_project, update_project, set_project}
use oximetric.Storage.Sqlite.Tokens.{
  create_project_token, update_project_token, delete_project_token, set_token,
}
use oximetric.Storage.Sqlite.Devices.{
  upsert_device, upsert_device_run, link_device_to_user, touch, set_user_id,
}
use oximetric.Storage.Sqlite.Events.{insert_event, insert_event_run}

pub create_console_user-Keeps : (user : ConsoleUser) → Keeps (create_console_user user)
unfolding create_console_user
create_console_user-Keeps user = statement-Keeps _ λ db k. refused_if-IsKeyed _ db _ k (λ found.
    with_users k _
      (Pairwise-concat same_user db.console_users _ k.console_users (
        exists_row-or (λ u. u.id == fresh_id (λ (u : ConsoleUser). u.id) db.console_users)
          (clashes user) db.console_users
          (fresh_id-above (λ (u : ConsoleUser). u.id) db.console_users) (ground arith)))
      (All-concat _ db.console_users _ k.roles (ground arith)))

pub update_console_user-Keeps : (user : ConsoleUser) → Keeps (update_console_user user)
unfolding update_console_user
update_console_user-Keeps user = statement-Keeps _ λ db k. refused_if-IsKeyed _ db _ k (λ allowed.
    elim (Bool-cases (exists_row (λ (r : ConsoleUser). r.id == user.id) db.console_users)) [
      | inr e ↦
          rw
            (update_where_none (λ (r : ConsoleUser). r.id == user.id) (set_user user)
              db.console_users e)
            k
      | inl e ↦
          with_users k _ (Pairwise-set_user user db.console_users k.console_users (ground arith)) (
            All-update_where _ _ (λ (r : ConsoleUser). r.id == user.id) (set_user user)
              db.console_users (λ u h. h) (λ u h. ground arith) k.roles)
    ])

pub delete_console_user-Keeps : (id : ℤ) → Keeps (delete_console_user id)
unfolding delete_console_user
delete_console_user-Keeps id = statement-Keeps _ λ db k.
    with_users k _ (Pairwise-keep same_user _ db.console_users k.console_users)
      (All-keep _ _ (λ (u : ConsoleUser). not (u.id == id)) db.console_users (λ u _ h. h) k.roles)

pub create_project-Keeps : (project : Project) → Keeps (create_project project)
unfolding create_project
create_project-Keeps project = statement-Keeps _ λ db k. with_projects k _ (
    Pairwise-concat same_project db.projects _ k.projects
      (fresh_id-above (λ (p : Project). p.id) db.projects))

pub update_project-Keeps : (project : Project) → Keeps (update_project project)
unfolding update_project
update_project-Keeps project = statement-Keeps _ λ db k. with_projects k _ (
    Pairwise-update_where same_project (λ r. r.id == project.id) (set_project project) db.projects
      (λ x y. refl) (λ x y. refl) k.projects)

pub create_project_token-Keeps : (token : ProjectToken) → Keeps (create_project_token token)
unfolding create_project_token
create_project_token-Keeps token = statement-Keeps _ λ db k. refused_if-IsKeyed _ db _ k (λ found.
    with_tokens k _ (
      Pairwise-concat same_token db.tokens _ k.tokens (
        exists_row-or (λ t. t.id == fresh_id (λ (t : TokenRow). t.id) db.tokens)
          (λ t. t.token == token.token) db.tokens
          (fresh_id-above (λ (t : TokenRow). t.id) db.tokens) (ground arith))))

pub update_project_token-Keeps : (token : ProjectToken) → Keeps (update_project_token token)
unfolding update_project_token
update_project_token-Keeps token = statement-Keeps _ λ db k. with_tokens k _ (
    Pairwise-update_where same_token (λ r. r.id == token.id) (set_token token) db.tokens
      (λ x y. refl) (λ x y. refl) k.tokens)

pub delete_project_token-Keeps : (id : ℤ) → Keeps (delete_project_token id)
unfolding delete_project_token
delete_project_token-Keeps id =
    statement-Keeps _ λ db k. with_tokens k _ (Pairwise-keep same_token _ db.tokens k.tokens)

-- An update of devices that leaves the ids.
devices-IsKeyed :
    {db : Db} (k : IsKeyed db) (q : Device → Bool) (g : Device → Device)
    → ((d : Device) → (g d).id ≡ d.id)
    → IsKeyed (record db { devices = update_where q g db.devices })
devices-IsKeyed {db} k q g same = with_devices k _ (
    Pairwise-update_where same_device q g db.devices (λ x y. ap (λ i. i == y.id) (same x))
      (λ x y. ap (λ i. x.id == i) (same y)) k.devices)

upsert_device_run-Keeps : (device : Device) → Keeps (upsert_device_run device)
unfolding upsert_device_run
upsert_device_run-Keeps device db k = elim (Bool-cases (has_device db.devices device.id)) [
  | inl e ↦ rw e (devices-IsKeyed k (λ d. d.id == device.id) (touch device db.now) (λ d. refl))
  | inr e ↦ rw e (
      refused_if-IsKeyed _ db _ k
        (λ _. with_devices k _ (Pairwise-concat same_device db.devices _ k.devices e)))
]

pub upsert_device-Keeps : (device : Device) → Keeps (upsert_device device)
unfolding upsert_device
upsert_device-Keeps device = statement-Keeps _ (upsert_device_run-Keeps device)

pub link_device_to_user-Keeps :
    (device_id : Str) (user_id : ℤ) → Keeps (link_device_to_user device_id user_id)
unfolding link_device_to_user
link_device_to_user-Keeps device_id user_id = statement-Keeps _ λ db k.
    refused_if-IsKeyed _ db _ k
      (λ _. devices-IsKeyed k (λ d. d.id == device_id) (set_user_id user_id) (λ d. refl))

insert_event_run-Keeps : (event : Event) → Keeps (insert_event_run event)
unfolding insert_event_run
insert_event_run-Keeps event db k = elim (Bool-cases (has_event db.events event.id)) [
  | inl e ↦ rw e k
  | inr e ↦ rw e (
      refused_if-IsKeyed _ db _ k
        (λ _. with_events k _ (Pairwise-concat same_event db.events _ k.events e)))
]

pub insert_event-Keeps : (event : Event) → Keeps (insert_event event)
unfolding insert_event
insert_event-Keeps event = statement-Keeps _ (insert_event_run-Keeps event)
