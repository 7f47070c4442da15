-- ===== src/Storage/Sqlite/Devices.antt =====
-- The methods of sqlite.go on devices and app_users.
use oximetric.Base.{
  ℤ, Str, Bool, true, false, not, ◌&&◌, ◌||◌, List, [], ◌∷◌, ◌++◌, Option, none, some, ◌==◌, int_eq,
  str_eq, if◌then◌else◌, update_where,
}
use oximetric.Model.{Time, Device, AppUser}
use oximetric.Storage.Store.{Result, Done, ok, err, no_rows, failed}
use oximetric.Storage.Schema.{
  Db, statement, refused_if, first_row, fresh_id, has_project, has_app_user, has_device,
}

-- ON CONFLICT(id) DO UPDATE: the project, the platform, the user and first_seen_at stay.
abbrev pub touch : Device → Time → Device → Device
touch device now row = record row {
  os_version = device.os_version;
  app_version = device.app_version;
  locale = device.locale;
  last_seen_at = now;
}

-- The row of a new device.
abbrev pub device_row : Device → Time → Device
device_row device now = record device { user_id = none; first_seen_at = now; last_seen_at = now }

unfoldable pub upsert_device_run : Device → Db → Db × Done
upsert_device_run device db =
    if has_device db.devices device.id
    then (
      record db {
        devices = update_where (λ r. r.id == device.id) (touch device db.now) db.devices;
      },
      ok tt,
    )
    else refused_if (not (has_project db.projects device.project_id)) db
        (record db { devices = db.devices ++ device_row device db.now ∷ [] }, ok tt)

unfoldable pub upsert_device : Device → Db → Db × Done
unfolding upsert_device_run
upsert_device device = statement (upsert_device_run device)

unfoldable pub get_device : Str → Db → Db × Result Device
get_device id = statement (λ db. (db, first_row (λ d. d.id == id) db.devices))

abbrev pub set_user_id : ℤ → Device → Device
set_user_id user_id d = record d { user_id = some user_id }

-- UPDATE devices SET user_id = ? WHERE id = ?; the reference is checked if a row is updated.
unfoldable pub link_device_run : Str → ℤ → Db → Db × Done
link_device_run device_id user_id db =
    refused_if (has_device db.devices device_id && not (has_app_user db.app_users user_id)) db (
      record db {
        devices = update_where (λ d. d.id == device_id) (set_user_id user_id) db.devices;
      },
      ok tt,
    )

unfoldable pub link_device_to_user : Str → ℤ → Db → Db × Done
unfolding link_device_run
link_device_to_user device_id user_id = statement (link_device_run device_id user_id)

-- The project's user of that name.
abbrev pub is_app_user : ℤ → Str → AppUser → Bool
is_app_user project_id anonymous_id u = u.project_id == project_id && u.anonymous_id == anonymous_id

unfoldable pub select_app_user : ℤ → Str → Db → Db × Result AppUser
select_app_user project_id anonymous_id =
    statement (λ db. (db, first_row (is_app_user project_id anonymous_id) db.app_users))

abbrev pub exists_app_user : ℤ → Str → List AppUser → Bool
exists_app_user project_id anonymous_id [] = false
exists_app_user project_id anonymous_id (u ∷ us) =
    if is_app_user project_id anonymous_id u
    then true
    else exists_app_user project_id anonymous_id us

abbrev pub app_user_row : ℤ → Str → ℤ → Time → AppUser
app_user_row project_id anonymous_id id now = record {
  id = id;
  project_id = project_id;
  anonymous_id = anonymous_id;
  created_at = now;
}

-- INSERT INTO app_users; created_at of the returned struct is left at zero.
unfoldable pub insert_app_user_run : ℤ → Str → Db → Db × Result AppUser
insert_app_user_run project_id anonymous_id db =
    let id = fresh_id (λ (u : AppUser). u.id) db.app_users in
    refused_if
      (exists_app_user project_id anonymous_id db.app_users
        || not (has_project db.projects project_id))
      db
      (
        record db {
          app_users = db.app_users ++ app_user_row project_id anonymous_id id db.now ∷ [];
        },
        ok (app_user_row project_id anonymous_id id 0),
      )

-- What follows the SELECT: a row is returned, an error too, and no row is inserted.
unfoldable pub create_if_missing : ℤ → Str → Db × Result AppUser → Db × Result AppUser
create_if_missing project_id anonymous_id (db, ok u) = (db, ok u)
create_if_missing project_id anonymous_id (db, err failed) = (db, err failed)
create_if_missing project_id anonymous_id (db, err no_rows) =
    statement (insert_app_user_run project_id anonymous_id) db

unfoldable pub get_or_create_app_user : ℤ → Str → Db → Db × Result AppUser
unfolding select_app_user create_if_missing
get_or_create_app_user project_id anonymous_id db =
    create_if_missing project_id anonymous_id (select_app_user project_id anonymous_id db)

-- The user of the device; no row is no error.
unfoldable pub scan_user_id : Result Device → Result (Option ℤ)
scan_user_id (ok d) = ok d.user_id
scan_user_id (err no_rows) = ok none
scan_user_id (err failed) = err failed

unfoldable pub get_device_user_id : Str → Db → Db × Result (Option ℤ)
unfolding scan_user_id
get_device_user_id device_id =
    statement (λ db. (db, scan_user_id (first_row (λ d. d.id == device_id) db.devices)))
