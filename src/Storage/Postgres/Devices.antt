-- ===== src/Storage/Postgres/Devices.antt =====
-- The methods of postgres.go on devices and app_users.
use oximetric.Base.{ℤ, Str, not, ◌||◌, [], ◌∷◌, ◌++◌, Option}
use oximetric.Model.{Device, AppUser}
use oximetric.Storage.Store.{Result, Done, ok, err, no_rows, failed}
use oximetric.Storage.Schema.{Db, refused_if, has_project}
use oximetric.Storage.Sqlite.Devices as Sqlite
use oximetric.Storage.Sqlite.Devices.{exists_app_user, app_user_row}
use oximetric.Storage.Postgres.{PgDb, on_tables, serial, app_user_ids}

unfoldable pub upsert_device : Device → PgDb → PgDb × Done
upsert_device device = on_tables (Sqlite.upsert_device device)

unfoldable pub get_device : Str → PgDb → PgDb × Result Device
get_device id = on_tables (Sqlite.get_device id)

unfoldable pub link_device_to_user : Str → ℤ → PgDb → PgDb × Done
link_device_to_user device_id user_id = on_tables (Sqlite.link_device_to_user device_id user_id)

-- INSERT INTO app_users … RETURNING id; created_at of the returned struct is left at zero.
unfoldable pub insert_app_user_run : ℤ → Str → ℤ → Db → Db × Result AppUser
insert_app_user_run project_id anonymous_id id db =
    refused_if
      (exists_app_user project_id anonymous_id db.app_users
        || not (has_project db.projects project_id))
      db
      (
        record db {
          app_users = db.app_users ++ app_user_row project_id anonymous_id id db.now ∷ [];
        },
        ok (app_user_row project_id anonymous_id id 0),
      )

-- What follows the SELECT.
unfoldable pub create_if_missing : ℤ → Str → PgDb × Result AppUser → PgDb × Result AppUser
unfolding insert_app_user_run
create_if_missing project_id anonymous_id (s, ok u) = (s, ok u)
create_if_missing project_id anonymous_id (s, err failed) = (s, err failed)
create_if_missing project_id anonymous_id (s, err no_rows) =
    serial app_user_ids (insert_app_user_run project_id anonymous_id) s

unfoldable pub get_or_create_app_user : ℤ → Str → PgDb → PgDb × Result AppUser
unfolding create_if_missing
get_or_create_app_user project_id anonymous_id s =
    create_if_missing project_id anonymous_id
      (on_tables (Sqlite.select_app_user project_id anonymous_id) s)

unfoldable pub get_device_user_id : Str → PgDb → PgDb × Result (Option ℤ)
get_device_user_id device_id = on_tables (Sqlite.get_device_user_id device_id)
