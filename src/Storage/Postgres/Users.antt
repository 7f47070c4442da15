-- ===== src/Storage/Postgres/Users.antt =====
-- The methods of postgres.go on console_users.
use oximetric.Base.{ℤ, Str, ◌||◌, List, [], ◌∷◌, ◌++◌, not}
use oximetric.Model.{ConsoleUser}
use oximetric.Storage.Store.{Result, Done, ok}
use oximetric.Storage.Schema.{Db, statement, refused_if, exists_row, first_row, order_by}
use oximetric.Storage.Sqlite.Users as Sqlite
use oximetric.Storage.Sqlite.Users.{is_role, clashes, has_login, listed}
use oximetric.Storage.Analytics.Sorting.{Window, Engine}
use oximetric.Storage.Postgres.{PgDb, on_tables, serial, user_ids}

-- INSERT INTO console_users … RETURNING id
unfoldable pub create_user_run : ConsoleUser → ℤ → Db → Db × Result ConsoleUser
create_user_run user id db =
    refused_if (exists_row (clashes user) db.console_users || not (is_role user.role)) db (
      record db {
        console_users = db.console_users ++ record user { id = id; created_at = db.now } ∷ [];
      },
      ok (record user { id = id }),
    )

unfoldable pub create_console_user : ConsoleUser → PgDb → PgDb × Result ConsoleUser
unfolding create_user_run
create_console_user user = serial user_ids (create_user_run user)

unfoldable pub get_console_user_by_id : ℤ → PgDb → PgDb × Result ConsoleUser
get_console_user_by_id id = on_tables (Sqlite.get_console_user_by_id id)

unfoldable pub update_console_user : ConsoleUser → PgDb → PgDb × Done
update_console_user user = on_tables (Sqlite.update_console_user user)

unfoldable pub delete_console_user : ℤ → PgDb → PgDb × Done
delete_console_user id = on_tables (Sqlite.delete_console_user id)

module _ (engine : Engine) where
  -- Where two rows match, either is scanned.
  unfoldable pub get_console_user_by_login : Str → PgDb → PgDb × Result ConsoleUser
  get_console_user_by_login login = on_tables (
      statement
        (λ db. (db, first_row (has_login login) (engine.any_order Window.whole db.console_users))))

  -- ORDER BY created_at leaves open the order of rows of one time.
  unfoldable pub list_console_users : PgDb → PgDb × Result (List ConsoleUser)
  list_console_users = on_tables (
      statement λ db. (
        db,
        ok (
            listed (
              order_by (λ (u : ConsoleUser). u.created_at)
                (engine.any_order Window.whole db.console_users))),
      ))
