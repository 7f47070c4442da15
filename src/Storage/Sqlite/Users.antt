-- ===== src/Storage/Sqlite/Users.antt =====
-- The methods of sqlite.go on console_users.
use oximetric.Base.{
  ℤ, Str, lit, Bool, false, not, ◌&&◌, ◌||◌, List, [], ◌∷◌, ◌++◌, Option, none, some, ◌==◌, int_eq,
  str_eq, keep, update_where,
}
use oximetric.Model.{ConsoleUser}
use oximetric.Storage.Store.{Result, Done, ok, err}
use oximetric.Storage.Schema.{Db, statement, refused_if, exists_row, first_row, fresh_id, order_by}

-- CHECK (role IN ('admin', 'manager', 'viewer'))
unfoldable pub is_role : Str → Bool
is_role role = role == lit "admin" || role == lit "manager" || role == lit "viewer"

-- Equality of nullable columns in a unique index or a WHERE clause: NULL equals nothing.
abbrev pub same_email : Option Str → Option Str → Bool
same_email (some a) (some b) = a == b
same_email _ _ = false

-- The unique indices on username and email.
abbrev pub clashes : ConsoleUser → ConsoleUser → Bool
clashes user row = row.username == user.username || same_email row.email user.email

unfoldable pub create_user_run : ConsoleUser → Db → Db × Result ConsoleUser
create_user_run user db =
    let id = fresh_id (λ (u : ConsoleUser). u.id) db.console_users in
    refused_if (exists_row (clashes user) db.console_users || not (is_role user.role)) db (
      record db {
        console_users = db.console_users ++ record user { id = id; created_at = db.now } ∷ [];
      },
      ok (record user { id = id }),
    )

unfoldable pub create_console_user : ConsoleUser → Db → Db × Result ConsoleUser
unfolding create_user_run
create_console_user user = statement (create_user_run user)

unfoldable pub get_console_user_by_id : ℤ → Db → Db × Result ConsoleUser
get_console_user_by_id id = statement (λ db. (db, first_row (λ u. u.id == id) db.console_users))

-- WHERE username = ? OR email = ?
abbrev pub has_login : Str → ConsoleUser → Bool
has_login login u = u.username == login || same_email u.email (some login)

abbrev pub has_username : Str → ConsoleUser → Bool
has_username login u = u.username == login

abbrev pub has_email : Str → ConsoleUser → Bool
has_email login u = same_email u.email (some login)

-- Both columns have an index, and SQLite goes through that of the usernames first: where two rows
-- match, the one with the username is scanned.
unfoldable pub row_of_login : Str → List ConsoleUser → Result ConsoleUser
row_of_login login us = elim (first_row (has_username login) us) [
  | ok u ↦ ok u
  | err e ↦ first_row (has_email login) us
]

unfoldable pub get_console_user_by_login : Str → Db → Db × Result ConsoleUser
unfolding row_of_login
get_console_user_by_login login = statement (λ db. (db, row_of_login login db.console_users))

-- The columns that an UPDATE sets; the id and created_at stay.
abbrev pub set_user : ConsoleUser → ConsoleUser → ConsoleUser
set_user user row = record user { id = row.id; created_at = row.created_at }

unfoldable pub update_user_run : ConsoleUser → Db → Db × Done
update_user_run user db =
    let clash =
      exists_row (λ (r : ConsoleUser). not (r.id == user.id) && clashes user r) db.console_users in
    let found = exists_row (λ (r : ConsoleUser). r.id == user.id) db.console_users in
    refused_if (found && (clash || not (is_role user.role))) db (
      record db {
        console_users = update_where (λ r. r.id == user.id) (set_user user) db.console_users;
      },
      ok tt,
    )

unfoldable pub update_console_user : ConsoleUser → Db → Db × Done
unfolding update_user_run
update_console_user user = statement (update_user_run user)

unfoldable pub delete_console_user : ℤ → Db → Db × Done
delete_console_user id =
    statement
      λ db. (record db { console_users = keep (λ u. not (u.id == id)) db.console_users }, ok tt)

-- The list does not read the secret columns.
abbrev pub listed : List ConsoleUser → List ConsoleUser
listed [] = []
listed (u ∷ us) = record u { password_hash = []; totp_secret = none } ∷ listed us

unfoldable pub list_console_users : Db → Db × Result (List ConsoleUser)
list_console_users =
    statement
      λ db. (db, ok (listed (order_by (λ (u : ConsoleUser). u.created_at) db.console_users)))
