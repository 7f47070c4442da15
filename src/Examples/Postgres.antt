-- ===== src/Examples/Postgres.antt =====
-- Console users that come and go, in the one database and the other.
use oximetric.Base.{ℤ, Str, lit, pos, false, List, [], ◌∷◌, none, ◌≡◌, refl, str_beq, int_beq}
use oximetric.Model.{ConsoleUser}
use oximetric.Storage.Store.{ok}
use oximetric.Storage.Schema.{statement, refused_if}
use oximetric.Storage.Sound.History.{empty_db}
use oximetric.Storage.Sqlite.Users.{
  is_role, create_user_run, create_console_user, delete_console_user,
}
use oximetric.Storage.Sqlite.Reuse.{create_console_user-reuses}
use oximetric.Storage.Postgres.{PgDb}
use oximetric.Storage.Postgres.Ids.{UserCall, given_ids, Rises, given_ids-Rises}

abbrev named : Str → ℤ → ConsoleUser
named name id = record {
  id = id;
  username = name;
  email = none;
  password_hash = lit "h";
  role = lit "viewer";
  totp_secret = none;
  totp_enabled = false;
  created_at = 0;
}

abbrev fresh : PgDb
fresh = record {
  tables = empty_db;
  sequences = record {
    console_users = 0;
    projects = 0;
    project_tokens = 0;
    app_users = 0;
    event_properties = 0;
  };
}

-- The second creation fails, and the first user is deleted before the third.
abbrev calls : List UserCall
calls =
    UserCall.create (named (lit "ann") (pos 0))
    ∷ UserCall.create (named (lit "ann") (pos 0))
    ∷ UserCall.delete (pos 1)
    ∷ UserCall.create (named (lit "bob") (pos 0))
    ∷ []

given_ids-Rises_example : Rises 0 (given_ids calls fresh)
given_ids-Rises_example = given_ids-Rises calls fresh

ann_made :
    (create_console_user (named (lit "ann") (pos 0)) empty_db).1 ≡ ok (named (lit "ann") (pos 1))
unfolding create_console_user create_user_run is_role statement refused_if lit str_beq
ann_made = refl

bob_made :
    (create_console_user
      (named (lit "bob") (pos 0))
      (delete_console_user
        (pos 1)
        (create_console_user (named (lit "ann") (pos 0)) empty_db).0).0).1
    ≡ ok (named (lit "bob") (pos 1))
unfolding create_console_user create_user_run delete_console_user is_role statement refused_if lit
    str_beq int_beq
bob_made = refl

create_console_user-reuses_example : (named (lit "bob") (pos 1)).id ≡ (named (lit "ann") (pos 1)).id
create_console_user-reuses_example =
    create_console_user-reuses (named (lit "ann") (pos 0)) (named (lit "bob") (pos 0))
      (named (lit "ann") (pos 1)) (named (lit "bob") (pos 1)) empty_db refl ann_made bob_made
