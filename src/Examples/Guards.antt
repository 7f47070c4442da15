-- ===== src/Examples/Guards.antt =====
-- A token that names its origins, a list of origins with a duplicate, and a first start.
use oximetric.Base.{
  ℤ, Str, lit, pos, true, List, [], ◌∷◌, Option, none, some, ◌≡◌, refl, drop, str_beq, trim_space,
  has_substring, contains,
}
use oximetric.Storage.Store.{ok}
use oximetric.Storage.Schema.{Db, TokenRow, statement, refused_if}
use oximetric.Storage.Sqlite.Users.{
  get_console_user_by_login, create_console_user, create_user_run, is_role,
}
use oximetric.Storage.Sqlite.Whole.{sqlite}
use oximetric.Auth.{hash_password}
use oximetric.Http.{Body, Handler, respond, write_json}
use oximetric.Middleware.Guards.Tokens.{IsDecided, token_auth-IsDecided}
use oximetric.Handler.Origins.{value, origin_entry, normalize_origins}
use oximetric.Handler.Origins.Distinct.{Distinct, normalize_origins-Distinct}
use oximetric.Startup.{bootstrap_admin}
use oximetric.Startup.Found.{Finds}
use oximetric.Startup.Admin.{HashesMatch, IsOpened, bootstrap_admin-Finds}
use oximetric.Examples.Accounts.{toy, accounts}

abbrev pub row : TokenRow
row = record {
  id = pos 1;
  project_id = pos 4;
  token = lit "t";
  label = [];
  active = true;
  allowed_origins = lit "http://*.b";
  created_at = 2;
  disabled_at = none;
}

abbrev pub with_token : Db
with_token = record accounts { tokens = row ∷ [] }

abbrev which_project : ℤ → Handler Db
which_project id = respond (write_json 200 (Body.identified id))

token_auth-IsDecided_example :
    IsDecided sqlite (lit "t") (lit "http://x.b") which_project with_token
token_auth-IsDecided_example =
    token_auth-IsDecided sqlite (lit "t") (lit "http://x.b") which_project with_token

-- A parser for texts that start with "http://".
abbrev parse : Str → Option (Str × Str)
parse s = some (lit "http", drop 7 s)

abbrev typed : List Str
typed = lit " http://a " ∷ lit "*" ∷ lit "" ∷ lit "http://a" ∷ []

normalized : normalize_origins parse (λ s. s) typed ≡ value (lit "http://a" ∷ lit "*" ∷ [])
unfolding normalize_origins lit str_beq origin_entry trim_space has_substring contains
normalized = refl

normalize_origins-Distinct_example : Distinct (lit "http://a" ∷ lit "*" ∷ [])
normalize_origins-Distinct_example =
    normalize_origins-Distinct parse (λ s. s) typed (lit "http://a" ∷ lit "*" ∷ []) normalized

pub toy-HashesMatch : HashesMatch toy
toy-HashesMatch salt password hash g = refl

started : (bootstrap_admin sqlite toy (lit "boss") (lit "secret") 3 accounts).1 ≡ ok tt
unfolding bootstrap_admin get_console_user_by_login hash_password create_console_user
    create_user_run is_role statement refused_if lit str_beq
started = refl

bootstrap_admin-Finds_example :
    Finds
      (IsOpened toy (lit "boss") (lit "secret") 3 accounts.console_users)
      (lit "boss")
      (bootstrap_admin sqlite toy (lit "boss") (lit "secret") 3 accounts).0.console_users
bootstrap_admin-Finds_example =
    bootstrap_admin-Finds toy (lit "boss") (lit "secret") 3 accounts toy-HashesMatch refl started
