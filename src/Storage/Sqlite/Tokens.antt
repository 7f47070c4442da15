-- ===== src/Storage/Sqlite/Tokens.antt =====
-- The methods of sqlite.go on project_tokens.
use oximetric.Base.{
  ℤ, Str, not, ◌||◌, List, [], ◌∷◌, ◌++◌, none, ◌==◌, int_eq, str_eq, keep, update_where,
}
use oximetric.Model.{Time, ProjectToken}
use oximetric.Storage.Store.{Result, Done, ok, err}
use oximetric.Storage.Origins.{encode_origins, decode_origins}
use oximetric.Storage.Schema.{
  TokenRow, Db, statement, refused_if, exists_row, first_row, fresh_id, order_by, has_project,
}

-- The columns that are scanned into a `ProjectToken`.
unfoldable pub scan_token : TokenRow → ProjectToken
scan_token r = record {
  id = r.id;
  project_id = r.project_id;
  token = r.token;
  label = r.label;
  active = r.active;
  allowed_origins = decode_origins r.allowed_origins;
  created_at = r.created_at;
  disabled_at = r.disabled_at;
}

pub scan_tokens : List TokenRow → List ProjectToken
scan_tokens [] = []
scan_tokens (r ∷ rs) = scan_token r ∷ scan_tokens rs

unfoldable pub scan_first : Result TokenRow → Result ProjectToken
unfolding scan_token
scan_first (ok r) = ok (scan_token r)
scan_first (err e) = err e

-- The row that an INSERT writes.
abbrev pub token_row : ProjectToken → ℤ → Time → TokenRow
token_row token id now = record {
  id = id;
  project_id = token.project_id;
  token = token.token;
  label = token.label;
  active = token.active;
  allowed_origins = encode_origins token.allowed_origins;
  created_at = now;
  disabled_at = none;
}

unfoldable pub create_token_run : ProjectToken → Db → Db × Result ProjectToken
create_token_run token db =
    let id = fresh_id (λ (t : TokenRow). t.id) db.tokens in
    refused_if
      (exists_row (λ (t : TokenRow). t.token == token.token) db.tokens
        || not (has_project db.projects token.project_id))
      db
      (
        record db { tokens = db.tokens ++ token_row token id db.now ∷ [] },
        ok (record token { id = id }),
      )

unfoldable pub create_project_token : ProjectToken → Db → Db × Result ProjectToken
unfolding create_token_run
create_project_token token = statement (create_token_run token)

unfoldable pub get_project_token_by_token : Str → Db → Db × Result ProjectToken
unfolding scan_first scan_token
get_project_token_by_token token =
    statement (λ db. (db, scan_first (first_row (λ t. t.token == token) db.tokens)))

unfoldable pub list_project_tokens : ℤ → Db → Db × Result (List ProjectToken)
unfolding scan_tokens scan_token
list_project_tokens project_id = statement λ db. (
  db,
  ok (
      scan_tokens (
        order_by (λ (t : TokenRow). t.created_at)
          (keep (λ (t : TokenRow). t.project_id == project_id) db.tokens))),
)

abbrev pub set_token : ProjectToken → TokenRow → TokenRow
set_token token row = record row {
  label = token.label;
  active = token.active;
  allowed_origins = encode_origins token.allowed_origins;
  disabled_at = token.disabled_at;
}

unfoldable pub update_project_token : ProjectToken → Db → Db × Done
update_project_token token = statement λ db.
    (record db { tokens = update_where (λ r. r.id == token.id) (set_token token) db.tokens }, ok tt)

unfoldable pub delete_project_token : ℤ → Db → Db × Done
delete_project_token id =
    statement (λ db. (record db { tokens = keep (λ t. not (t.id == id)) db.tokens }, ok tt))
