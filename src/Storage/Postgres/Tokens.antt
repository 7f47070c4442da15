-- ===== src/Storage/Postgres/Tokens.antt =====
-- The methods of postgres.go on project_tokens.
use oximetric.Base.{ℤ, Str, ◌||◌, not, List, [], ◌∷◌, ◌++◌, ◌==◌, int_eq, str_eq, keep}
use oximetric.Model.{ProjectToken}
use oximetric.Storage.Store.{Result, Done, ok}
use oximetric.Storage.Schema.{
  TokenRow, Db, statement, refused_if, exists_row, order_by, has_project,
}
use oximetric.Storage.Sqlite.Tokens as Sqlite
use oximetric.Storage.Sqlite.Tokens.{token_row, scan_tokens}
use oximetric.Storage.Analytics.Sorting.{Window, Engine}
use oximetric.Storage.Postgres.{PgDb, on_tables, serial, token_ids}

unfoldable pub create_token_run : ProjectToken → ℤ → Db → Db × Result ProjectToken
create_token_run token id db =
    refused_if
      (exists_row (λ (t : TokenRow). t.token == token.token) db.tokens
        || not (has_project db.projects token.project_id))
      db
      (
        record db { tokens = db.tokens ++ token_row token id db.now ∷ [] },
        ok (record token { id = id }),
      )

unfoldable pub create_project_token : ProjectToken → PgDb → PgDb × Result ProjectToken
unfolding create_token_run
create_project_token token = serial token_ids (create_token_run token)

unfoldable pub get_project_token_by_token : Str → PgDb → PgDb × Result ProjectToken
get_project_token_by_token token = on_tables (Sqlite.get_project_token_by_token token)

unfoldable pub update_project_token : ProjectToken → PgDb → PgDb × Done
update_project_token token = on_tables (Sqlite.update_project_token token)

unfoldable pub delete_project_token : ℤ → PgDb → PgDb × Done
delete_project_token id = on_tables (Sqlite.delete_project_token id)

module _ (engine : Engine) where
  unfoldable pub list_project_tokens : ℤ → PgDb → PgDb × Result (List ProjectToken)
  list_project_tokens project_id = on_tables (
      statement λ db. (
        db,
        ok (
            scan_tokens (
              order_by (λ (t : TokenRow). t.created_at)
                (keep (λ (t : TokenRow). t.project_id == project_id)
                  (engine.any_order Window.whole db.tokens)))),
      ))
