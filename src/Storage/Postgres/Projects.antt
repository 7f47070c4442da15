-- ===== src/Storage/Postgres/Projects.antt =====
-- The methods of postgres.go on projects.
use oximetric.Base.{ℤ, List, [], ◌∷◌, ◌++◌, keep, is_positive}
use oximetric.Model.{Project}
use oximetric.Storage.Store.{Result, Done, ok}
use oximetric.Storage.Schema.{Db, statement, order_by}
use oximetric.Storage.Sqlite.Projects as Sqlite
use oximetric.Storage.Analytics.Sorting.{Window, Engine}
use oximetric.Storage.Postgres.{PgDb, on_tables, serial, project_ids}

abbrev pub create_project_run : Project → ℤ → Db → Db × Result Project
create_project_run project id db = (
  record db { projects = db.projects ++ record project { id = id; created_at = db.now } ∷ [] },
  ok (record project { id = id }),
)

unfoldable pub create_project : Project → PgDb → PgDb × Result Project
create_project project = serial project_ids (create_project_run project)

unfoldable pub get_project : ℤ → PgDb → PgDb × Result Project
get_project id = on_tables (Sqlite.get_project id)

unfoldable pub update_project : Project → PgDb → PgDb × Done
update_project project = on_tables (Sqlite.update_project project)

unfoldable pub delete_project : ℤ → PgDb → PgDb × Done
delete_project id = on_tables (Sqlite.delete_project id)

module _ (engine : Engine) where
  unfoldable pub list_projects : PgDb → PgDb × Result (List Project)
  list_projects = on_tables (
      statement λ db. (
        db,
        ok (order_by (λ (p : Project). p.created_at) (engine.any_order Window.whole db.projects)),
      ))

  unfoldable pub get_projects_with_retention : PgDb → PgDb × Result (List Project)
  get_projects_with_retention = on_tables (
      statement λ db. (
        db,
        ok (
            keep (λ (p : Project). is_positive p.retention_days)
              (engine.any_order Window.whole db.projects)),
      ))
