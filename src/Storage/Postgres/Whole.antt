-- ===== src/Storage/Postgres/Whole.antt =====
-- `PostgresStore` as the interface `Store` of internal/storage/storage.go.
use oximetric.Base.{Str, Bool}
use oximetric.Storage.Store.{Store}
use oximetric.Storage.Analytics.Sorting.{Engine}
use oximetric.Storage.Postgres.{PgDb}
use oximetric.Storage.Postgres.Users.{
  create_console_user, get_console_user_by_id, get_console_user_by_login, update_console_user,
  delete_console_user, list_console_users,
}
use oximetric.Storage.Postgres.Projects.{
  create_project, get_project, update_project, delete_project, list_projects,
  get_projects_with_retention,
}
use oximetric.Storage.Postgres.Tokens.{
  create_project_token, get_project_token_by_token, list_project_tokens, update_project_token,
  delete_project_token,
}
use oximetric.Storage.Postgres.Devices.{
  upsert_device, get_device, link_device_to_user, get_or_create_app_user, get_device_user_id,
}
use oximetric.Storage.Postgres.Events.{bare, insert_event, insert_event_properties, cleanup_events}

abbrev pub postgres : Engine → (Str → Bool) → Store
postgres engine is_timestamp = record {
  S = PgDb;
  ping = bare;
  create_console_user = create_console_user;
  get_console_user_by_id = get_console_user_by_id;
  get_console_user_by_login = get_console_user_by_login engine;
  update_console_user = update_console_user;
  delete_console_user = delete_console_user;
  list_console_users = list_console_users engine;
  create_project = create_project;
  get_project = get_project;
  update_project = update_project;
  delete_project = delete_project;
  list_projects = list_projects engine;
  create_project_token = create_project_token;
  get_project_token_by_token = get_project_token_by_token;
  list_project_tokens = list_project_tokens engine;
  update_project_token = update_project_token;
  delete_project_token = delete_project_token;
  upsert_device = upsert_device;
  get_device = get_device;
  link_device_to_user = link_device_to_user;
  get_or_create_app_user = get_or_create_app_user;
  insert_event = insert_event is_timestamp;
  insert_event_properties = insert_event_properties;
  get_device_user_id = get_device_user_id;
  cleanup_events = cleanup_events;
  get_projects_with_retention = get_projects_with_retention engine;
}
