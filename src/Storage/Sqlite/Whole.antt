-- ===== src/Storage/Sqlite/Whole.antt =====
-- `SQLiteStore` as the interface `Store` of internal/storage/storage.go.
use oximetric.Storage.Store.{Store}
use oximetric.Storage.Schema.{Db}
use oximetric.Storage.Sqlite.Users.{
  create_console_user, get_console_user_by_id, get_console_user_by_login, update_console_user,
  delete_console_user, list_console_users,
}
use oximetric.Storage.Sqlite.Projects.{
  create_project, get_project, update_project, delete_project, list_projects,
  get_projects_with_retention,
}
use oximetric.Storage.Sqlite.Tokens.{
  create_project_token, get_project_token_by_token, list_project_tokens, update_project_token,
  delete_project_token,
}
use oximetric.Storage.Sqlite.Devices.{
  upsert_device, get_device, link_device_to_user, get_or_create_app_user, get_device_user_id,
}
use oximetric.Storage.Sqlite.Events.{bare, insert_event, insert_event_properties, cleanup_events}

abbrev pub sqlite : Store
sqlite = record {
  S = Db;
  ping = bare;
  create_console_user = create_console_user;
  get_console_user_by_id = get_console_user_by_id;
  get_console_user_by_login = get_console_user_by_login;
  update_console_user = update_console_user;
  delete_console_user = delete_console_user;
  list_console_users = list_console_users;
  create_project = create_project;
  get_project = get_project;
  update_project = update_project;
  delete_project = delete_project;
  list_projects = list_projects;
  create_project_token = create_project_token;
  get_project_token_by_token = get_project_token_by_token;
  list_project_tokens = list_project_tokens;
  update_project_token = update_project_token;
  delete_project_token = delete_project_token;
  upsert_device = upsert_device;
  get_device = get_device;
  link_device_to_user = link_device_to_user;
  get_or_create_app_user = get_or_create_app_user;
  insert_event = insert_event;
  insert_event_properties = insert_event_properties;
  get_device_user_id = get_device_user_id;
  cleanup_events = cleanup_events;
  get_projects_with_retention = get_projects_with_retention;
}
