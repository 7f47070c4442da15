-- ===== src/Storage/Store.antt =====
-- The interface `Store` of internal/storage/storage.go, without the analytics queries and `Close`.
-- A method takes the state of the store and returns the new one with its result. A method that Go
-- hands a pointer to fill returns the filled value.
use oximetric.Base.{ℕ, ℤ, Str, Bool, List, Option}
use oximetric.Model.{
  Time, Project, ProjectToken, ConsoleUser, AppUser, Device, Event, EventProperty,
}

-- sql.ErrNoRows is told apart by the callers; any other error is the driver's.
pub data StoreError : Type 0 where
  no_rows : StoreError
  failed : StoreError

pub data Result {ℓ} (A : Type ℓ) : Type ℓ where
  ok : A → Result A
  err : StoreError → Result A

abbrev pub Done : Type 0
Done = Result (Unit {0})

pub record Store : Type 1 where
  pub S : Type 0
  pub ping : S → S × Done
  pub create_console_user : ConsoleUser → S → S × Result ConsoleUser
  pub get_console_user_by_id : ℤ → S → S × Result ConsoleUser
  pub get_console_user_by_login : Str → S → S × Result ConsoleUser
  pub update_console_user : ConsoleUser → S → S × Done
  pub delete_console_user : ℤ → S → S × Done
  pub list_console_users : S → S × Result (List ConsoleUser)
  pub create_project : Project → S → S × Result Project
  pub get_project : ℤ → S → S × Result Project
  pub update_project : Project → S → S × Done
  pub delete_project : ℤ → S → S × Done
  pub list_projects : S → S × Result (List Project)
  pub create_project_token : ProjectToken → S → S × Result ProjectToken
  pub get_project_token_by_token : Str → S → S × Result ProjectToken
  pub list_project_tokens : ℤ → S → S × Result (List ProjectToken)
  pub update_project_token : ProjectToken → S → S × Done
  pub delete_project_token : ℤ → S → S × Done
  pub upsert_device : Device → S → S × Done
  pub get_device : Str → S → S × Result Device
  pub link_device_to_user : Str → ℤ → S → S × Done
  pub get_or_create_app_user : ℤ → Str → S → S × Result AppUser
  pub insert_event : Event → S → S × Result Bool
  pub insert_event_properties : List EventProperty → S → S × Done
  pub get_device_user_id : Str → S → S × Result (Option ℤ)
  pub cleanup_events : ℤ → Time → S → S × Result ℕ
  pub get_projects_with_retention : S → S × Result (List Project)
