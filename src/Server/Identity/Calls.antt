-- ===== src/Server/Identity/Calls.antt =====
-- The statements of internal/storage/sqlite.go that leave the console users alone.
use oximetric.Base.{ℤ, Str, List, [], ◌∷◌, refl, arith, ◌∙◌}
use oximetric.Model.{Project, ProjectToken, AppUser, Device, Event, EventProperty}
use oximetric.Storage.Store.{Result, Done, ok, err, no_rows, failed}
use oximetric.Storage.Schema.{Db, statement, refused_if}
use oximetric.Storage.Sqlite.Users.{
  get_console_user_by_id, get_console_user_by_login, list_console_users,
}
use oximetric.Storage.Sqlite.Projects.{
  create_project, create_project_run, get_project, update_project, delete_project,
  delete_project_run, list_projects,
}
use oximetric.Storage.Sqlite.Tokens.{
  create_project_token, create_token_run, get_project_token_by_token, list_project_tokens,
  update_project_token, delete_project_token,
}
use oximetric.Storage.Sqlite.Devices.{
  upsert_device, upsert_device_run, link_device_to_user, link_device_run, select_app_user,
  insert_app_user_run, create_if_missing, get_or_create_app_user, get_device_user_id,
}
use oximetric.Storage.Sqlite.Events.{
  bare, insert_event, insert_event_run, insert_property_run, ◌then_run◌, insert_properties_loop,
  rolled_back, insert_event_properties,
}
use oximetric.Server.Identity.{SameIdentities, IsQuiet, itself, statement-IsQuiet, refused_if_users}

pub bare-IsQuiet : IsQuiet itself bare
unfolding bare
bare-IsQuiet = statement-IsQuiet _ (λ d. refl)

pub get_console_user_by_id-IsQuiet : (id : ℤ) → IsQuiet itself (get_console_user_by_id id)
unfolding get_console_user_by_id
get_console_user_by_id-IsQuiet id = statement-IsQuiet _ (λ d. refl)

pub get_console_user_by_login-IsQuiet :
    (login : Str) → IsQuiet itself (get_console_user_by_login login)
unfolding get_console_user_by_login
get_console_user_by_login-IsQuiet login = statement-IsQuiet _ (λ d. refl)

pub list_console_users-IsQuiet : IsQuiet itself list_console_users
unfolding list_console_users
list_console_users-IsQuiet = statement-IsQuiet _ (λ d. refl)

pub create_project-IsQuiet : (p : Project) → IsQuiet itself (create_project p)
unfolding create_project create_project_run
create_project-IsQuiet p = statement-IsQuiet _ (λ d. refl)

pub get_project-IsQuiet : (id : ℤ) → IsQuiet itself (get_project id)
unfolding get_project
get_project-IsQuiet id = statement-IsQuiet _ (λ d. refl)

pub update_project-IsQuiet : (p : Project) → IsQuiet itself (update_project p)
unfolding update_project
update_project-IsQuiet p = statement-IsQuiet _ (λ d. refl)

pub delete_project-IsQuiet : (id : ℤ) → IsQuiet itself (delete_project id)
unfolding delete_project delete_project_run
delete_project-IsQuiet id = statement-IsQuiet _ (λ d. refl)

pub list_projects-IsQuiet : IsQuiet itself list_projects
unfolding list_projects
list_projects-IsQuiet = statement-IsQuiet _ (λ d. refl)

pub create_project_token-IsQuiet : (t : ProjectToken) → IsQuiet itself (create_project_token t)
unfolding create_project_token create_token_run
create_project_token-IsQuiet t = statement-IsQuiet _ (λ d. refused_if_users _ _ _ refl)

pub get_project_token_by_token-IsQuiet :
    (token : Str) → IsQuiet itself (get_project_token_by_token token)
unfolding get_project_token_by_token
get_project_token_by_token-IsQuiet token = statement-IsQuiet _ (λ d. refl)

pub list_project_tokens-IsQuiet : (id : ℤ) → IsQuiet itself (list_project_tokens id)
unfolding list_project_tokens
list_project_tokens-IsQuiet id = statement-IsQuiet _ (λ d. refl)

pub update_project_token-IsQuiet : (t : ProjectToken) → IsQuiet itself (update_project_token t)
unfolding update_project_token
update_project_token-IsQuiet t = statement-IsQuiet _ (λ d. refl)

pub delete_project_token-IsQuiet : (id : ℤ) → IsQuiet itself (delete_project_token id)
unfolding delete_project_token
delete_project_token-IsQuiet id = statement-IsQuiet _ (λ d. refl)

pub upsert_device-IsQuiet : (device : Device) → IsQuiet itself (upsert_device device)
unfolding upsert_device upsert_device_run refused_if
upsert_device-IsQuiet device = statement-IsQuiet _ (λ d. ground arith)

pub link_device_to_user-IsQuiet :
    (device_id : Str) (id : ℤ) → IsQuiet itself (link_device_to_user device_id id)
unfolding link_device_to_user link_device_run
link_device_to_user-IsQuiet device_id id = statement-IsQuiet _ (λ d. refused_if_users _ _ _ refl)

pub get_device_user_id-IsQuiet : (device_id : Str) → IsQuiet itself (get_device_user_id device_id)
unfolding get_device_user_id
get_device_user_id-IsQuiet device_id = statement-IsQuiet _ (λ d. refl)

pub select_app_user-IsQuiet : (id : ℤ) (name : Str) → IsQuiet itself (select_app_user id name)
unfolding select_app_user
select_app_user-IsQuiet id name = statement-IsQuiet _ (λ d. refl)

pub insert_event-IsQuiet : (e : Event) → IsQuiet itself (insert_event e)
unfolding insert_event insert_event_run refused_if
insert_event-IsQuiet e = statement-IsQuiet _ (λ d. ground arith)

insert_app_user-IsQuiet :
    (id : ℤ) (name : Str) → IsQuiet itself (statement (insert_app_user_run id name))
unfolding insert_app_user_run
insert_app_user-IsQuiet id name = statement-IsQuiet _ (λ d. refused_if_users _ _ _ refl)

pub get_or_create_app_user-IsQuiet :
    (id : ℤ) (name : Str) → IsQuiet itself (get_or_create_app_user id name)
unfolding get_or_create_app_user create_if_missing
get_or_create_app_user-IsQuiet id name = record {
  at = λ s. go s (select_app_user id name s) ((select_app_user-IsQuiet id name).at s);
}
  where
    go :
        (s : Db) (found : Db × Result AppUser)
        → SameIdentities s found.0
        → SameIdentities s (create_if_missing id name found).0
    go s (d, ok u) h = h
    go s (d, err failed) h = h
    go s (d, err no_rows) h = λ i. (insert_app_user-IsQuiet id name).at d i ∙ h i

insert_property-IsQuiet : (p : EventProperty) → IsQuiet itself (statement (insert_property_run p))
unfolding insert_property_run
insert_property-IsQuiet p = statement-IsQuiet _ (λ d. refused_if_users _ _ _ refl)

then_run-IsQuiet :
    (s : Db) (done : Db × Done) (next : Db → Db × Done)
    → SameIdentities s done.0
    → IsQuiet itself next
    → SameIdentities s (done then_run next).0
unfolding ◌then_run◌
then_run-IsQuiet s (d, ok a) next h k = λ id. k.at d id ∙ h id
then_run-IsQuiet s (d, err e) next h k = h

insert_properties_loop-IsQuiet :
    (ps : List EventProperty) → IsQuiet itself (insert_properties_loop ps)
unfolding insert_properties_loop
insert_properties_loop-IsQuiet [] = record { at = λ s id. refl }
insert_properties_loop-IsQuiet (p ∷ ps) = record {
  at = λ s.
      then_run-IsQuiet s _ _ ((insert_property-IsQuiet p).at s) (insert_properties_loop-IsQuiet ps);
}

rolled_back-same :
    (s : Db) (before : List EventProperty) (done : Db × Done)
    → SameIdentities s done.0
    → SameIdentities s (rolled_back before done).0
unfolding rolled_back
rolled_back-same s before (d, ok a) h = h
rolled_back-same s before (d, err e) h = h

pub insert_event_properties-IsQuiet :
    (ps : List EventProperty) → IsQuiet itself (insert_event_properties ps)
unfolding insert_event_properties
insert_event_properties-IsQuiet ps = record {
  at = λ s.
      let prepared = bare s then_run bare in
      let looped = prepared then_run insert_properties_loop ps in
      let h = then_run-IsQuiet s (bare s) bare (bare-IsQuiet.at s) bare-IsQuiet in
      let k =
        then_run-IsQuiet s prepared (insert_properties_loop ps) h
          (insert_properties_loop-IsQuiet ps) in
      rolled_back-same s s.properties (looped then_run bare)
        (then_run-IsQuiet s looped bare k bare-IsQuiet);
}
