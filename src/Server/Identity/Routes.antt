-- ===== src/Server/Identity/Routes.antt =====
-- Every other route of the server leaves the identities alone, but for those of an administrator.
use oximetric.Base.{Str, List, Option, none, some}
use oximetric.Model.{
  Time, CreateProjectRequest, UpdateProjectRequest, CreateTokenRequest, UpdateTokenRequest,
}
use oximetric.Storage.Sqlite.Whole.{sqlite}
use oximetric.Auth.{Claims, Crypto}
use oximetric.Http.{bad_request}
use oximetric.Handler.Origins.{OrError, value, error}
use oximetric.Handler.Projects.{list_all, create, update, delete}
use oximetric.Handler.Tokens.{
  accepted, new_origins, list_tokens, create_token, find_token, update_token, disable_token,
  enable_token, delete_token,
}
use oximetric.Handler.Users.{list_users}
use oximetric.Server.Identity.{IsQuiet, itself, quiet_rules, pure-IsQuiet, respond-IsQuiet}
use oximetric.Server.Identity.Calls.{
  list_console_users-IsQuiet, create_project-IsQuiet, get_project-IsQuiet, update_project-IsQuiet,
  delete_project-IsQuiet, list_projects-IsQuiet, create_project_token-IsQuiet,
  list_project_tokens-IsQuiet, update_project_token-IsQuiet, delete_project_token-IsQuiet,
  upsert_device-IsQuiet, link_device_to_user-IsQuiet, get_or_create_app_user-IsQuiet,
}

accepted-IsQuiet {ℓ} : {A : Type ℓ} (x : OrError A) → IsQuiet itself (accepted x)
accepted-IsQuiet (value a) = pure-IsQuiet itself a
accepted-IsQuiet (error e) = respond-IsQuiet itself (bad_request e)

ruleset call_rules = (
  quiet_rules, accepted-IsQuiet, list_console_users-IsQuiet, create_project-IsQuiet,
  get_project-IsQuiet, update_project-IsQuiet, delete_project-IsQuiet, list_projects-IsQuiet,
  create_project_token-IsQuiet, list_project_tokens-IsQuiet, update_project_token-IsQuiet,
  delete_project_token-IsQuiet, upsert_device-IsQuiet, link_device_to_user-IsQuiet,
  get_or_create_app_user-IsQuiet,
)

pub list_all-IsQuiet : IsQuiet itself (list_all sqlite)
unfolding list_all
list_all-IsQuiet = search call_rules depth 30

pub create-IsQuiet :
    (claims : Option Claims) (body : Option CreateProjectRequest)
    → IsQuiet itself (create sqlite claims body)
unfolding create
create-IsQuiet claims body = search call_rules depth 30

pub update-IsQuiet :
    (id : Str) (body : Option UpdateProjectRequest) → IsQuiet itself (update sqlite id body)
unfolding update
update-IsQuiet id body = search call_rules depth 30

pub delete-IsQuiet : (id : Str) → IsQuiet itself (delete sqlite id)
unfolding delete
delete-IsQuiet id = search call_rules depth 30

pub list_users-IsQuiet : (crypto : Crypto) → IsQuiet itself (list_users sqlite crypto)
unfolding list_users
list_users-IsQuiet crypto = search call_rules depth 30

module _ (url_parse : Str → Option (Str × Str)) (quote : Str → Str) where
  pub list_tokens-IsQuiet : (id : Str) → IsQuiet itself (list_tokens sqlite url_parse quote id)
  unfolding list_tokens
  list_tokens-IsQuiet id = search call_rules depth 30

  pub create_token-IsQuiet :
      (id : Str) (body : Option CreateTokenRequest) (drawn : Option Str)
      → IsQuiet itself (create_token sqlite url_parse quote id body drawn)
  unfolding create_token
  create_token-IsQuiet id body drawn = search call_rules depth 30

  find_token-IsQuiet :
      (id token_id : Str) → IsQuiet itself (find_token sqlite url_parse quote id token_id)
  unfolding find_token
  find_token-IsQuiet id token_id = search call_rules depth 30

  new_origins-IsQuiet :
      (raws : Option (List Str)) (t : _)
      → IsQuiet itself (new_origins sqlite url_parse quote raws t)
  new_origins-IsQuiet none t = pure-IsQuiet itself t
  new_origins-IsQuiet (some raws) t = search call_rules depth 30

  pub update_token-IsQuiet :
      (id token_id : Str) (body : Option UpdateTokenRequest)
      → IsQuiet itself (update_token sqlite url_parse quote id token_id body)
  unfolding update_token
  update_token-IsQuiet id token_id body =
      search (call_rules, find_token-IsQuiet, new_origins-IsQuiet) depth 30

  pub disable_token-IsQuiet :
      (id token_id : Str) (now : Time)
      → IsQuiet itself (disable_token sqlite url_parse quote id token_id now)
  unfolding disable_token
  disable_token-IsQuiet id token_id now = search (call_rules, find_token-IsQuiet) depth 30

  pub enable_token-IsQuiet :
      (id token_id : Str) → IsQuiet itself (enable_token sqlite url_parse quote id token_id)
  unfolding enable_token
  enable_token-IsQuiet id token_id = search (call_rules, find_token-IsQuiet) depth 30

  pub delete_token-IsQuiet :
      (token_id : Str) → IsQuiet itself (delete_token sqlite url_parse quote token_id)
  unfolding delete_token
  delete_token-IsQuiet token_id = search call_rules depth 30
