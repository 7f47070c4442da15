-- ===== src/Handler/Projects.antt =====
-- The project routes of internal/handler/projects.go.
use oximetric.Base.{pos, Str, lit, not, Option, is_empty, atoi}
use oximetric.Model.{Project, CreateProjectRequest, UpdateProjectRequest}
use oximetric.Storage.Store.{Store}
use oximetric.Auth.{Claims}
use oximetric.Http.{
  Body, Handler, ◌>>=◌, ◌>>◌, respond, require, or_respond, deref, try, write_json, write_status,
  bad_request, not_found, internal_error,
}
use oximetric.Handler.Users.{or_else}

abbrev pub new_project : CreateProjectRequest → Project
new_project req = record { id = pos 0; name = req.name; retention_days = pos 0; created_at = 0 }

abbrev pub updated_project : UpdateProjectRequest → Project → Project
updated_project req project = record project {
  name = or_else req.name project.name;
  retention_days = or_else req.retention_days project.retention_days;
}

module _ (store : Store) where
  open store use {S, list_projects, create_project, get_project, update_project, delete_project}

  unfoldable pub list_all : Handler S
  list_all = do
    projects ← try list_projects (internal_error (lit "failed to list projects"))
    respond (write_json 200 (Body.projects projects))

  unfoldable pub create : Option Claims → Option CreateProjectRequest → Handler S
  create claims body = do
    req ← or_respond body (bad_request (lit "invalid request body"))
    require (not (is_empty req.name)) (bad_request (lit "name is required"))
    project ←
        try (create_project (new_project req)) (internal_error (lit "failed to create project"))
    by ← deref claims
    respond (write_json 201 (Body.project project))

  unfoldable pub update : Str → Option UpdateProjectRequest → Handler S
  update path_id body = do
    id ← or_respond (atoi path_id) (bad_request (lit "invalid project id"))
    project ← try (get_project id) (not_found (lit "project not found"))
    req ← or_respond body (bad_request (lit "invalid request body"))
    try (update_project (updated_project req project))
        (internal_error (lit "failed to update project"))
    respond (write_json 200 (Body.project (updated_project req project)))

  unfoldable pub delete : Str → Handler S
  delete path_id = do
    id ← or_respond (atoi path_id) (bad_request (lit "invalid project id"))
    try (delete_project id) (internal_error (lit "failed to delete project"))
    respond (write_status 200)
