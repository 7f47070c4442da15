-- ===== src/Handler/Tokens.antt =====
-- The token routes of internal/handler/projects.go.
pub mod Disabled
use oximetric.Base.{
  ℕ, ℤ, pos, Str, lit, true, false, List, Option, none, some, ◌==◌, int_eq, find?, atoi,
}
use oximetric.Model.{Time, ProjectToken, CreateTokenRequest, UpdateTokenRequest}
use oximetric.Storage.Store.{Store}
use oximetric.Auth.{generate_token}
use oximetric.Http.{
  Body, Handler, H, ◌>>=◌, ◌>>◌, respond, or_respond, try, pure, write_json, write_status,
  bad_request, not_found, internal_error,
}
use oximetric.Handler.Users.{or_else}
use oximetric.Handler.Origins.{OrError, value, error, normalize_origins}

abbrev pub new_token : ℤ → Str → CreateTokenRequest → List Str → ProjectToken
new_token id token req origins = record {
  id = pos 0;
  project_id = id;
  token = token;
  label = req.label;
  active = true;
  allowed_origins = origins;
  created_at = 0;
  disabled_at = none;
}

-- `projectID, _ := pathInt(r, "id")`: a bad number is 0, or the bound that it passes; the model
-- answers 0, which no project has.
abbrev pub path_int_or_zero : Str → ℤ
path_int_or_zero path_id = or_else (atoi path_id) (pos 0)

abbrev pub accepted {ℓ} : {S : Type 0} {A : Type ℓ} → OrError A → H S A
accepted (value a) = pure a
accepted (error e) = respond (bad_request e)

module _ (store : Store) (url_parse : Str → Option (Str × Str)) (quote : Str → Str) where
  open store use {
    S, list_project_tokens, create_project_token, update_project_token, delete_project_token,
  }

  unfoldable pub list_tokens : Str → Handler S
  list_tokens path_id = do
    id ← or_respond (atoi path_id) (bad_request (lit "invalid project id"))
    tokens ← try (list_project_tokens id) (internal_error (lit "failed to list tokens"))
    respond (write_json 200 (Body.tokens tokens))

  -- What the random source gives is an argument; none is its failure.
  unfoldable pub create_token : Str → Option CreateTokenRequest → Option (List ℕ) → Handler S
  unfolding generate_token
  create_token path_id body drawn = do
    id ← or_respond (atoi path_id) (bad_request (lit "invalid project id"))
    req ← or_respond body (bad_request (lit "invalid request body"))
    token_str ← or_respond (generate_token drawn) (internal_error (lit "failed to generate token"))
    origins ← accepted (normalize_origins url_parse quote req.allowed_origins)
    token ←
        try (create_project_token (new_token id token_str req origins))
          (internal_error (lit "failed to create token"))
    respond (write_json 201 (Body.token token))

  -- The head of the three handlers that change a token: it is looked for among the project's.
  unfoldable pub find_token : Str → Str → H S ProjectToken
  find_token path_id path_token_id = do
    token_id ← or_respond (atoi path_token_id) (bad_request (lit "invalid token id"))
    tokens ←
        try (list_project_tokens (path_int_or_zero path_id))
          (internal_error (lit "failed to find token"))
    or_respond (find? (λ (t : ProjectToken). t.id == token_id) tokens)
        (not_found (lit "token not found"))

  abbrev pub new_origins : Option (List Str) → ProjectToken → H S ProjectToken
  new_origins none found = pure found
  new_origins (some raws) found = do
    origins ← accepted (normalize_origins url_parse quote raws)
    pure (record found { allowed_origins = origins })

  unfoldable pub update_token : Str → Str → Option UpdateTokenRequest → Handler S
  unfolding find_token
  update_token path_id path_token_id body = do
    found ← find_token path_id path_token_id
    req ← or_respond body (bad_request (lit "invalid request body"))
    token ← new_origins req.allowed_origins (record found { label = or_else req.label found.label })
    try (update_project_token token) (internal_error (lit "failed to update token"))
    respond (write_json 200 (Body.token token))

  unfoldable pub disable_token : Str → Str → Time → Handler S
  unfolding find_token
  disable_token path_id path_token_id now = do
    found ← find_token path_id path_token_id
    try (update_project_token (record found { active = false; disabled_at = some now }))
        (internal_error (lit "failed to disable token"))
    respond (write_status 200)

  unfoldable pub enable_token : Str → Str → Handler S
  unfolding find_token
  enable_token path_id path_token_id = do
    found ← find_token path_id path_token_id
    try (update_project_token (record found { active = true; disabled_at = none }))
        (internal_error (lit "failed to enable token"))
    respond (write_status 200)

  unfoldable pub delete_token : Str → Handler S
  delete_token path_token_id = do
    token_id ← or_respond (atoi path_token_id) (bad_request (lit "invalid token id"))
    try (delete_project_token token_id) (internal_error (lit "failed to delete token"))
    respond (write_status 200)
