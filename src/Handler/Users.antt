-- ===== src/Handler/Users.antt =====
-- internal/handler/users.go. A body that does not decode is `none`; so is a missing claim.
-- Log lines are left out, but for the claims that they read.
pub mod Own
use oximetric.Base.{
  ℕ, ℤ, Str, lit, Bool, true, false, not, ◌&&◌, ◌||◌, List, Option, none, some, ◌==◌, int_eq,
  str_eq, is_empty, ltb, length, atoi, if◌then◌else◌,
}
use oximetric.Model.{ConsoleUser, CreateUserRequest, UpdateUserRequest}
use oximetric.Storage.Store.{Store}
use oximetric.Auth.{Claims, Crypto, hash_password}
use oximetric.Http.{
  Body, Handler, H, ◌>>=◌, ◌>>◌, respond, require, or_respond, deref, try, pure, write_json,
  write_status, bad_request, forbidden, not_found, internal_error,
}

-- `role == "admin" || role == "manager" || role == "viewer"`, as both guards negate it
unfoldable pub is_known_role : Str → Bool
is_known_role role = role == lit "admin" || role == lit "manager" || role == lit "viewer"

-- The struct that `Create` fills; the zero values are those of Go.
abbrev pub new_user : CreateUserRequest → Str → ConsoleUser
new_user req hash = record {
  id = ℤ.pos 0;
  username = req.username;
  email = req.email;
  password_hash = hash;
  role = req.role;
  totp_secret = none;
  totp_enabled = false;
  created_at = 0;
}

-- `if req.X != nil { user.X = *req.X }`
abbrev pub or_else {ℓ} : {A : Type ℓ} → Option A → A → A
or_else none old = old
or_else (some new) old = new

-- An email that is given replaces the pointer.
abbrev pub or_email : Option Str → Option Str → Option Str
or_email none old = old
or_email (some new) old = some new

-- The role that is given is checked; none leaves the old one.
abbrev pub role_given_ok : Option Str → Bool
role_given_ok none = true
role_given_ok (some role) = is_known_role role

abbrev pub updated_user : UpdateUserRequest → ConsoleUser → ConsoleUser
updated_user req user = record user {
  username = or_else req.username user.username;
  email = or_email req.email user.email;
  role = or_else req.role user.role;
}

module _ (store : Store) (crypto : Crypto) where
  open store use {
    S, list_console_users, create_console_user, get_console_user_by_id, update_console_user,
    delete_console_user,
  }

  unfoldable pub list_users : Handler S
  list_users = do
    users ← try list_console_users (internal_error (lit "failed to list users"))
    respond (write_json 200 (Body.users users))

  unfoldable pub create_user : Option Claims → Option CreateUserRequest → ℕ → Handler S
  unfolding is_known_role
  create_user claims body salt = do
    req ← or_respond body (bad_request (lit "invalid request body"))
    require (not (is_empty req.username || is_empty req.password || is_empty req.role))
        (bad_request (lit "username, password, and role are required"))
    require (not (ltb (length req.password) 8))
        (bad_request (lit "password must be at least 8 characters"))
    require (is_known_role req.role) (bad_request (lit "role must be admin, manager, or viewer"))
    hash ←
        or_respond (hash_password crypto salt req.password)
          (internal_error (lit "failed to hash password"))
    user ←
        try (create_console_user (new_user req hash)) (internal_error (lit "failed to create user"))
    by ← deref claims
    respond (write_json 201 (Body.user user))

  -- What `Update` does once it has the user.
  abbrev pub change_user : Option UpdateUserRequest → ConsoleUser → Handler S
  change_user body user = do
    req ← or_respond body (bad_request (lit "invalid request body"))
    require (role_given_ok req.role) (bad_request (lit "role must be admin, manager, or viewer"))
    try (update_console_user (updated_user req user)) (internal_error (lit "failed to update user"))
    respond (write_json 200 (Body.user (updated_user req user)))

  unfoldable pub update_user : Option Claims → Str → Option UpdateUserRequest → Handler S
  unfolding is_known_role
  update_user claims path_id body = do
    id ← or_respond (atoi path_id) (bad_request (lit "invalid user id"))
    by ← deref claims
    require (not (id == by.user_id))
        (forbidden (lit "cannot modify your own account here, use Account settings"))
    user ← try (get_console_user_by_id id) (not_found (lit "user not found"))
    change_user body user

  unfoldable pub delete_user : Option Claims → Str → Handler S
  delete_user claims path_id = do
    id ← or_respond (atoi path_id) (bad_request (lit "invalid user id"))
    by ← deref claims
    require (not (id == by.user_id)) (forbidden (lit "cannot delete your own account"))
    try (delete_console_user id) (internal_error (lit "failed to delete user"))
    respond (write_status 200)
