-- ===== src/Handler/Account.antt =====
-- The routes of internal/handler/auth.go by which a signed-in user changes the own account.
use oximetric.Base.{ℕ, lit, true, false, not, Option, none, some, ltb, length}
use oximetric.Model.{Time, PasswordChangeRequest, TotpEnableRequest, TotpDisableRequest}
use oximetric.Storage.Store.{Store}
use oximetric.Auth.{
  Claims, Crypto, check_password, hash_password, generate_totp_secret, validate_totp_code,
}
use oximetric.Http.{
  Body, Handler, ◌>>=◌, ◌>>◌, respond, require, or_respond, deref, try, write_json, write_status,
  bad_request, unauthorized, not_found, internal_error,
}

module _ (store : Store) (crypto : Crypto) where
  open store use {S, get_console_user_by_id, update_console_user}

  unfoldable pub logout : Handler S
  logout = respond (write_status 200)

  unfoldable pub me : Option Claims → Handler S
  me claims = do
    by ← deref claims
    user ← try (get_console_user_by_id by.user_id) (not_found (lit "user not found"))
    respond (write_json 200 (Body.user user))

  unfoldable pub change_password : Option Claims → Option PasswordChangeRequest → ℕ → Handler S
  change_password claims body salt = do
    req ← or_respond body (bad_request (lit "invalid request body"))
    require (not (ltb (length req.new_password) 8))
        (bad_request (lit "password must be at least 8 characters"))
    by ← deref claims
    user ← try (get_console_user_by_id by.user_id) (not_found (lit "user not found"))
    require (check_password crypto user.password_hash req.current_password)
        (unauthorized (lit "current password is incorrect"))
    hash ←
        or_respond (hash_password crypto salt req.new_password)
          (internal_error (lit "failed to hash password"))
    try (update_console_user (record user { password_hash = hash }))
        (internal_error (lit "failed to update password"))
    respond (write_status 200)

  unfoldable pub totp_setup : Option Claims → ℕ → Handler S
  totp_setup claims seed = do
    by ← deref claims
    (secret, uri) ←
        or_respond (generate_totp_secret crypto seed by.username)
          (internal_error (lit "failed to generate TOTP secret"))
    user ← try (get_console_user_by_id by.user_id) (not_found (lit "user not found"))
    try (update_console_user (record user { totp_secret = some secret }))
        (internal_error (lit "failed to save TOTP secret"))
    respond (write_json 200 (Body.totp_setup secret uri))

  unfoldable pub totp_enable : Option Claims → Option TotpEnableRequest → Time → Handler S
  totp_enable claims body now = do
    req ← or_respond body (bad_request (lit "invalid request body"))
    by ← deref claims
    user ← try (get_console_user_by_id by.user_id) (not_found (lit "user not found"))
    require (check_password crypto user.password_hash req.password)
        (unauthorized (lit "incorrect password"))
    secret ← or_respond user.totp_secret (bad_request (lit "call /auth/totp/setup first"))
    require (validate_totp_code crypto now secret req.code) (bad_request (lit "invalid TOTP code"))
    try (update_console_user (record user { totp_enabled = true }))
        (internal_error (lit "failed to enable TOTP"))
    respond (write_status 200)

  unfoldable pub totp_disable : Option Claims → Option TotpDisableRequest → Handler S
  totp_disable claims body = do
    req ← or_respond body (bad_request (lit "invalid request body"))
    by ← deref claims
    user ← try (get_console_user_by_id by.user_id) (not_found (lit "user not found"))
    require (check_password crypto user.password_hash req.password)
        (unauthorized (lit "incorrect password"))
    try (update_console_user (record user { totp_enabled = false; totp_secret = none }))
        (internal_error (lit "failed to disable TOTP"))
    respond (write_status 200)
