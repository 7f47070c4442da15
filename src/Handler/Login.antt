-- ===== src/Handler/Login.antt =====
-- `Login` of internal/handler/auth.go, with its protection against guessing TOTP codes.
pub mod Guessing
use oximetric.Base.{
  ℕ, ◌+◌, Str, lit, Bool, true, false, not, ◌||◌, ◌&&◌, List, [], Option, none, some, str_eq, ltb,
  is_empty, lookup, insert, if◌then◌else◌,
}
use oximetric.Model.{Time, ConsoleUser, LoginRequest}
use oximetric.Storage.Store.{Store, Result, ok, err}
use oximetric.Auth.{Crypto, check_password, generate_jwt, validate_totp_code}
use oximetric.Http.{
  Body, Handler, H, ◌>>=◌, ◌>>◌, pure, respond, require, or_respond, try, write_json, bad_request,
  unauthorized, rate_limited, internal_error,
}

pub record TotpTracker : Type 0 where
  pub failures : ℕ
  pub reset_at : Time

abbrev pub Attempts : Type 0
Attempts = List (Str × TotpTracker)

-- Five minutes, and the failures that are allowed in them.
abbrev pub totp_window : ℕ
totp_window = 300000000000

abbrev pub totp_max_failures : ℕ
totp_max_failures = 5

-- The tracker counts: it is there and its window is not over (`time.Now().After(t.resetAt)`).
unfoldable pub current_tracker : Str → Time → Attempts → Option TotpTracker
current_tracker key now attempts = elim (lookup key attempts) [
  | none ↦ none
  | some t ↦ if ltb t.reset_at now then none else some t
]

-- `checkTOTPLimit`
unfoldable pub check_totp_limit : Str → Time → Attempts → Bool
unfolding current_tracker
check_totp_limit key now attempts = elim (current_tracker key now attempts) [
  | none ↦ true
  | some t ↦ ltb t.failures totp_max_failures
]

-- `recordTOTPFailure`; the second reading of the clock starts a new window.
unfoldable pub record_totp_failure : Str → Time → Time → Attempts → Attempts
unfolding current_tracker
record_totp_failure key now later attempts = elim (current_tracker key now attempts) [
  | none ↦ insert key (record { failures = 1; reset_at = later + totp_window }) attempts
  | some t ↦ insert key (record t { failures = t.failures + 1 }) attempts
]

-- The handler's own state beside the store's.
pub record AuthState (S : Type 0) : Type 0 where
  pub db : S
  pub totp_attempts : Attempts

-- The readings of the clock that one login makes, in the order of the code.
pub record LoginClock : Type 0 where
  pub at_check : Time
  pub at_validate : Time
  pub at_failure : Time
  pub at_reset : Time
  pub at_sign : Time

module _ {ℓ} {S : Type 0} {A : Type ℓ} where
  abbrev with_db : AuthState S → S × Result A → AuthState S × Result A
  with_db s (db', r) = (record s { db = db' }, r)

  -- A call of the store from the handler's state.
  abbrev pub on_db : (S → S × Result A) → AuthState S → AuthState S × Result A
  on_db call s = with_db s (call s.db)

-- `user.TOTPEnabled && user.TOTPSecret != nil`, with the secret
abbrev pub second_factor : ConsoleUser → Option Str
second_factor user = if user.totp_enabled then user.totp_secret else none

module _ (store : Store) (crypto : Crypto) (jwt_secret : Str) where
  open store use {S, get_console_user_by_login}

  -- The part of the handler for a user with a second factor.
  unfoldable pub check_second_factor :
      LoginClock → LoginRequest → Option Str → Handler (AuthState S)
  check_second_factor clock req none s = pure tt s
  check_second_factor clock req (some secret) s =
      if is_empty req.totp_code
      then respond (write_json 200 Body.totp_required) s
      else if not (check_totp_limit req.login clock.at_check s.totp_attempts)
      then respond (rate_limited (lit "too many TOTP attempts, try again later")) s
      else if validate_totp_code crypto clock.at_validate secret req.totp_code
      then pure tt s
      else respond (unauthorized (lit "invalid TOTP code")) (record s {
        totp_attempts =
            record_totp_failure req.login clock.at_failure clock.at_reset s.totp_attempts;
      })

  -- The password check for a login that is not found only takes time, and is left out.
  unfoldable pub login : LoginClock → Option LoginRequest → Handler (AuthState S)
  unfolding check_second_factor
  login clock body = do
    req ← or_respond body (bad_request (lit "invalid request body"))
    require (not (is_empty req.login || is_empty req.password))
        (bad_request (lit "login and password are required"))
    user ←
        try (on_db (get_console_user_by_login req.login)) (unauthorized (lit "invalid credentials"))
    require (check_password crypto user.password_hash req.password)
        (unauthorized (lit "invalid credentials"))
    check_second_factor clock req (second_factor user)
    token ←
        or_respond (generate_jwt crypto jwt_secret clock.at_sign user.id user.username user.role)
          (internal_error (lit "failed to generate token"))
    respond (write_json 200 (Body.logged_in token user))
