-- ===== src/Handler/Answered.antt =====
-- Every handler of internal/handler answers, given the claims that `JWTAuth` stores.
pub mod Analytics
use oximetric.Base.{Bool, ℕ, ℤ, Str, Option, none, some, List, is_empty, inl, inr, Bool-cases}
use oximetric.Model.{
  Time, TrackRequest, DeviceRequest, IdentifyRequest, LoginRequest, PasswordChangeRequest,
  TotpEnableRequest, TotpDisableRequest, CreateProjectRequest, UpdateProjectRequest,
  CreateTokenRequest, UpdateTokenRequest, CreateUserRequest, UpdateUserRequest, ProjectToken,
}
use oximetric.Storage.Store.{Store}
use oximetric.Auth.{Claims, Crypto, validate_totp_code}
use oximetric.Http.{bad_request}
use oximetric.Http.Answers.{IsReply, Proceeds, Runs, Runs-pure, Runs-respond, Answers, answer_rules}
use oximetric.Handler.Origins.{OrError, value, error}
use oximetric.Handler.Login.{LoginClock, check_totp_limit, check_second_factor, login}
use oximetric.Handler.Health.{health}
use oximetric.Handler.Client.{Peer}
use oximetric.Handler.Tracking.{Runtime, always, track, device, identify}
use oximetric.Handler.Account.{logout, me, change_password, totp_setup, totp_enable, totp_disable}
use oximetric.Handler.Projects.{list_all, create, update, delete}
use oximetric.Handler.Tokens.{
  accepted, new_origins, list_tokens, create_token, find_token, update_token, disable_token,
  enable_token, delete_token,
}
use oximetric.Handler.Users.{list_users, create_user, update_user, delete_user}

module _ (store : Store) (crypto : Crypto) where
  pub list_users-Answers : Answers (list_users store crypto)
  unfolding list_users
  list_users-Answers = search answer_rules

  module _ (c : Claims) where
    pub create_user-Answers :
        (body : Option CreateUserRequest) (salt : ℕ)
        → Answers (create_user store crypto (some c) body salt)
    unfolding create_user
    create_user-Answers body salt = search answer_rules depth 30

    pub update_user-Answers :
        (id : Str) (body : Option UpdateUserRequest)
        → Answers (update_user store crypto (some c) id body)
    unfolding update_user
    update_user-Answers id body = search answer_rules depth 30

    pub delete_user-Answers : (id : Str) → Answers (delete_user store crypto (some c) id)
    unfolding delete_user
    delete_user-Answers id = search answer_rules depth 30

    pub me-Answers : Answers (me store crypto (some c))
    unfolding me
    me-Answers = search answer_rules depth 30

    pub change_password-Answers :
        (body : Option PasswordChangeRequest) (salt : ℕ)
        → Answers (change_password store crypto (some c) body salt)
    unfolding change_password
    change_password-Answers body salt = search answer_rules depth 30

    pub totp_setup-Answers : (seed : ℕ) → Answers (totp_setup store crypto (some c) seed)
    unfolding totp_setup
    totp_setup-Answers seed = search answer_rules depth 30

    pub totp_enable-Answers :
        (body : Option TotpEnableRequest) (now : Time)
        → Answers (totp_enable store crypto (some c) body now)
    unfolding totp_enable
    totp_enable-Answers body now = search answer_rules depth 30

    pub totp_disable-Answers :
        (body : Option TotpDisableRequest) → Answers (totp_disable store crypto (some c) body)
    unfolding totp_disable
    totp_disable-Answers body = search answer_rules depth 30

    pub create-Answers : (body : Option CreateProjectRequest) → Answers (create store (some c) body)
    unfolding create
    create-Answers body = search answer_rules depth 30

  pub logout-Answers : Answers (logout store crypto)
  unfolding logout
  logout-Answers = search answer_rules depth 30

  pub update-Answers :
      (id : Str) (body : Option UpdateProjectRequest) → Answers (update store id body)
  unfolding update
  update-Answers id body = search answer_rules depth 30

Runs-accepted {ℓ} : {S : Type 0} {A : Type ℓ} (x : OrError A) → Runs (accepted {S = S} x)
Runs-accepted (value a) = Runs-pure a
Runs-accepted (error e) = Runs-respond (bad_request e)

module _ (store : Store) where
  pub list_all-Answers : Answers (list_all store)
  unfolding list_all
  list_all-Answers = search answer_rules depth 30

  pub delete-Answers : (id : Str) → Answers (delete store id)
  unfolding delete
  delete-Answers id = search answer_rules depth 30

  pub health-Answers :
      (geoip_open : Bool) (version : Str) → Answers (health store geoip_open version)
  unfolding health
  health-Answers geoip_open version = record { at = λ s. IsReply.replied _ }

module _ (store : Store) (url_parse : Str → Option (Str × Str)) (quote : Str → Str) where
  pub list_tokens-Answers : (id : Str) → Answers (list_tokens store url_parse quote id)
  unfolding list_tokens
  list_tokens-Answers id = search answer_rules depth 30

  pub create_token-Answers :
      (id : Str) (body : Option CreateTokenRequest) (drawn : Option Str)
      → Answers (create_token store url_parse quote id body drawn)
  unfolding create_token
  create_token-Answers id body drawn = search (answer_rules, Runs-accepted) depth 30

  find_token-Runs : (id token_id : Str) → Runs (find_token store url_parse quote id token_id)
  unfolding find_token
  find_token-Runs id token_id = search answer_rules depth 30

  new_origins-Runs :
      (raws : Option (List Str)) (found : ProjectToken)
      → Runs (new_origins store url_parse quote raws found)
  new_origins-Runs none found = Runs-pure found
  new_origins-Runs (some raws) found = search (answer_rules, Runs-accepted) depth 30

  pub update_token-Answers :
      (id token_id : Str) (body : Option UpdateTokenRequest)
      → Answers (update_token store url_parse quote id token_id body)
  unfolding update_token
  update_token-Answers id token_id body =
      search (answer_rules, find_token-Runs, new_origins-Runs) depth 30

  pub disable_token-Answers :
      (id token_id : Str) (now : Time)
      → Answers (disable_token store url_parse quote id token_id now)
  unfolding disable_token
  disable_token-Answers id token_id now = search (answer_rules, find_token-Runs) depth 30

  pub enable_token-Answers :
      (id token_id : Str) → Answers (enable_token store url_parse quote id token_id)
  unfolding enable_token
  enable_token-Answers id token_id = search (answer_rules, find_token-Runs) depth 30

  pub delete_token-Answers :
      (token_id : Str) → Answers (delete_token store url_parse quote token_id)
  unfolding delete_token
  delete_token-Answers token_id = search answer_rules depth 30

module _ (store : Store) (rt : Runtime) (project_id : ℤ) where
  always-Runs {ℓ} : {A : Type ℓ} (f : store.S → store.S × A) → Runs (λ s. always store rt (f s))
  always-Runs f = record { at = λ s. Proceeds.went _ }

  pub track-Answers :
      (proxies : List Str) (peer : Peer) (body : Option TrackRequest)
      → Answers (track store rt proxies project_id peer body)
  unfolding track
  track-Answers proxies peer body = search (answer_rules, always-Runs) depth 30

  pub device-Answers : (body : Option DeviceRequest) → Answers (device store rt project_id body)
  unfolding device
  device-Answers body = search answer_rules depth 30

  pub identify-Answers :
      (body : Option IdentifyRequest) → Answers (identify store rt project_id body)
  unfolding identify
  identify-Answers body = search answer_rules depth 30

module _ (store : Store) (crypto : Crypto) (jwt_secret : Str) where
  check_second_factor-Runs :
      (clock : LoginClock) (req : LoginRequest) (secret : Option Str)
      → Runs (check_second_factor store crypto jwt_secret clock req secret)
  unfolding check_second_factor
  check_second_factor-Runs clock req none = record { at = λ s. Proceeds.went tt }
  check_second_factor-Runs clock req (some secret) = record {
    at = λ s. elim (Bool-cases (is_empty req.totp_code)) [
      | inl e ↦ rw e (Proceeds.replied _)
      | inr e ↦ elim (Bool-cases (check_totp_limit req.login clock.at_check s.totp_attempts)) [
        | inr l ↦ rw (e, l) (Proceeds.replied _)
        | inl l ↦
            elim (Bool-cases (validate_totp_code crypto clock.at_validate secret req.totp_code)) [
              | inl v ↦ rw (e, l, v) (Proceeds.went tt)
              | inr v ↦ rw (e, l, v) (Proceeds.replied _)
            ]
      ]
    ];
  }

  pub login-Answers :
      (clock : LoginClock) (body : Option LoginRequest)
      → Answers (login store crypto jwt_secret clock body)
  unfolding login
  login-Answers clock body = search (answer_rules, check_second_factor-Runs) depth 30
