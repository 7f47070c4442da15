-- ===== src/Http.antt =====
-- Requests, responses, and the shape of a handler: a run of steps over a state that each go on,
-- write a response and return, or panic on a nil pointer.
pub mod Answers
use oximetric.Base.{◌≡◌, refl, ℕ, ℤ, Str, lit, Bool, true, false, List, [], ◌∷◌, Option, none, some}
use oximetric.Model.{Project, ProjectToken, ConsoleUser, HealthResponse}
use oximetric.Model.Analytics.{
  AnalyticsOverview, EventsAnalytics, PropertyAnalytics, DevicesAnalytics, GeoAnalytics,
  UsersAnalytics, RetentionAnalytics,
}
use oximetric.Storage.Store.{Result, ok, err}

-- The bodies that the handlers write: JSON, but for the last two.
pub data Body : Type 0 where
  empty : Body
  error : Str → Str → Body
  project : Project → Body
  projects : List Project → Body
  token : ProjectToken → Body
  tokens : List ProjectToken → Body
  user : ConsoleUser → Body
  users : List ConsoleUser → Body
  logged_in : Str → ConsoleUser → Body
  totp_required : Body
  totp_setup : Str → Str → Body
  accepted : ℕ → Body
  identified : ℤ → Body
  health : HealthResponse → Body
  overview : AnalyticsOverview → Body
  event_counts : EventsAnalytics → Body
  property_counts : PropertyAnalytics → Body
  device_counts : DevicesAnalytics → Body
  geo_counts : GeoAnalytics → Body
  user_counts : UsersAnalytics → Body
  cohorts : RetentionAnalytics → Body
  -- the bytes of a page, or of a text
  html : Str → Body
  text : Str → Body

pub record Response : Type 0 where
  pub status : ℕ
  pub headers : List (Str × Str)
  pub body : Body

-- `writeJSON`
abbrev pub write_json : ℕ → Body → Response
write_json status body = record {
  status = status;
  headers = (lit "Content-Type", lit "application/json") ∷ [];
  body = body;
}

-- `writeError`
abbrev pub write_error : ℕ → Str → Str → Response
write_error status code message = write_json status (Body.error code message)

-- `w.WriteHeader(status)` with no body
abbrev pub write_status : ℕ → Response
write_status status = record { status = status; headers = []; body = Body.empty }

pub data Step {ℓ} (A : Type ℓ) : Type ℓ where
  go : A → Step A
  reply : Response → Step A
  panic : Step A

-- A handler's code up to some point, over the state that it changes.
abbrev pub H {ℓ} : Type 0 → Type ℓ → Type ℓ
H S A = S → S × Step A

abbrev pub Handler : Type 0 → Type 0
Handler S = H S (Unit {0})

abbrev continue {ℓ κ} :
    {S : Type 0} {A : Type ℓ} {B : Type κ} → S × Step A → (A → H S B) → S × Step B
continue (s, go a) f = f a s
continue (s, reply r) f = (s, reply r)
continue (s, panic) f = (s, panic)

infixl 5 ◌>>=◌ ◌>>◌
abbrev pub ◌>>=◌ {ℓ κ} : {S : Type 0} {A : Type ℓ} {B : Type κ} → H S A → (A → H S B) → H S B
◌>>=◌ m f s = continue (m s) f

abbrev pub ◌>>◌ {ℓ κ} : {S : Type 0} {A : Type ℓ} {B : Type κ} → H S A → H S B → H S B
m >> k = m >>= λ _. k

module _ {S : Type 0} where
  abbrev pub pure {ℓ} : {A : Type ℓ} → A → H S A
  pure a s = (s, go a)

  -- A response is written and the handler returns.
  abbrev pub respond {ℓ} : {A : Type ℓ} → Response → H S A
  respond r s = (s, reply r)

  -- `if !test { writeError(…); return }`
  abbrev pub require : Bool → Response → Handler S
  require true r s = (s, go tt)
  require false r s = (s, reply r)

  -- A result that is there, or an error response.
  abbrev pub or_respond {ℓ} : {A : Type ℓ} → Option A → Response → H S A
  or_respond none r s = (s, reply r)
  or_respond (some a) r s = (s, go a)

  -- A pointer is followed.
  abbrev pub deref {ℓ} : {A : Type ℓ} → Option A → H S A
  deref none s = (s, panic)
  deref (some a) s = (s, go a)

  abbrev after_call {ℓ} : {A : Type ℓ} → Response → S × Result A → S × Step A
  after_call r (s, ok a) = (s, go a)
  after_call r (s, err e) = (s, reply r)

  -- `if err := call(…); err != nil { writeError(…); return }`
  abbrev pub try {ℓ} : {A : Type ℓ} → (S → S × Result A) → Response → H S A
  try call r s = after_call r (call s)

  abbrev after_ignored {ℓ} : {A : Type ℓ} → S × Result A → S × Step (Result A)
  after_ignored (s, r) = (s, go r)

  -- A call whose result is looked at by what follows.
  abbrev pub perform {ℓ} : {A : Type ℓ} → (S → S × Result A) → H S (Result A)
  perform call s = after_ignored (call s)

-- What holds of the state after a call, and after what follows its success, holds of the state at
-- the end.
pub try_keeps {ℓ κ} :
    {S : Type 0} {A : Type κ} (P : S → Type ℓ) (call : S → S × Result A) (r : Response)
    (next : A → Handler S) (s : S)
    → P (call s).0
    → ((a : A) → (call s).1 ≡ ok a → P (next a (call s).0).0)
    → P ((try call r >>= next) s).0
try_keeps P call r next s h k = go (call s) h k
  where
    go :
        (done : _ × Result _)
        → P done.0
        → ((a : _) → done.1 ≡ ok a → P (next a done.0).0)
        → P ((try (λ _. done) r >>= next) s).0
    go (s', ok a) h k = k a refl
    go (s', err e) h k = h

-- The error responses of the API.
abbrev pub bad_request : Str → Response
bad_request = write_error 400 (lit "VALIDATION_ERROR")

abbrev pub unauthorized : Str → Response
unauthorized = write_error 401 (lit "UNAUTHORIZED")

abbrev pub forbidden : Str → Response
forbidden = write_error 403 (lit "FORBIDDEN")

abbrev pub not_found : Str → Response
not_found = write_error 404 (lit "NOT_FOUND")

abbrev pub rate_limited : Str → Response
rate_limited = write_error 429 (lit "RATE_LIMITED")

abbrev pub internal_error : Str → Response
internal_error = write_error 500 (lit "INTERNAL_ERROR")
