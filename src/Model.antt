-- ===== src/Model.antt =====
-- internal/model/model.go: the rows of the database and the bodies of requests and responses.
-- A time is its number of nanoseconds, and Go's zero time is 0. A float64 is its bit pattern.
-- A pointer that can be nil is an `Option`; a slice and a nil slice are lists.
pub mod Analytics
use oximetric.Base.{ℕ, ℤ, Str, Bool, List, Option}

abbrev pub Time : Type 0
Time = ℕ

-- A time.Time with its location, for where the program prints one: the zone is what the location
-- adds to the text.
pub record Moment : Type 0 where
  pub instant : Time
  pub zone : Str

abbrev pub Float64 : Type 0
Float64 = ℕ

pub record Project : Type 0 where
  pub id : ℤ
  pub name : Str
  pub retention_days : ℤ
  pub created_at : Time

pub record ProjectToken : Type 0 where
  pub id : ℤ
  pub project_id : ℤ
  pub token : Str
  pub label : Str
  pub active : Bool
  pub allowed_origins : List Str
  pub created_at : Time
  pub disabled_at : Option Time

pub record ConsoleUser : Type 0 where
  pub id : ℤ
  pub username : Str
  pub email : Option Str
  pub password_hash : Str
  pub role : Str
  pub totp_secret : Option Str
  pub totp_enabled : Bool
  pub created_at : Time

pub record AppUser : Type 0 where
  pub id : ℤ
  pub project_id : ℤ
  pub anonymous_id : Str
  pub created_at : Time

pub record Device : Type 0 where
  pub id : Str
  pub project_id : ℤ
  pub user_id : Option ℤ
  pub platform : Str
  pub os_version : Str
  pub app_version : Str
  pub locale : Str
  pub first_seen_at : Time
  pub last_seen_at : Time

pub record Event : Type 0 where
  pub id : Str
  pub project_id : ℤ
  pub device_id : Str
  pub user_id : Option ℤ
  pub name : Str
  pub timestamp : Str
  pub ip_address : Str
  pub country : Str
  pub city : Str
  pub created_at : Time

pub record EventProperty : Type 0 where
  pub id : ℤ
  pub event_id : Str
  pub key : Str
  pub value_type : Str
  pub value_string : Option Str
  pub value_int : Option ℤ
  pub value_float : Option Float64
  pub value_bool : Option Bool
  pub value_datetime : Option Moment

-- What an `interface{}` holds after a JSON value was decoded into it.
pub data JsonValue : Type 0 where
  null : JsonValue
  bool : Bool → JsonValue
  number : Float64 → JsonValue
  string : Str → JsonValue
  compound : JsonValue

pub record TrackPropertyValue : Type 0 where
  pub type : Str
  pub value : JsonValue

-- A map is the list of its entries, in the order in which a `range` visits them.
pub record TrackEventRequest : Type 0 where
  pub id : Str
  pub name : Str
  pub timestamp : Str
  pub properties : List (Str × TrackPropertyValue)

pub record TrackRequest : Type 0 where
  pub device_id : Str
  pub user_id : Option ℤ
  pub events : List TrackEventRequest

pub record DeviceRequest : Type 0 where
  pub device_id : Str
  pub platform : Str
  pub os_version : Str
  pub app_version : Str
  pub locale : Str

pub record IdentifyRequest : Type 0 where
  pub device_id : Str
  pub anonymous_id : Str

pub record LoginRequest : Type 0 where
  pub login : Str
  pub password : Str
  pub totp_code : Str

pub record PasswordChangeRequest : Type 0 where
  pub current_password : Str
  pub new_password : Str

pub record TotpEnableRequest : Type 0 where
  pub code : Str
  pub password : Str

pub record TotpDisableRequest : Type 0 where
  pub password : Str

pub record CreateProjectRequest : Type 0 where
  pub name : Str

pub record UpdateProjectRequest : Type 0 where
  pub name : Option Str
  pub retention_days : Option ℤ

pub record CreateTokenRequest : Type 0 where
  pub label : Str
  pub allowed_origins : List Str

pub record UpdateTokenRequest : Type 0 where
  pub label : Option Str
  pub allowed_origins : Option (List Str)

pub record CreateUserRequest : Type 0 where
  pub username : Str
  pub email : Option Str
  pub password : Str
  pub role : Str

pub record UpdateUserRequest : Type 0 where
  pub username : Option Str
  pub email : Option Str
  pub role : Option Str

pub record HealthResponse : Type 0 where
  pub status : Str
  pub database : Str
  pub geoip : Str
  pub version : Str
