-- ===== src/Config.antt =====
-- internal/config/config.go: `Load` and `validate`. The environment is a function, and a variable
-- that is not set is the empty text. strings.ToLower is a parameter.
pub mod Accepted
use oximetric.Base.{
  Str, lit, Bool, true, false, not, ◌&&◌, ◌||◌, List, [], ◌∷◌, ◌++◌, Option, none, some, ◌==◌,
  str_eq, ltb, length, is_empty, split, trim_space, atoi, if◌then◌else◌,
}

pub record Config : Type 0 where
  pub admin_username : Str
  pub admin_password : Str
  pub db_driver : Str
  pub db_dsn : Str
  pub port : Str
  pub jwt_secret : Str
  pub geoip_db_path : Str
  pub log_level : Str
  pub trusted_proxies : List Str
  pub domain_name : Str

-- `Load` returns no configuration for a bad port, and otherwise one with what `validate` says of it.
pub data Loaded : Type 0 where
  no_config : Str → Loaded
  config : Config → Option Str → Loaded

-- `if v != "" { field = v }`
abbrev pub or_default : Str → Str → Str
or_default v old = if is_empty v then old else v

-- The parts of the list of proxies that are not blank.
pub trimmed_parts : List Str → List Str
trimmed_parts [] = []
trimmed_parts (p ∷ ps) =
    let t = trim_space p in let rest = trimmed_parts ps in if is_empty t then rest else t ∷ rest

is_some {ℓ} : {A : Type ℓ} → Option A → Bool
is_some none = false
is_some (some a) = true

unfoldable pub is_number : Str → Bool
unfolding is_some
is_number s = is_some (atoi s)

unfoldable pub validate : Config → Option Str
validate c =
    if is_empty c.admin_username
    then some (lit "OXIMETRIC_ADMIN_USERNAME is required")
    else if is_empty c.admin_password
    then some (lit "OXIMETRIC_ADMIN_PASSWORD is required")
    else if is_empty c.jwt_secret
    then some (lit "OXIMETRIC_JWT_SECRET is required")
    else if ltb (length c.jwt_secret) 32
    then some (lit "OXIMETRIC_JWT_SECRET must be at least 32 characters")
    else if not (c.db_driver == lit "sqlite") && not (c.db_driver == lit "postgres")
    then some (
        lit "OXIMETRIC_DB_DRIVER must be 'sqlite' or 'postgres', got '" ++ (c.db_driver ++ lit "'"))
    else none

module _ (to_lower : Str → Str) (getenv : Str → Str) where
  -- `if v != "" { field = strings.ToLower(v) }`
  abbrev pub lower_or : Str → Str → Str
  lower_or v old = if is_empty v then old else to_lower v

  -- The defaults, with what the environment sets.
  abbrev pub from_env : Config
  from_env = record {
    admin_username = getenv (lit "OXIMETRIC_ADMIN_USERNAME");
    admin_password = getenv (lit "OXIMETRIC_ADMIN_PASSWORD");
    db_driver = lower_or (getenv (lit "OXIMETRIC_DB_DRIVER")) (lit "sqlite");
    db_dsn = or_default (getenv (lit "OXIMETRIC_DB_DSN")) (lit "./oximetric.db");
    port = or_default (getenv (lit "OXIMETRIC_PORT")) (lit "6940");
    jwt_secret = getenv (lit "OXIMETRIC_JWT_SECRET");
    geoip_db_path =
        or_default (getenv (lit "OXIMETRIC_GEOIP_DB_PATH")) (lit "./data/dbip-city-lite.mmdb");
    log_level = lower_or (getenv (lit "OXIMETRIC_LOG_LEVEL")) (lit "info");
    trusted_proxies =
        (if is_empty (getenv (lit "OXIMETRIC_TRUSTED_PROXIES"))
          then []
          else trimmed_parts (split (getenv (lit "OXIMETRIC_TRUSTED_PROXIES")) b','));
    domain_name = getenv (lit "OXIMETRIC_DOMAIN_NAME");
  }

  -- `Load`: the port is looked at first.
  unfoldable pub load : Loaded
  unfolding is_number
  load =
      let port = getenv (lit "OXIMETRIC_PORT") in
      if not (is_empty port) && not (is_number port)
      then Loaded.no_config (lit "invalid OXIMETRIC_PORT: " ++ port)
      else Loaded.config from_env (validate from_env)
