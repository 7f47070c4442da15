-- ===== src/Examples/Config.antt =====
-- An environment that sets what is required and no more.
use oximetric.Base.{Str, lit, [], ◌==◌, str_eq, none, ◌≡◌, ◌↔◌, if◌then◌else◌}
use oximetric.Config.{Loaded, from_env, load}
use oximetric.Config.Accepted.{IsValid, PortOk, load_iff}

abbrev pub environment : Str → Str
environment name =
    if name == lit "OXIMETRIC_ADMIN_USERNAME"
    then lit "root"
    else if name == lit "OXIMETRIC_ADMIN_PASSWORD"
    then lit "p"
    else if name == lit "OXIMETRIC_JWT_SECRET"
    then lit "0123456789abcdef0123456789abcdef"
    else []

load_iff_example :
    (load (λ s. s) environment ≡ Loaded.config (from_env (λ s. s) environment) none) ↔ (
      (from_env (λ s. s) environment ≡ from_env (λ s. s) environment)
      × PortOk (environment (lit "OXIMETRIC_PORT"))
      × IsValid (from_env (λ s. s) environment))
load_iff_example = load_iff (λ s. s) environment (from_env (λ s. s) environment)
