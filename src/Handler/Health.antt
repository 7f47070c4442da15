-- ===== src/Handler/Health.antt =====
-- internal/handler/health.go. The resolver counts as the fact that it was opened.
use oximetric.Base.{Str, lit, Bool, true, false, ◌==◌, str_eq, if◌then◌else◌}
use oximetric.Model.{HealthResponse}
use oximetric.Storage.Store.{Store, Result, ok, err}
use oximetric.Http.{Body, Step, Handler, write_json}

-- The report before the checks.
abbrev pub all_ok : Str → HealthResponse
all_ok version = record {
  status = lit "ok";
  database = lit "ok";
  geoip = lit "ok";
  version = version;
}

abbrev check_database : Result (Unit {0}) → HealthResponse → HealthResponse
check_database (ok done) r = r
check_database (err e) r = record r { status = lit "degraded"; database = lit "error" }

abbrev check_geoip : Bool → HealthResponse → HealthResponse
check_geoip true r = r
check_geoip false r = record r { status = lit "degraded"; geoip = lit "unavailable" }

module _ (store : Store) (geoip_open : Bool) (version : Str) where
  open store use {S, ping}

  abbrev report : S × Result (Unit {0}) → S × Step (Unit {0})
  report (s, pinged) =
      let r = check_geoip geoip_open (check_database pinged (all_ok version)) in
      (s, Step.reply (write_json (if r.status == lit "ok" then 200 else 503) (Body.health r)))

  unfoldable pub health : Handler S
  health s = report (ping s)
