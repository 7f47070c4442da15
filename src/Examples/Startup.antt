-- ===== src/Examples/Startup.antt =====
-- A start on a database with one event, and the loop of the clean-up until the end of the context.
use oximetric.Base.{Str, true, none, some, ◌≡◌, refl}
use oximetric.Storage.Schema.{Db}
use oximetric.Storage.Open.{Driver, new_sqlite}
use oximetric.Startup.Main.{Platform, start}
use oximetric.Startup.Ready.{IsGood, IsQuiet, start-IsGood}
use oximetric.Examples.Config.{environment}
use oximetric.Examples.Accounts.{toy, accounts}
use oximetric.Examples.Guards.{toy-HashesMatch}
use oximetric.Examples.Analytics.{engine}
use oximetric.Examples.Geoip.{decimal, disk, today, world}

-- Every file is the database of the accounts, and the migration finds it done.
abbrev driver : Driver Db
driver = record { open_dsn = λ dsn. some accounts; pings = λ s. true; run_migration = λ s. some s }

abbrev platform : Platform Str
platform = record {
  to_lower = λ s. s;
  getenv = environment;
  sqlite_driver = driver;
  postgres_driver = record {
    open_dsn = λ dsn. none;
    pings = λ s. true;
    run_migration = λ s. some s;
  };
  engine = engine;
  is_timestamp = λ s. true;
  crypto = toy;
  salt = 3;
  now = today;
  world = world;
  decimal = decimal;
  open_reader = λ contents. some contents;
}

driver-IsQuiet : IsQuiet platform disk
unfolding new_sqlite
driver-IsQuiet dsn db h = let same : accounts ≡ db = cc in rw (← same) refl

start-IsGood_example : IsGood platform disk (start platform disk)
start-IsGood_example = start-IsGood platform disk toy-HashesMatch driver-IsQuiet
