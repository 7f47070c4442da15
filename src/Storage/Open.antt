-- ===== src/Storage/Open.antt =====
-- `NewSQLite` and `NewPostgres` of internal/storage. Parameter: database/sql over a driver.
use oximetric.Base.{Str, lit, Bool, ◌++◌, Option, none, some, if◌then◌else◌}

-- The driver over databases in states of one type.
pub record Driver (S : Type 0) : Type 0 where
  -- sql.Open, with the database as it stands
  pub open_dsn : Str → Option S
  -- db.Ping
  pub pings : S → Bool
  -- what the statements of the embedded migration make of the database
  pub run_migration : S → Option S

module _ {S : Type 0} (driver : Driver S) where
  open driver use {open_dsn, pings, run_migration}

  -- `migrate`, behind the ping.
  abbrev pub migrated : Option S → Option S
  migrated none = none
  migrated (some s) = if pings s then run_migration s else none

  unfoldable pub new_sqlite : Str → Option S
  new_sqlite dsn =
      migrated (open_dsn (dsn ++ lit "?_pragma=foreign_keys(1)&_pragma=journal_mode(wal)"))

  unfoldable pub new_postgres : Str → Option S
  new_postgres dsn = migrated (open_dsn dsn)
