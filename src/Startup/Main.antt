-- ===== src/Startup/Main.antt =====
-- `main` of cmd/oximetric/main.go, up to the point where the server listens. Parameters: the
-- drivers, maxminddb.Open on the contents of a file, and the world in which a database of addresses
-- is downloaded, if it is.
use oximetric.Base.{ℕ, Str, lit, Bool, Option, none, some, ◌==◌, str_eq, if◌then◌else◌}
use oximetric.Storage.Store.{Done, ok, err}
use oximetric.Storage.Schema.{Db}
use oximetric.Storage.Postgres.{PgDb}
use oximetric.Storage.Postgres.Whole.{postgres}
use oximetric.Storage.Analytics.Sorting.{Engine}
use oximetric.Storage.Sqlite.Whole.{sqlite}
use oximetric.Storage.Open.{Driver, new_sqlite, new_postgres}
use oximetric.Auth.{Crypto}
use oximetric.Config.{Config, Loaded, load}
use oximetric.Geoip.Updater.{Date, Disk, World, database_exists, update}
use oximetric.Startup.{bootstrap_admin}

-- The store behind the interface.
pub data Opened : Type 0 where
  sqlite_store : Db → Opened
  postgres_store : PgDb → Opened

-- What the switch on the driver's name leaves in `store` and `err`.
pub data Opening : Type 0 where
  nil_store : Opening
  not_opened : Opening
  opened : Opened → Opening

-- What the server is made of; `geo` is the resolver, if one was opened.
pub record Running (R : Type 0) : Type 0 where
  pub config : Config
  pub store : Opened
  pub disk : Disk
  pub geo : Option R

-- `exited` is os.Exit(1) behind a message, and `crashed` a call of a method of a nil store.
pub data Start (R : Type 0) : Type 0 where
  exited : Str → Start R
  crashed : Start R
  serving : Running R → Start R

pub record Platform (R : Type 0) : Type 1 where
  pub to_lower : Str → Str
  pub getenv : Str → Str
  pub sqlite_driver : Driver Db
  pub postgres_driver : Driver PgDb
  -- what the store over PostgreSQL leaves to the database
  pub engine : Engine
  pub is_timestamp : Str → Bool
  pub crypto : Crypto
  pub salt : ℕ
  -- the clock and the network at the first update
  pub now : Date
  pub world : World
  pub decimal : ℕ → Str
  pub open_reader : Str → Option R

abbrev checked : {S : Type 0} → (S → Opened) → Option S → Opening
checked store none = Opening.not_opened
checked store (some s) = Opening.opened (store s)

abbrev pub on_sqlite : Db × Done → Opened × Done
on_sqlite (db, done) = (Opened.sqlite_store db, done)

abbrev pub on_postgres : PgDb × Done → Opened × Done
on_postgres (db, done) = (Opened.postgres_store db, done)

module _ {R : Type 0} (platform : Platform R) where
  open platform use {
    to_lower, getenv, sqlite_driver, postgres_driver, engine, is_timestamp, crypto, salt, now,
    world, decimal, open_reader,
  }

  -- The switch on the driver.
  unfoldable pub open_store : Config → Opening
  unfolding new_sqlite new_postgres
  open_store c =
      if c.db_driver == lit "sqlite"
      then checked Opened.sqlite_store (new_sqlite sqlite_driver c.db_dsn)
      else if c.db_driver == lit "postgres"
      then checked Opened.postgres_store (new_postgres postgres_driver c.db_dsn)
      else Opening.nil_store

  -- `bootstrapAdmin` on the store that is open.
  unfoldable pub make_admin : Config → Opened → Opened × Done
  make_admin c (Opened.sqlite_store db) =
      on_sqlite (bootstrap_admin sqlite crypto c.admin_username c.admin_password salt db)
  make_admin c (Opened.postgres_store db) = on_postgres (
      bootstrap_admin (postgres engine is_timestamp) crypto c.admin_username c.admin_password salt
        db)

  -- A download if there is no file; an error is logged and passed over.
  unfoldable pub ensure_database : Disk → Disk
  ensure_database disk = if database_exists disk then disk else (update decimal world now disk).0

  -- The resolver over the file, if there is one and it opens.
  unfoldable pub open_resolver : Disk → Option R
  open_resolver disk = elim disk.database [ none ↦ none | some file ↦ open_reader file.contents ]

  -- Behind `bootstrapAdmin`.
  unfoldable pub with_admin : Config → Disk → Opened × Done → Start R
  unfolding ensure_database open_resolver
  with_admin c disk (store, err e) = Start.exited (lit "failed to bootstrap admin")
  with_admin c disk (store, ok done) = Start.serving (record {
    config = c;
    store = store;
    disk = ensure_database disk;
    geo = open_resolver (ensure_database disk);
  })

  -- Behind the switch; without a store `bootstrapAdmin` calls a method of nil.
  unfoldable pub with_store : Config → Disk → Opening → Start R
  unfolding make_admin with_admin
  with_store c disk Opening.nil_store = Start.crashed
  with_store c disk Opening.not_opened = Start.exited (lit "failed to initialize database")
  with_store c disk (Opening.opened store) = with_admin c disk (make_admin c store)

  -- Behind `config.Load`.
  unfoldable pub with_config : Disk → Loaded → Start R
  unfolding open_store with_store
  with_config disk (Loaded.no_config message) = Start.exited (lit "failed to load config")
  with_config disk (Loaded.config c (some e)) = Start.exited (lit "failed to load config")
  with_config disk (Loaded.config c none) = with_store c disk (open_store c)

  unfoldable pub start : Disk → Start R
  unfolding with_config
  start disk = with_config disk (load to_lower getenv)
