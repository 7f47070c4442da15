-- ===== src/Startup/Ready.antt =====
-- What holds of the parts that the server is made of.
use oximetric.Base.{
  Str, lit, false, ◌⊎◌, [], none, some, ◌==◌, str_eq, eq_iff, ◌≡◌, inl, inr, refl, Bool-cases,
  Option-cases, arith,
}
use oximetric.Storage.Store.{Done, ok, err}
use oximetric.Storage.Schema.{Db}
use oximetric.Storage.Postgres.{PgDb}
use oximetric.Storage.Open.{new_sqlite, new_postgres}
use oximetric.Config.{Config, Loaded, load}
use oximetric.Config.Accepted.{IsValid, load_iff}
use oximetric.Geoip.Updater.{Disk, database_exists}
use oximetric.Startup.Found.{Finds}
use oximetric.Startup.Admin.{HashesMatch, IsOpened, bootstrap_admin-Finds}
use oximetric.Startup.Main.{
  Opened, Running, Start, Platform, open_store, make_admin, ensure_database, open_resolver,
  on_sqlite, on_postgres, with_admin, with_store, with_config, start,
}

module _ {R : Type 0} (platform : Platform R) (disk : Disk) where
  open platform use {to_lower, getenv, sqlite_driver, postgres_driver, crypto, salt}

  -- A database of SQLite as it is opened fails no statement.
  abbrev pub IsQuiet : Type 0
  IsQuiet = (dsn : Str) (db : Db) → new_sqlite sqlite_driver dsn ≡ some db → db.faults ≡ []

  -- The user that a login with the name of the administrator finds has the password of the
  -- configuration, and is the one that was found as the database was opened, or has no second factor.
  abbrev pub HasAdmin : Config → Db → Db → Type 0
  HasAdmin c before db =
      Finds (IsOpened crypto c.admin_username c.admin_password salt before.console_users)
        c.admin_username db.console_users

  -- The store is the one that the configuration names, and on SQLite it has the administrator.
  pub data IsStore (c : Config) : Opened → Type 0 where
    of_sqlite :
        (before db : Db)
        → c.db_driver ≡ lit "sqlite"
        → new_sqlite sqlite_driver c.db_dsn ≡ some before
        → HasAdmin c before db
        → IsStore c (Opened.sqlite_store db)
    of_postgres : (db : PgDb) → c.db_driver ≡ lit "postgres" → IsStore c (Opened.postgres_store db)

  pub record IsReady (r : Running R) : Type 0 where
    pub loaded : load to_lower getenv ≡ Loaded.config r.config none
    pub valid : IsValid r.config
    pub store_of : IsStore r.config r.store
    -- The start never replaces a database of addresses that is there.
    pub kept : (database_exists disk ≡ false) ⊎ (r.disk ≡ disk)

  -- An exit, or a server that is ready; and not a call of a nil store.
  pub data IsGood : Start R → Type 0 where
    exits : (message : Str) → IsGood (Start.exited message)
    serves : (r : Running R) → IsReady r → IsGood (Start.serving r)

  ensure_database_kept : (database_exists disk ≡ false) ⊎ (ensure_database platform disk ≡ disk)
  unfolding ensure_database
  ensure_database_kept = elim (Bool-cases (database_exists disk)) [
    | inl e ↦ inr (rw e refl)
    | inr e ↦ inl e
  ]

  module _ (c : Config) (loaded : load to_lower getenv ≡ Loaded.config c none) where
    loaded-IsValid : IsValid c
    loaded-IsValid = let (e, port, v) = (load_iff to_lower getenv c).0 loaded in rw e v

    abbrev running : Opened → Running R
    running store = record {
      config = c;
      store = store;
      disk = ensure_database platform disk;
      geo = open_resolver platform (ensure_database platform disk);
    }

    with_admin-IsGood :
        (store : Opened) (done : Done)
        → (done ≡ ok tt → IsStore c store)
        → IsGood (with_admin platform c disk (store, done))
    unfolding with_admin
    with_admin-IsGood store (err e) h = IsGood.exits _
    with_admin-IsGood store (ok done) h = IsGood.serves (running store) (record {
      loaded = loaded;
      valid = loaded-IsValid;
      store_of = h refl;
      kept = ensure_database_kept;
    })

    sqlite-IsGood :
        (before : Db) (r : Db × Done)
        → c.db_driver ≡ lit "sqlite"
        → new_sqlite sqlite_driver c.db_dsn ≡ some before
        → (r.1 ≡ ok tt → HasAdmin c before r.0)
        → IsGood (with_admin platform c disk (on_sqlite r))
    sqlite-IsGood before (db, done) d n h =
        with_admin-IsGood (Opened.sqlite_store db) done (λ e. IsStore.of_sqlite before db d n (h e))

    postgres-IsGood :
        (r : PgDb × Done)
        → c.db_driver ≡ lit "postgres"
        → IsGood (with_admin platform c disk (on_postgres r))
    postgres-IsGood (db, done) d =
        with_admin-IsGood (Opened.postgres_store db) done (λ e. IsStore.of_postgres db d)

    open_store-IsGood :
        HashesMatch crypto → IsQuiet → IsGood (with_store platform c disk (open_store platform c))
    unfolding with_store make_admin open_store
    open_store-IsGood match quiet = elim (Bool-cases (c.db_driver == lit "sqlite")) [
      | inl e ↦ elim (Option-cases (new_sqlite sqlite_driver c.db_dsn)) [
        | inl n ↦ rw (open_store, e, n) (IsGood.exits _)
        | inr (db, n) ↦
            rw (open_store, e, n)
              (sqlite-IsGood db _ ((eq_iff c.db_driver (lit "sqlite")).0 e) n (
                bootstrap_admin-Finds crypto c.admin_username c.admin_password salt db match
                  (quiet c.db_dsn db n)))
      ]
      | inr e ↦ elim loaded-IsValid.db_driver [
        | inl d ↦ absurd (ground (arith, (eq_iff c.db_driver (lit "sqlite")).1 d))
        | inr d ↦ elim (Option-cases (new_postgres postgres_driver c.db_dsn)) [
          | inl n ↦
              rw (open_store, e, (eq_iff c.db_driver (lit "postgres")).1 d, n) (IsGood.exits _)
          | inr (db, n) ↦
              rw (open_store, e, (eq_iff c.db_driver (lit "postgres")).1 d, n) (postgres-IsGood _ d)
        ]
      ]
    ]

  with_config-IsGood :
      (l : Loaded)
      → load to_lower getenv ≡ l
      → HashesMatch crypto
      → IsQuiet
      → IsGood (with_config platform disk l)
  unfolding with_config
  with_config-IsGood (Loaded.no_config m) h match quiet = IsGood.exits _
  with_config-IsGood (Loaded.config c (some e)) h match quiet = IsGood.exits _
  with_config-IsGood (Loaded.config c none) h match quiet = open_store-IsGood c h match quiet

  -- When bcrypt matches what it hashed, and a database of SQLite as it is opened fails no statement:
  -- the start never calls a method of a store that was not opened. A server that is started has a
  -- valid configuration, which is what `Load` made of the environment, and the store of the driver
  -- that it names. On SQLite the user that a login with the name of the administrator finds has the
  -- password of the configuration, and is the one that was found as the database was opened, or has
  -- no second factor. A database of addresses that was there is left as it was.
  pub start-IsGood : HashesMatch crypto → IsQuiet → IsGood (start platform disk)
  unfolding start
  start-IsGood match quiet = with_config-IsGood (load to_lower getenv) refl match quiet
