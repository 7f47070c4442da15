-- ===== src/Startup/Admin.antt =====
-- The row that a login with the name of the administrator finds after `bootstrapAdmin`.
use oximetric.Base.{
  ℕ, Str, Bool, true, false, List, [], some, int_eq, str_eq, eq_refl, ◌≡◌, ◌⊎◌, none, refl, inl,
  inr, Bool-cases, Option-cases,
}
use oximetric.Model.{ConsoleUser}
use oximetric.Storage.Store.{Result, ok, err, no_rows, failed}
use oximetric.Storage.Schema.{Db, statement_runs, refused_if}
use oximetric.Storage.Sqlite.Users.{
  row_of_login, create_user_run, create_console_user, update_user_run, update_console_user,
  get_console_user_by_login,
}
use oximetric.Storage.Sqlite.Whole.{sqlite}
use oximetric.Auth.{Crypto, hash_password, check_password}
use oximetric.Startup.Found.{Finds, Finds-created, Finds-updated}
use oximetric.Startup.{done_of, new_admin, reset_admin, after_lookup, bootstrap_admin}

-- What bcrypt documents: a hash that it makes matches its password.
abbrev pub HashesMatch : Crypto → Type 0
HashesMatch crypto =
    (salt : ℕ) (password hash : Str)
    → crypto.bcrypt_generate salt password ≡ some hash
    → crypto.bcrypt_compare hash password ≡ true

found-cases :
    (r : Result ConsoleUser)
    → ((u : ConsoleUser) × (r ≡ ok u)) ⊎ ((r ≡ err no_rows) ⊎ (r ≡ err failed))
found-cases (ok u) = inl (u, refl)
found-cases (err no_rows) = inr (inl refl)
found-cases (err failed) = inr (inr refl)

module _ (crypto : Crypto) (username password : Str) (salt : ℕ) where
  -- The password matches the hash of the row, and the row was the one that was found before, or has
  -- no second factor.
  abbrev pub IsOpened : List ConsoleUser → ConsoleUser → Type 0
  IsOpened before u =
      (check_password crypto u.password_hash password ≡ true)
      × ((row_of_login username before ≡ ok u)
          ⊎ ((u.totp_enabled ≡ false) × (u.totp_secret ≡ none)))

  -- A statement that was not refused has run.
  not_refused {ℓ} :
      {A : Type ℓ} (refused : Bool) (db after : Db) (a : A)
      → (e : (done : A) × ((refused_if refused db (after, ok a)).1 ≡ ok done))
      → Finds (IsOpened db.console_users) username after.console_users
      → Finds
          (IsOpened db.console_users)
          username
          (refused_if refused db (after, ok a)).0.console_users
  unfolding refused_if
  not_refused true db after a (done, e) h = cc
  not_refused false db after a e h = h

  -- The user that is created is found.
  created :
      (hash : Str) (db : Db)
      → row_of_login username db.console_users ≡ err no_rows
      → check_password crypto hash password ≡ true
      → (user : ConsoleUser) × ((create_user_run (new_admin username hash) db).1 ≡ ok user)
      → Finds
          (IsOpened db.console_users)
          username
          (create_user_run (new_admin username hash) db).0.console_users
  unfolding create_user_run
  created hash db missing opens ran = not_refused _ db _ _ ran (
      Finds-created username db.console_users (IsOpened db.console_users) _ missing
        (rw (eq_refl username) refl) (opens, inr (refl, refl)))

  -- The user whose password is set is found.
  updated :
      (user : ConsoleUser) (hash : Str) (db : Db)
      → row_of_login username db.console_users ≡ ok user
      → check_password crypto hash password ≡ true
      → (update_user_run (reset_admin user hash) db).1 ≡ ok tt
      → Finds
          (IsOpened db.console_users)
          username
          (update_user_run (reset_admin user hash) db).0.console_users
  unfolding update_user_run
  updated user hash db found opens ran =
      not_refused _ db _ tt (tt, ran)
        (Finds-updated username db.console_users (IsOpened db.console_users) (reset_admin user hash)
          user found refl refl refl (λ row. (opens, inr (refl, refl))))

  hash-opens :
      (hash : Str)
      → HashesMatch crypto
      → crypto.bcrypt_generate salt password ≡ some hash
      → check_password crypto hash password ≡ true
  unfolding check_password
  hash-opens hash match g = match salt password hash g

  done_ok : {A : Type 0} (r : Db × Result A) → (done_of r).1 ≡ ok tt → (a : A) × (r.1 ≡ ok a)
  done_ok (db, ok a) h = (a, refl)
  done_ok (db, err e) h = cc

  done_state : {A : Type 0} (r : Db × Result A) → (done_of r).0 ≡ r.0
  done_state (db, ok a) = refl
  done_state (db, err e) = refl

  after_lookup-Finds :
      (db : Db) (r : Result ConsoleUser)
      → HashesMatch crypto
      → db.faults ≡ []
      → row_of_login username db.console_users ≡ r
      → (after_lookup sqlite crypto username password salt (db, r)).1 ≡ ok tt
      → Finds
          (IsOpened db.console_users)
          username
          (after_lookup sqlite crypto username password salt (db, r)).0.console_users
  unfolding after_lookup hash_password create_console_user update_console_user
  after_lookup-Finds db (err failed) match quiet found ran = cc
  after_lookup-Finds db (err no_rows) match quiet found ran =
      elim (Option-cases (crypto.bcrypt_generate salt password)) [
        | inl n ↦ cc (rw (after_lookup, n) at ran)
        | inr (hash, g) ↦
            let run = statement_runs (create_user_run (new_admin username hash)) db quiet in
            let made =
              done_ok (create_user_run (new_admin username hash) db)
                (rw run at (rw (after_lookup, g) at ran)) in
            rw (after_lookup, g, run, done_state (create_user_run (new_admin username hash) db))
              (created hash db found (hash-opens hash match g) made)
      ]
  after_lookup-Finds db (ok user) match quiet found ran =
      elim (Bool-cases (check_password crypto user.password_hash password)) [
        | inl opens ↦ rw (after_lookup, opens) (user, found, (opens, inl found))
        | inr shut ↦ elim (Option-cases (crypto.bcrypt_generate salt password)) [
          | inl n ↦ cc (rw (after_lookup, shut, n) at ran)
          | inr (hash, g) ↦
              let run = statement_runs (update_user_run (reset_admin user hash)) db quiet in
              rw (after_lookup, shut, g, run)
                (updated user hash db found (hash-opens hash match g)
                  (rw (after_lookup, shut, g, run) at ran))
        ]
      ]

  -- On SQLite, when the driver fails no statement and bcrypt matches what it hashed: if
  -- `bootstrapAdmin` succeeds, the user that is then found under the administrator's name has the
  -- password of the configuration; and it is the one that was found before, or has no second factor.
  pub bootstrap_admin-Finds :
      (db : Db)
      → HashesMatch crypto
      → db.faults ≡ []
      → (bootstrap_admin sqlite crypto username password salt db).1 ≡ ok tt
      → Finds
          (IsOpened db.console_users)
          username
          (bootstrap_admin sqlite crypto username password salt db).0.console_users
  unfolding bootstrap_admin get_console_user_by_login
  bootstrap_admin-Finds db match quiet ran =
      let looked = statement_runs (λ d. (d, row_of_login username d.console_users)) db quiet in
      rw looked (
        after_lookup-Finds db (row_of_login username db.console_users) match quiet refl
          (rw looked at ran))
