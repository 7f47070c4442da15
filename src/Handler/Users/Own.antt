-- ===== src/Handler/Users/Own.antt =====
-- `Update` and `Delete` of internal/handler/users.go keep off the account of the caller.
use oximetric.Base.{
  ℤ, Str, Bool, true, false, not, List, [], ◌∷◌, Option, some, ◌≡◌, ◌≢◌, refl, ◌∙◌, inl, inr,
  Option-cases, Bool-cases, ◌==◌, int_eq, eq_iff, arith, keep, update_where, atoi,
}
use oximetric.Model.{ConsoleUser, UpdateUserRequest}
use oximetric.Storage.Store.{Result, Done, ok}
use oximetric.Storage.Schema.{Db, statement_keeps, refused_if, first_row}
use oximetric.Storage.Sqlite.Users.{
  get_console_user_by_id, update_user_run, update_console_user, delete_console_user, set_user,
}
use oximetric.Storage.Sqlite.Whole.{sqlite}
use oximetric.Auth.{Claims, Crypto}
use oximetric.Http.{try_keeps}
use oximetric.Handler.Users.{update_user, delete_user, updated_user, change_user, role_given_ok}

-- The row of a user.
abbrev pub row_of : ℤ → Db → Result ConsoleUser
row_of id db = first_row (λ u. u.id == id) db.console_users

first_row-keep :
    (own id : ℤ) (us : List ConsoleUser)
    → id ≢ own
    → first_row (λ u. u.id == own) (keep (λ u. not (u.id == id)) us)
      ≡ first_row (λ u. u.id == own) us
first_row-keep own id [] h = refl
first_row-keep own id (u ∷ us) h =
    ground (arith, eq_iff u.id own, eq_iff u.id id, first_row-keep own id us h)

first_row-update_where :
    (own : ℤ) (user : ConsoleUser) (us : List ConsoleUser)
    → user.id ≢ own
    → first_row (λ u. u.id == own) (update_where (λ r. r.id == user.id) (set_user user) us)
      ≡ first_row (λ u. u.id == own) us
first_row-update_where own user [] h = refl
first_row-update_where own user (u ∷ us) h =
    ground (arith, eq_iff u.id own, eq_iff u.id user.id, first_row-update_where own user us h)

-- The row that is found has the id.
pub found_id :
    (id : ℤ) (us : List ConsoleUser) (u : ConsoleUser)
    → first_row (λ r. r.id == id) us ≡ ok u
    → u.id ≡ id
found_id id [] u h = ground arith
found_id id (r ∷ us) u h = ground (arith, eq_iff r.id id, found_id id us u)

-- What the store's two calls do to the row of another user.
delete_other :
    (own id : ℤ) (db : Db) → id ≢ own → row_of own (delete_console_user id db).0 ≡ row_of own db
unfolding delete_console_user
delete_other own id db h =
    statement_keeps (λ before after. row_of own after.0 ≡ row_of own before) _ db
      (λ rest. first_row-keep own id db.console_users h) (λ rest. refl)

pub update_other :
    (own : ℤ) (user : ConsoleUser) (db : Db)
    → user.id ≢ own
    → row_of own (update_console_user user db).0 ≡ row_of own db
unfolding update_console_user update_user_run refused_if
update_other own user db h =
    statement_keeps (λ before after. row_of own after.0 ≡ row_of own before) (update_user_run user)
      db (λ rest. refused _ _ _ (first_row-update_where own user db.console_users h)) (λ rest. refl)
  where
    refused :
        (b : Bool) (before : Db) (after : Db × Done)
        → row_of own after.0 ≡ row_of own before
        → row_of own (refused_if b before after).0 ≡ row_of own before
    refused true before after k = refl
    refused false before after k = k

-- The lookup changes no row, and finds a row with the id that it looks for.
looked_up :
    (own id : ℤ) (db : Db)
    → (row_of own (get_console_user_by_id id db).0 ≡ row_of own db)
      × ((user : ConsoleUser) → (get_console_user_by_id id db).1 ≡ ok user → user.id ≡ id)
unfolding get_console_user_by_id
looked_up own id db =
    statement_keeps
      (λ before after.
        (row_of own after.0 ≡ row_of own before)
        × ((user : ConsoleUser) → after.1 ≡ ok user → user.id ≡ id))
      (λ d. (d, row_of id d)) db (λ rest. (refl, found_id id db.console_users))
      (λ rest. (refl, λ user h. ground arith))

module _ (crypto : Crypto) (by : Claims) (path_id : Str) (db : Db) where
  -- Nobody deletes the own account: whatever id the path names, the row of the user whose claims the
  -- request carries is afterwards as it was.
  pub delete_user_own :
      row_of by.user_id (delete_user sqlite crypto (some by) path_id db).0 ≡ row_of by.user_id db
  unfolding delete_user
  delete_user_own = elim (Option-cases (atoi path_id)) [
    | inl e ↦ rw e refl
    | inr (id, e) ↦ elim (Bool-cases (id == by.user_id)) [
      | inl same ↦ rw (e, same) refl
      | inr other ↦
          let kept = delete_other by.user_id id db (ground (arith, eq_iff id by.user_id)) in
          rw (e, other)
            (try_keeps (λ d. row_of by.user_id d ≡ row_of by.user_id db) (delete_console_user id) _
              _ db kept (λ a h. kept))
    ]
  ]

  -- Nobody changes the own role, name or email by `Update`: the row of the user whose claims the
  -- request carries is afterwards as it was, whatever the path and the body say.
  pub update_user_own :
      (body : Option UpdateUserRequest)
      → row_of by.user_id (update_user sqlite crypto (some by) path_id body db).0
        ≡ row_of by.user_id db
  unfolding update_user
  update_user_own body = elim (Option-cases (atoi path_id)) [
    | inl e ↦ rw e refl
    | inr (id, e) ↦ elim (Bool-cases (id == by.user_id)) [
      | inl same ↦ rw (e, same) refl
      | inr other ↦
          let (kept, found) = looked_up by.user_id id db in
          rw (e, other)
            (try_keeps (λ d. row_of by.user_id d ≡ row_of by.user_id db) (get_console_user_by_id id)
              _ _ db kept
              (λ user h.
                change user (found user h) (get_console_user_by_id id db).0
                  (ground (arith, eq_iff id by.user_id)) kept))
    ]
  ]
    where
      change :
          (user : ConsoleUser) {id : ℤ}
          → user.id ≡ id
          → (d : Db) → id ≢ by.user_id
          → row_of by.user_id d ≡ row_of by.user_id db
          → row_of by.user_id (change_user sqlite crypto body user d).0 ≡ row_of by.user_id db
      change user e d h kept = elim (Option-cases body) [
        | inl none_given ↦ rw none_given kept
        | inr (req, given) ↦ elim (Bool-cases (role_given_ok req.role)) [
          | inr bad ↦ rw (given, bad) kept
          | inl good ↦
              let same = update_other by.user_id (updated_user req user) d (rw e h) ∙ kept in
              rw (given, good)
                (try_keeps (λ d'. row_of by.user_id d' ≡ row_of by.user_id db)
                  (update_console_user (updated_user req user)) _ _ d same (λ a k. same))
        ]
      ]
