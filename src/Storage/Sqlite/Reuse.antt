-- ===== src/Storage/Sqlite/Reuse.antt =====
-- SQLite gives the id of a deleted newest row again (INTEGER PRIMARY KEY without AUTOINCREMENT).
use oximetric.Base.{
  ℕ, suc, ◌≤◌, ℤ, pos, negsuc, pos_part, Bool, true, false, not, List, [], ◌∷◌, ◌++◌, ◌≡◌, refl,
  sym, ap, ◌∙◌, arith, keep, ◌==◌, append-nil, int_eq, int_beq, if◌then◌else◌, eq_iff, leb,
}
use oximetric.Model.{ConsoleUser}
use oximetric.Storage.Store.{Result, ok, err}
use oximetric.Storage.Schema.{Db, statement_runs, refused_if, max_id, fresh_id}
use oximetric.Storage.Sqlite.Users.{create_user_run, create_console_user, delete_console_user}

abbrev id_of : ConsoleUser → ℤ
id_of u = u.id

both_below : (a b n : ℕ) → (if leb a b then b else a) ≤ n → (a ≤ n) × (b ≤ n)
both_below a b n h = (ground arith, ground arith)

other : (id : ℤ) (n : ℕ) → pos_part id ≤ n → (id == pos (suc n)) ≡ false
unfolding int_beq
other (pos m) n h = ground arith
other (negsuc m) n h = refl

keep_below :
    (n : ℕ) (us : List ConsoleUser)
    → max_id id_of us ≤ n
    → keep (λ u. not (u.id == pos (suc n))) us ≡ us
keep_below n [] h = refl
keep_below n (u ∷ us) h =
    let (rest, first) = both_below (max_id id_of us) (pos_part u.id) n h in
    rw (other u.id n first) (ap (λ vs. u ∷ vs) (keep_below n us rest))

keep-append :
    (p : ConsoleUser → Bool) (us vs : List ConsoleUser) → keep p (us ++ vs) ≡ keep p us ++ keep p vs
keep-append p [] vs = refl
keep-append p (u ∷ us) vs = ground (arith, keep-append p us vs)

-- The users with a new one.
abbrev with_new : ConsoleUser → Db → Db
with_new user db = record db {
  console_users =
      db.console_users
      ++ record user { id = fresh_id id_of db.console_users; created_at = db.now } ∷ [];
}

abbrev id_in : Result ConsoleUser → ℤ
id_in (ok u) = u.id
id_in (err e) = pos 0

abbrev Made : ConsoleUser → ConsoleUser → Db → Db × Result ConsoleUser → Type 0
Made user made db after =
    after.1 ≡ ok made → (made.id ≡ fresh_id id_of db.console_users) × (after.0 ≡ with_new user db)

-- What a creation that succeeds leaves, and gives.
run-Made :
    (user made : ConsoleUser) (db : Db) (refused : Bool)
    → Made user made db (
        refused_if refused db
          (with_new user db, ok (record user { id = fresh_id id_of db.console_users })))
unfolding refused_if
run-Made user made db true h = ground arith
run-Made user made db false h = (ap id_in (sym h), refl)

create-Made :
    (user made : ConsoleUser) (db : Db)
    → db.faults ≡ []
    → Made user made db (create_console_user user db)
unfolding create_console_user create_user_run
create-Made user made db quiet =
    rw (statement_runs (create_user_run user) db quiet) (run-Made user made db _)

delete_new :
    (user : ConsoleUser) (db : Db)
    → db.faults ≡ []
    → (delete_console_user (fresh_id id_of db.console_users) (with_new user db)).0 ≡ db
unfolding delete_console_user
delete_new user db quiet =
    let n = max_id id_of db.console_users in
    let row = record user { id = pos (suc n); created_at = db.now } in
    let gone = λ (u : ConsoleUser). not (u.id == pos (suc n)) in
    let same : (pos (suc n) == pos (suc n)) ≡ true = (eq_iff (pos (suc n)) (pos (suc n))).1 refl in
    let left : keep gone (db.console_users ++ row ∷ []) ≡ db.console_users =
      keep-append gone db.console_users (row ∷ [])
      ∙ rw (same, keep_below n db.console_users (omega arith)) (append-nil db.console_users) in
    rw (statement_runs _ (with_new user db) quiet)
      (ap (λ us. record db { console_users = us }) left)

-- When no statement fails: a console user who is created, and deleted again while the newest, leaves
-- the id to the next one who is created.
pub create_console_user-reuses :
    (user next made second : ConsoleUser) (db : Db)
    → db.faults ≡ []
    → (create_console_user user db).1 ≡ ok made
    → (create_console_user next (delete_console_user made.id (create_console_user user db).0).0).1
      ≡ ok second
    → second.id ≡ made.id
create_console_user-reuses user next made second db quiet h k =
    let (e, after) = create-Made user made db quiet h in
    let (f, _) = create-Made next second db quiet (rw (e, after, delete_new user db quiet) at k) in
    f ∙ sym e
