-- ===== src/Storage/Postgres/Ids.antt =====
-- The ids of console users in PostgreSQL are never given twice.
use oximetric.Base.{
  ℕ, suc, ◌≤◌, ◌<◌, ℤ, pos, Bool, true, false, List, [], ◌∷◌, ◌++◌, ◌≡◌, refl, arith,
}
use oximetric.Model.{ConsoleUser}
use oximetric.Storage.Store.{Result, ok, err}
use oximetric.Storage.Schema.{Db, refused_if}
use oximetric.Storage.Postgres.{PgDb, Sequences, draw, serial, user_ids}
use oximetric.Storage.Postgres.Users.{
  create_user_run, create_console_user, update_console_user, delete_console_user,
}

-- The calls that write to console_users, and a change of what the driver will fail.
pub data UserCall : Type 0 where
  create : ConsoleUser → UserCall
  update : ConsoleUser → UserCall
  delete : ℤ → UserCall
  set_faults : List Bool → UserCall

abbrev given : PgDb × Result ConsoleUser → List ℤ
given (s, ok u) = u.id ∷ []
given (s, err e) = []

-- One call, with the id that it gives to a new user.
unfoldable pub run_user_call : UserCall → PgDb → PgDb × List ℤ
run_user_call (UserCall.create user) s =
    ((create_console_user user s).0, given (create_console_user user s))
run_user_call (UserCall.update user) s = ((update_console_user user s).0, [])
run_user_call (UserCall.delete id) s = ((delete_console_user id s).0, [])
run_user_call (UserCall.set_faults faults) s =
    (record s { tables = record s.tables { faults = faults } }, [])

-- The ids that are given in a run of calls, in order.
unfoldable pub given_ids : List UserCall → PgDb → List ℤ
unfolding run_user_call
given_ids [] s = []
given_ids (c ∷ cs) s = (run_user_call c s).1 ++ given_ids cs (run_user_call c s).0

-- The ids are above a number, and each is above the one before it.
abbrev pub Rises : ℕ → List ℤ → Type 0
Rises n [] = Unit {0}
Rises n (id ∷ ids) = (m : ℕ) × (id ≡ pos m) × (n < m) × Rises m ids

Rises-below : (n m : ℕ) (ids : List ℤ) → n ≤ m → Rises m ids → Rises n ids
Rises-below n m [] h r = tt
Rises-below n m (id ∷ ids) h (k, e, l, r) = (k, e, omega arith, r)

-- The last value of the sequence of console_users.
abbrev pub last_id : PgDb → ℕ
last_id s = s.sequences.console_users

Drawn : ℕ → PgDb × Result ConsoleUser → Type 0
Drawn n (s, ok u) = (u.id ≡ pos (suc n)) × (last_id s ≡ suc n)
Drawn n (s, err e) = n ≤ last_id s

module _ (user : ConsoleUser) where
  run-Drawn :
      (n : ℕ) (q : Sequences) (refused : Bool) (db done : Db) (u : ConsoleUser)
      → q.console_users ≡ suc n
      → u.id ≡ pos (suc n)
      → let after = refused_if refused db (done, ok u) in
        Drawn n (record { tables = after.0; sequences = q }, after.1)
  unfolding refused_if Drawn
  run-Drawn n q true db done u e f = omega arith
  run-Drawn n q false db done u e f = (f, e)

  draw-Drawn : (s : PgDb) → Drawn (last_id s) (draw user_ids (create_user_run user) s)
  unfolding draw create_user_run
  draw-Drawn s =
      run-Drawn (last_id s) (record s.sequences { console_users = suc (last_id s) }) _ s.tables _
        (record user { id = pos (suc (last_id s)) }) refl refl

  create-Drawn : (s : PgDb) → Drawn (last_id s) (create_console_user user s)
  unfolding create_console_user serial Drawn
  create-Drawn s = go s.tables.faults refl
    where
      go :
          (faults : List Bool)
          → s.tables.faults ≡ faults
          → Drawn (last_id s) (create_console_user user s)
      go [] e = rw e (draw-Drawn (record s { tables = record s.tables { faults = [] } }))
      go (true ∷ rest) e = rw e (omega arith)
      go (false ∷ rest) e =
          rw e (draw-Drawn (record s { tables = record s.tables { faults = rest } }))

given-Rises :
    (n : ℕ) (done : PgDb × Result ConsoleUser) (ids : List ℤ)
    → Drawn n done
    → Rises (last_id done.0) ids
    → Rises n (given done ++ ids)
unfolding Drawn
given-Rises n (s, ok u) ids (e, f) r = (suc n, e, omega arith, rw f at r)
given-Rises n (s, err e) ids h r = Rises-below n (last_id s) ids h r

-- Whatever is created, updated and deleted in PostgreSQL, and whichever statements fail: the ids
-- that new console users get rise, and start above the sequence's last value, so that no id is
-- given twice, not even that of a deleted user.
pub given_ids-Rises : (calls : List UserCall) (s : PgDb) → Rises (last_id s) (given_ids calls s)
unfolding given_ids run_user_call update_console_user delete_console_user
given_ids-Rises [] s = tt
given_ids-Rises (UserCall.create user ∷ calls) s =
    given-Rises (last_id s) (create_console_user user s) _ (create-Drawn user s)
      (given_ids-Rises calls (create_console_user user s).0)
given_ids-Rises (UserCall.update user ∷ calls) s =
    given_ids-Rises calls (update_console_user user s).0
given_ids-Rises (UserCall.delete id ∷ calls) s = given_ids-Rises calls (delete_console_user id s).0
given_ids-Rises (UserCall.set_faults faults ∷ calls) s =
    given_ids-Rises calls (record s { tables = record s.tables { faults = faults } })
