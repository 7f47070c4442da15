-- ===== src/Storage/Schema.antt =====
-- The tables of internal/storage/migrations, and the statements' common ground.
-- A table is the list of its rows in the order of insertion. `faults` says which of the coming
-- statements the driver fails (a lost connection, a busy file, a cancelled context); `now` is the
-- clock of the database, which CURRENT_TIMESTAMP reads.
use oximetric.Base.{
  ◌≡◌, refl, ℕ, ℤ, pos, pos_part, suc, Str, Bool, true, false, List, [], ◌∷◌, Option, none, some,
  ◌==◌, int_eq, str_eq, leb, if◌then◌else◌,
}
use oximetric.Model.{Time, Project, ConsoleUser, AppUser, Device, EventProperty}
use oximetric.Storage.Store.{Result, ok, err, no_rows, failed}

-- A row of project_tokens: the origins are one text.
pub record TokenRow : Type 0 where
  pub id : ℤ
  pub project_id : ℤ
  pub token : Str
  pub label : Str
  pub active : Bool
  pub allowed_origins : Str
  pub created_at : Time
  pub disabled_at : Option Time

-- A row of events: three columns can be NULL.
pub record EventRow : Type 0 where
  pub id : Str
  pub project_id : ℤ
  pub device_id : Str
  pub user_id : Option ℤ
  pub name : Str
  pub timestamp : Str
  pub ip_address : Option Str
  pub country : Option Str
  pub city : Option Str
  pub created_at : Time

pub record Db : Type 0 where
  pub projects : List Project
  pub tokens : List TokenRow
  pub console_users : List ConsoleUser
  pub app_users : List AppUser
  pub devices : List Device
  pub events : List EventRow
  pub properties : List EventProperty
  pub faults : List Bool
  pub now : Time

-- One statement: it fails and changes nothing, or it runs.
attempt {ℓ} : {A : Type ℓ} → List Bool → (Db → Db × Result A) → Db → Db × Result A
attempt [] run db = run db
attempt (true ∷ rest) run db = (record db { faults = rest }, err failed)
attempt (false ∷ rest) run db = run (record db { faults = rest })

unfoldable pub statement {ℓ} : {A : Type ℓ} → (Db → Db × Result A) → Db → Db × Result A
unfolding attempt
statement run db = attempt db.faults run db

-- What every run of a statement's body guarantees, the statement guarantees.
pub statement_keeps {ℓ κ} :
    {A : Type ℓ} (P : Db → Db × Result A → Type κ) (run : Db → Db × Result A) (db : Db)
    → ((rest : List Bool) → P db (run (record db { faults = rest })))
    → ((rest : List Bool) → P db (record db { faults = rest }, err failed))
    → P db (statement run db)
unfolding statement
statement_keeps P run db ran broke = go db.faults refl
  where
    go : (fs : List Bool) → db.faults ≡ fs → P db (attempt fs run db)
    go [] e = rw (← e) at (ran [])
    go (true ∷ rest) e = broke rest
    go (false ∷ rest) e = ran rest

-- With no failure to come a statement runs.
pub statement_runs {ℓ} :
    {A : Type ℓ} (run : Db → Db × Result A) (db : Db) → db.faults ≡ [] → statement run db ≡ run db
unfolding statement attempt
statement_runs run db h = rw h refl

-- A statement that breaks a constraint is an error and changes nothing.
unfoldable pub refused_if {ℓ} : {A : Type ℓ} → Bool → Db → Db × Result A → Db × Result A
refused_if true db done = (db, err failed)
refused_if false db done = done

-- Some row passes the test: what a foreign key or a unique index looks for.
abbrev pub exists_row {ℓ} : {A : Type ℓ} → (A → Bool) → List A → Bool
exists_row p [] = false
exists_row p (x ∷ xs) = if p x then true else exists_row p xs

-- `SELECT … WHERE …` of which the first row is scanned.
abbrev pub first_row {ℓ} : {A : Type ℓ} → (A → Bool) → List A → Result A
first_row p [] = err no_rows
first_row p (x ∷ xs) = if p x then ok x else first_row p xs

abbrev pub max_id {ℓ} : {A : Type ℓ} → (A → ℤ) → List A → ℕ
max_id key [] = 0
max_id key (x ∷ xs) =
    let rest = max_id key xs in if leb rest (pos_part (key x)) then pos_part (key x) else rest

-- The id that SQLite gives a row of an INTEGER PRIMARY KEY table: one more than the largest.
abbrev pub fresh_id {ℓ} : {A : Type ℓ} → (A → ℤ) → List A → ℤ
fresh_id key xs = pos (suc (max_id key xs))

-- `ORDER BY created_at`: rows of one time stay in the order of insertion.
module _ {ℓ} {A : Type ℓ} (time : A → Time) where
  abbrev pub insert_by : A → List A → List A
  insert_by x [] = x ∷ []
  insert_by x (y ∷ ys) = if leb (time x) (time y) then x ∷ y ∷ ys else y ∷ insert_by x ys

  abbrev pub order_by : List A → List A
  order_by [] = []
  order_by (x ∷ xs) = insert_by x (order_by xs)

abbrev pub has_project : List Project → ℤ → Bool
has_project ps id = exists_row (λ p. p.id == id) ps

abbrev pub has_app_user : List AppUser → ℤ → Bool
has_app_user us id = exists_row (λ u. u.id == id) us

abbrev pub has_device : List Device → Str → Bool
has_device ds id = exists_row (λ d. d.id == id) ds

abbrev pub has_event : List EventRow → Str → Bool
has_event es id = exists_row (λ e. e.id == id) es

-- A nullable reference holds when it is NULL.
abbrev pub has_app_user? : List AppUser → Option ℤ → Bool
has_app_user? us none = true
has_app_user? us (some id) = has_app_user us id
