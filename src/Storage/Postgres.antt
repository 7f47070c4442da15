-- ===== src/Storage/Postgres.antt =====
-- internal/storage/postgres.go. Its statements are those of sqlite.go but for what is written out
-- here: the ids come from sequences (SERIAL), which go on when a row is refused, deleted or rolled
-- back; rows that nothing orders come in an order of the database's own; and the column of an
-- event's time takes only texts that are timestamps. Left out are the refusals of arguments outside
-- the range of a column: numbers over 32 bits, and texts that are not UTF-8 or have a zero byte.
pub mod Users
pub mod Projects
pub mod Tokens
pub mod Devices
pub mod Events
pub mod Analytics
pub mod Whole
pub mod Ids
use oximetric.Base.{ℕ, suc, ℤ, pos, Bool, true, false, List, [], ◌∷◌}
use oximetric.Storage.Store.{Result, ok, err, failed}
use oximetric.Storage.Schema.{Db}

-- The last values of the sequences.
pub record Sequences : Type 0 where
  pub console_users : ℕ
  pub projects : ℕ
  pub project_tokens : ℕ
  pub app_users : ℕ
  pub event_properties : ℕ

pub record PgDb : Type 0 where
  pub tables : Db
  pub sequences : Sequences

module _ {ℓ} {A : Type ℓ} where
  abbrev put_back : Sequences → Db × A → PgDb × A
  put_back sequences (db, a) = (record { tables = db; sequences = sequences }, a)

  -- A call that draws no id.
  abbrev pub on_tables : (Db → Db × A) → PgDb → PgDb × A
  on_tables run s = put_back s.sequences (run s.tables)

abbrev with_faults : List Bool → PgDb → PgDb
with_faults rest s = record s { tables = record s.tables { faults = rest } }

-- A column with its sequence: the last value, and the sequences with another.
pub record Serial : Type 0 where
  pub last : Sequences → ℕ
  pub set : ℕ → Sequences → Sequences

module _ {ℓ} {A : Type ℓ} (column : Serial) (run : ℤ → Db → Db × Result A) where
  -- The next value is drawn before the constraints of the row are looked at.
  unfoldable pub draw : PgDb → PgDb × Result A
  draw s =
      let next = suc (column.last s.sequences) in
      put_back (column.set next s.sequences) (run (pos next) s.tables)

  pub serial_at : List Bool → PgDb → PgDb × Result A
  serial_at [] s = draw s
  serial_at (true ∷ rest) s = (with_faults rest s, err failed)
  serial_at (false ∷ rest) s = draw (with_faults rest s)

  -- An INSERT into a table with a SERIAL id: it fails and changes nothing, or it runs.
  unfoldable pub serial : PgDb → PgDb × Result A
  unfolding serial_at draw
  serial s = serial_at s.tables.faults s

abbrev pub user_ids : Serial
user_ids = record { last = λ q. q.console_users; set = λ n q. record q { console_users = n } }

abbrev pub project_ids : Serial
project_ids = record { last = λ q. q.projects; set = λ n q. record q { projects = n } }

abbrev pub token_ids : Serial
token_ids = record { last = λ q. q.project_tokens; set = λ n q. record q { project_tokens = n } }

abbrev pub app_user_ids : Serial
app_user_ids = record { last = λ q. q.app_users; set = λ n q. record q { app_users = n } }

abbrev pub property_ids : Serial
property_ids = record {
  last = λ q. q.event_properties;
  set = λ n q. record q { event_properties = n };
}
