-- ===== src/Storage/Analytics/Sorting.antt =====
-- What a database does that SQL leaves open, and what it documents of it.
use mathlib.Core.List.{Permᴰ}
use oximetric.Base.{ℕ, ◌≤◌, Bool, Str, List, [], ◌∷◌, All}
use oximetric.Model.{Time, Moment}

-- The LIMIT and the OFFSET of a query, if it has them: what is left open may differ with them.
pub data Window : Type 0 where
  whole : Window
  window : ℕ → ℕ → Window

pub record Engine : Type 1 where
  -- `ORDER BY n DESC`
  pub descending : {A : Type 0} → Window → (A → ℕ) → List A → List A
  -- the order in which rows come that nothing orders
  pub any_order : {A : Type 0} → Window → List A → List A
  -- what the driver of SQLite writes for a time.Time: its String()
  pub time_string : Moment → Str
  -- what SQLite writes for CURRENT_TIMESTAMP
  pub current_timestamp : Time → Str
  -- what TIMESTAMPTZ keeps of a time.Time: the instant in its precision, in the zone of the session
  pub timestamptz : Moment → Moment
  pub strftime : Str → Time → Str
  -- `date_trunc(field, t)::text`
  pub date_trunc : Str → Time → Str

module _ {A : Type 0} (n : A → ℕ) where
  -- No row stands behind one with a smaller number.
  abbrev pub Descends : List A → Type 0
  Descends [] = Unit {0}
  Descends (a ∷ rows) = All (λ b. n b ≤ n a) rows × Descends rows

-- The rows are the ones that were there, and they are ordered as asked.
pub record IsEngine (engine : Engine) : Type 1 where
  pub descending_perm :
      {A : Type 0} (w : Window) (n : A → ℕ) (rows : List A)
      → Permᴰ (engine.descending w n rows) rows
  pub descending_descends :
      {A : Type 0} (w : Window) (n : A → ℕ) (rows : List A)
      → Descends n (engine.descending w n rows)
  pub any_order_perm :
      {A : Type 0} (w : Window) (rows : List A) → Permᴰ (engine.any_order w rows) rows

-- Where the two databases differ.
pub record Dialect : Type 0 where
  -- the text of a period
  pub period_of : Str → Time → Str
  -- `created_at BETWEEN ? AND ?`
  pub in_range : Moment → Moment → Time → Bool
  -- what the column value_datetime holds of a time
  pub stored : Moment → Moment
