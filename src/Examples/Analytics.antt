-- ===== src/Examples/Analytics.antt =====
-- An engine that sorts by insertion, and the theorems on the analytics queries applied to one event.
use mathlib.Core.List.{Permᴰ}
use oximetric.Base.{
  ℕ, ◌≤◌, Str, lit, pos, List, [], ◌∷◌, true, All, All-imp, ◌≡◌, refl, inl, inr, arith, leb,
  Bool-cases, if◌then◌else◌, length, int_eq, str_eq,
}
use oximetric.Base.Group.Laws.{All-perm, total}
use oximetric.Model.{Moment}
use oximetric.Model.Analytics.{value_eq}
use oximetric.Storage.Store.{ok}
use oximetric.Storage.Schema.{Db}
use oximetric.Handler.Properties.{bare_property}
use oximetric.Storage.Analytics.{devices_between, scan, platform_count}
use oximetric.Storage.Analytics.Sorting.{Engine, Descends, IsEngine}
use oximetric.Storage.Analytics.Queries.{get_devices_analytics, sqlite_dialect}
use oximetric.Storage.Analytics.Counts.{
  IsPlatformCount, IsPlatformCount, get_devices_analytics-total,
}
use oximetric.Examples.Storage.{one_event}

perm_refl : {A : Type 0} (rows : List A) → Permᴰ rows rows
perm_refl [] = Permᴰ.nil
perm_refl (a ∷ rows) = Permᴰ.cons refl (perm_refl rows)

module _ {A : Type 0} (n : A → ℕ) where
  abbrev pub insert_descending : A → List A → List A
  insert_descending a [] = a ∷ []
  insert_descending a (b ∷ rows) =
      let rest = insert_descending a rows in if leb (n b) (n a) then a ∷ b ∷ rows else b ∷ rest

  abbrev pub descending : List A → List A
  descending [] = []
  descending (a ∷ rows) = insert_descending a (descending rows)

  insert_perm : (a : A) (rows : List A) → Permᴰ (insert_descending a rows) (a ∷ rows)
  insert_perm a [] = perm_refl _
  insert_perm a (b ∷ rows) = elim (Bool-cases (leb (n b) (n a))) [
    | inl e ↦ rw e (perm_refl _)
    | inr e ↦ rw e (Permᴰ.trans (Permᴰ.cons refl (insert_perm a rows)) (Permᴰ.swap refl refl))
  ]

  descending_perm : (rows : List A) → Permᴰ (descending rows) rows
  descending_perm [] = Permᴰ.nil
  descending_perm (a ∷ rows) =
      Permᴰ.trans (insert_perm a (descending rows)) (Permᴰ.cons refl (descending_perm rows))

  below : {a b : A} → leb (n b) (n a) ≡ true → n b ≤ n a
  below h = ground arith

  insert-Descends :
      (a : A) (rows : List A) → Descends n rows → Descends n (insert_descending a rows)
  insert-Descends a [] h = (tt, tt)
  insert-Descends a (b ∷ rows) (h, hs) = elim (Bool-cases (leb (n b) (n a))) [
    | inl e ↦ rw e (
      (below e, All-imp (λ c. n c ≤ n b) (λ c. n c ≤ n a) rows (λ c k. omega (arith, below e)) h),
      (h, hs),
    )
    | inr e ↦ rw e (
      All-perm (λ c. n c ≤ n b) (insert_perm a rows) (ground arith, h),
      insert-Descends a rows hs,
    )
  ]

  descending-Descends : (rows : List A) → Descends n (descending rows)
  descending-Descends [] = tt
  descending-Descends (a ∷ rows) = insert-Descends a (descending rows) (descending-Descends rows)

abbrev pub engine : Engine
engine = record {
  descending = λ w. descending;
  any_order = λ w rows. rows;
  time_string = λ t. t.instant ∷ t.zone;
  current_timestamp = λ t. t ∷ [];
  timestamptz = λ t. t;
  strftime = λ format t. lit "2024-05-01";
  date_trunc = λ field t. lit "2024-05-01";
}

engine-IsEngine : IsEngine engine
engine-IsEngine = record {
  descending_perm = λ w. descending_perm;
  descending_descends = λ w. descending-Descends;
  any_order_perm = λ w rows. perm_refl rows;
}

abbrev first : Moment
first = record { instant = 0; zone = lit " +0000 UTC" }

abbrev last : Moment
last = record { instant = 100; zone = lit " +0000 UTC" }

-- One event, with a property that is a number and one that is a text.
abbrev with_values : Db
with_values = record one_event {
  properties =
      bare_property (lit "e") (lit "k") (lit "int")
      ∷ bare_property (lit "e") (lit "k") (lit "string")
      ∷ [];
}

get_devices_analytics-total_example :
    (groups : List (Str × ℕ)) × (get_devices_analytics engine
        (sqlite_dialect engine)
        (pos 1)
        first
        last
        one_event
      ≡ (one_event, ok (record { platforms = scan platform_count groups })))
    × All (IsPlatformCount (sqlite_dialect engine) (pos 1) first last one_event) groups
    × Descends (λ g. g.1) groups
    × (total groups ≡ length (devices_between (sqlite_dialect engine) (pos 1) first last one_event))
get_devices_analytics-total_example =
    get_devices_analytics-total engine engine-IsEngine (sqlite_dialect engine) (pos 1) first last
      one_event refl

-- The event was created at 7.
abbrev seven : Moment
seven = record { instant = 7; zone = lit " +0000 UTC" }
