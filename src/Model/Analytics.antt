-- ===== src/Model/Analytics.antt =====
-- The answers of the analytics routes, from internal/model/model.go.
use oximetric.Base.{
  ℕ, ℤ, pos, negsuc, Str, Bool, true, false, List, [], ◌∷◌, Eq, ◌==◌, str_eq, eq_iff, ◌≡◌, refl,
  ◌↔◌, sym, ap, ◌∙◌, nat_beq, drop, if◌then◌else◌,
}
use oximetric.Model.{Moment, Float64}

pub record EventCount : Type 0 where
  pub name : Str
  pub count : ℕ

pub record CountryCount : Type 0 where
  pub country : Str
  pub count : ℕ

pub record AnalyticsOverview : Type 0 where
  pub active_devices : ℕ
  pub total_events : ℕ
  pub top_events : List EventCount
  pub top_countries : List CountryCount

pub record TimeSeriesPoint : Type 0 where
  pub timestamp : Str
  pub count : ℕ

pub record EventsAnalytics : Type 0 where
  pub events : List EventCount
  pub time_series : List TimeSeriesPoint

-- What an `interface{}` holds after a column was scanned into it.
pub data ColumnValue : Type 0 where
  null : ColumnValue
  text : Str → ColumnValue
  integer : ℤ → ColumnValue
  real : Float64 → ColumnValue
  boolean : Bool → ColumnValue
  datetime : Moment → ColumnValue

pub record PropertyValue : Type 0 where
  pub value : ColumnValue
  pub count : ℕ

pub record PropertyBreakdown : Type 0 where
  pub key : Str
  pub type : Str
  pub values : List PropertyValue

pub record PropertyAnalytics : Type 0 where
  pub properties : List PropertyBreakdown

pub record PlatformCount : Type 0 where
  pub platform : Str
  pub count : ℕ

pub record DevicesAnalytics : Type 0 where
  pub platforms : List PlatformCount

pub record CityCount : Type 0 where
  pub city : Str
  pub country : Str
  pub count : ℕ

pub record GeoAnalytics : Type 0 where
  pub countries : List CountryCount
  pub cities : List CityCount

pub record UsersAnalytics : Type 0 where
  pub time_series : List TimeSeriesPoint
  pub total : ℕ

pub record RetentionCohort : Type 0 where
  pub period : Str
  pub users : ℕ
  pub retention : List Float64

pub record RetentionAnalytics : Type 0 where
  pub cohorts : List RetentionCohort

-- A value as a list of numbers, for its comparison.
abbrev code : ColumnValue → Str
code ColumnValue.null = []
code (ColumnValue.text s) = 0 ∷ s
code (ColumnValue.integer (pos n)) = 1 ∷ n ∷ []
code (ColumnValue.integer (negsuc n)) = 2 ∷ n ∷ []
code (ColumnValue.real f) = 3 ∷ f ∷ []
code (ColumnValue.boolean false) = 4 ∷ 0 ∷ []
code (ColumnValue.boolean true) = 4 ∷ 1 ∷ []
code (ColumnValue.datetime t) = 5 ∷ t.instant ∷ t.zone

abbrev head_or_zero : Str → ℕ
head_or_zero [] = 0
head_or_zero (n ∷ s) = n

abbrev decode : Str → ColumnValue
decode [] = ColumnValue.null
decode (tag ∷ s) =
    if nat_beq tag 0
    then ColumnValue.text s
    else if nat_beq tag 1
    then ColumnValue.integer (pos (head_or_zero s))
    else if nat_beq tag 2
    then ColumnValue.integer (negsuc (head_or_zero s))
    else if nat_beq tag 3
    then ColumnValue.real (head_or_zero s)
    else if nat_beq tag 4
    then ColumnValue.boolean (nat_beq (head_or_zero s) 1)
    else ColumnValue.datetime (record { instant = head_or_zero s; zone = drop 1 s })

decode-code : (v : ColumnValue) → decode (code v) ≡ v
decode-code ColumnValue.null = refl
decode-code (ColumnValue.text s) = refl
decode-code (ColumnValue.integer (pos n)) = refl
decode-code (ColumnValue.integer (negsuc n)) = refl
decode-code (ColumnValue.real f) = refl
decode-code (ColumnValue.boolean false) = refl
decode-code (ColumnValue.boolean true) = refl
decode-code (ColumnValue.datetime t) = refl

unfoldable pub value_beq : ColumnValue → ColumnValue → Bool
value_beq a b = code a == code b

pub value_beq_iff : (a b : ColumnValue) → (value_beq a b ≡ true) ↔ (a ≡ b)
unfolding value_beq
value_beq_iff a b = (
  λ h. sym (decode-code a) ∙ (ap decode ((eq_iff (code a) (code b)).0 h) ∙ decode-code b),
  λ e. (eq_iff (code a) (code b)).1 (ap code e),
)

instance abbrev pub value_eq : Eq ColumnValue
value_eq = record { equals = value_beq; equals_iff = value_beq_iff }
