-- ===== src/Handler/Analytics/Params.antt =====
-- What `parseAnalyticsParams` lets through.
use oximetric.Base.{
  ◌≤◌, ℤ, pos, negsuc, Str, Option, none, some, inl, inr, arith, atoi, is_empty, Bool-cases,
}
use oximetric.Model.{Moment}
use oximetric.Handler.Analytics.{Query, limit_or, parse_analytics_params}

limit_or_bounds : (o : Option ℤ) → (1 ≤ limit_or 50 o) × (limit_or 50 o ≤ 1000)
limit_or_bounds none = (omega arith, omega arith)
limit_or_bounds (some (negsuc n)) = (omega arith, omega arith)
limit_or_bounds (some (pos n)) = (ground arith, ground arith)

module _ (thirty_days_before : Moment → Moment) (parse_rfc3339 : Str → Option Moment)
    (q : Query) where
  -- Whatever the query says, a page has room for one to a thousand rows.
  pub parse_analytics_params-limit :
      (1 ≤ (parse_analytics_params thirty_days_before parse_rfc3339 q).limit)
      × ((parse_analytics_params thirty_days_before parse_rfc3339 q).limit ≤ 1000)
  unfolding parse_analytics_params
  parse_analytics_params-limit = elim (Bool-cases (is_empty q.limit)) [
    | inl e ↦ rw e (omega arith, omega arith)
    | inr e ↦ rw e (limit_or_bounds (atoi q.limit))
  ]
