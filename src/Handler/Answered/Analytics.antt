-- ===== src/Handler/Answered/Analytics.antt =====
-- The analytics routes of internal/handler/analytics.go answer.
use oximetric.Base.{Str, Option}
use oximetric.Model.{Moment}
use oximetric.Storage.Analytics.{AnalyticsStore}
use oximetric.Http.Answers.{Answers, answer_rules}
use oximetric.Handler.Analytics.{
  Query, overview, events, event_properties, devices, geo, users, retention,
}

module _ {S : Type 0} (thirty_days_before : Moment → Moment) (parse_rfc3339 : Str → Option Moment)
    (analytics : AnalyticsStore S) (id : Str) (q : Query) where
  pub overview-Answers : Answers (overview thirty_days_before parse_rfc3339 analytics id q)
  unfolding overview
  overview-Answers = search answer_rules depth 30

  pub events-Answers : Answers (events thirty_days_before parse_rfc3339 analytics id q)
  unfolding events
  events-Answers = search answer_rules depth 30

  pub event_properties-Answers :
      (name : Str) → Answers (event_properties thirty_days_before parse_rfc3339 analytics id q name)
  unfolding event_properties
  event_properties-Answers name = search answer_rules depth 30

  pub devices-Answers : Answers (devices thirty_days_before parse_rfc3339 analytics id q)
  unfolding devices
  devices-Answers = search answer_rules depth 30

  pub geo-Answers : Answers (geo thirty_days_before parse_rfc3339 analytics id q)
  unfolding geo
  geo-Answers = search answer_rules depth 30

  pub users-Answers : Answers (users thirty_days_before parse_rfc3339 analytics id q)
  unfolding users
  users-Answers = search answer_rules depth 30

  pub retention-Answers : Answers (retention thirty_days_before parse_rfc3339 analytics id q)
  unfolding retention
  retention-Answers = search answer_rules depth 30
