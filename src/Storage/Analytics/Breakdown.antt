-- ===== src/Storage/Analytics/Breakdown.antt =====
-- Which rows the breakdown of a property counts.
use oximetric.Base.{str_eq}
use oximetric.Model.Analytics.{value_eq}
