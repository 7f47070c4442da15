-- ===== src/Storage/Analytics/Range.antt =====
-- Where the range of a query of sqlite.go begins.
use oximetric.Base.{int_eq}
