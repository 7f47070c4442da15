-- ===== src/Lib.antt =====
-- A model of oximetric, a server that collects analytics events from apps and sites into SQLite or
-- PostgreSQL, with a console for its users.
--
-- Requests pass the guards of internal/middleware, reach a handler of internal/handler, and the
-- handlers call the store of internal/storage. The files follow that division:
--   Base        texts as lists of bytes, the integers, lists, and the functions of Go's strings and
--               strconv that the program uses (TrimSpace, Split, Atoi, ...)
--   Model       internal/model/model.go: the rows, the bodies of requests and of answers
--   Storage     internal/storage: Store is the interface of storage.go as a record of functions on
--               a state; Schema is the tables of migrations/sqlite/001_initial.sql; Sqlite has one
--               function for each method of sqlite.go but the analytics queries, and Whole puts
--               them together as a Store; Postgres is postgres.go by its differences, over the
--               same tables with sequences; Analytics has those queries, with the periods of
--               sqlite.go and postgres.go, as an interface of its own;
--               Origins is encodeOrigins and decodeOrigins; Open is NewSQLite and NewPostgres; Sound
--               is about the foreign keys, and Keyed about the primary keys and unique indices
--   Http        responses and the shape of a handler: it goes on, writes a response, or panics on
--               a nil pointer
--   Auth        internal/auth/auth.go over a record of what the libraries compute
--   Middleware  internal/middleware/middleware.go: Guards (TokenAuth, CORS, JWTAuth, RequireRole),
--               Origin (matchOrigin), RateLimit, Logging
--   Handler     internal/handler: Properties and Tracking, Client, Login, Account, Users, Projects, Tokens, Origins,
--               Analytics, Health, Console
--   Server      internal/server/server.go: Routes is the patterns and what a request brings, Server
--               composes the handlers with their guards over one state; Pages is the patterns of
--               the console's pages; Access, Replies, Identity and Console are about whole requests
--   Config      internal/config/config.go
--   Geoip       internal/geoip: Resolver is Lookup over the reader of the database, Updater is the
--               download over a disk with one database
--   Startup     cmd/oximetric/main.go: bootstrapAdmin and runRetentionCleanup; Loops is the two
--               background loops over what their select statements receive, Main the start
--   Examples    runs at concrete inputs
--
-- A handler is a function from the state of the store to the new state and its outcome, and takes
-- what the request carries as arguments: a body that does not decode is none, a missing header is
-- the empty text. A statement of SQL runs whole or fails and changes nothing; which of the coming
-- statements the driver fails is a list in the database, so that every method is proved about with
-- failures anywhere. Requests are taken one after
-- another: the statements of two requests do not interleave, though the server lets them.
--
-- Times are natural numbers of nanoseconds, with a location where the program prints one, and every reading of the clock is an argument. Counts
-- and ids do not overflow in the model. A float64 is its bits: the one product that the limiter
-- computes in floating point is a parameter, and a theorem that needs a bound on it says so. There
-- is no fuel: all loops run over a list. Random numbers are arguments. bcrypt, JWT, TOTP, url.Parse,
-- html/template, the embedded files and the reader of the GeoIP database are parameters. What SQL leaves to the database is one too, the record Engine
-- of Storage/Analytics/Sorting: the order of rows that nothing orders, which may differ with the
-- LIMIT and the OFFSET of a query, the texts of times on SQLite, and what TIMESTAMPTZ keeps of a
-- time; IsEngine is what the theorems ask of it, and Dialect says where the two databases differ.
-- The pattern that net/http matched is part of a request.
--
-- The clean-up of old events compares instants, where SQLite compares the texts of the two times.
--
-- Not modelled: signals and the shutdown of the listener, what a migration makes of a database,
-- the duration in a line of the log, and the limit on the size of a body. Not stated: the time that
-- a failed login takes.
pub mod Base
pub mod Model
pub mod Storage
pub mod Http
pub mod Auth
pub mod Middleware
pub mod Handler
pub mod Startup
pub mod Geoip
pub mod Config
pub mod Server
pub mod Examples
