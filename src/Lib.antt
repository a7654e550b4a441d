-- ===== src/Lib.antt =====
-- Verification of the homelink-monitor server (services/api): a Go program that probes an internet
-- connection, records the results in SQLite, detects outages, and serves them over HTTP.
--
-- Parts and files.
-- - Base: Go strings as lists of bytes, `strings.TrimSpace`, `int` as a signed integer, errors as
--   values, list loops. float64 is a type of values with the operations of `Floats`.
-- - Domain: the types of services/api/internal/domain/domain.go.
-- - Store: services/api/internal/store over the tables of services/api/internal/db/db.go. A table
--   is a list of rows, a statement a function on the database. SQLite is not part of the program:
--   each statement takes the next entry of a list of faults, and runs whole or fails.
-- - Migrations: `Open` and `Migrate` of services/api/internal/db/db.go. Config: services/api/internal/config.
-- - Events: services/api/internal/events/outbox.go, over a directory of files whose calls may fail.
-- - Monitoring: services/api/internal/monitoring: the decisions, the checks of latency and DNS, the
--   outage detector, the check of the router, the summary, the loops, the state of the service, and
--   (Trigger) the speed tests that run beside them.
-- - Runner: services/api/internal/speedtest/speedtest.go.
-- - Auth: services/api/internal/auth/auth.go: sessions, passwords and their checks.
-- - HttpApi: services/api/internal/httpapi/api.go: Settings normalises settings that a client sends,
--   Users has the handlers of users, login, logout and the guard of the other routes, Requests the
--   parameters, the guard of origins and the static files, Reads the other handlers, Routes the
--   table of routes, and Serve the way of a request through the middlewares to its handler.
-- - Main: services/api/cmd/server/main.go: the start, and the steps that the program makes from then
--   on: requests, rounds of the loops, and moves of speed tests, in any order.
-- - Router: services/api/internal/router/tplink.go: Json and Clients read the answers, Crypto and
--   Padding encrypt, Session, Grant, SgLogin, Login and Requests talk to the router, Provider keeps
--   the session, and Probe makes the snapshot. What it calls in Go's libraries is the record of Library.
--
-- How they interact. A latency check stores each result in Store, announces each failure through
-- Events, and hands the round to the outage detector. A check of the router stores the snapshot of
-- Router in Store, and announces a failure through Events. A handler of HttpApi calls Store and Auth one
-- statement after the other, and may stop at each of them. Speed tests run in goroutines: their calls
-- are steps that mix with those of others in any order.
--
-- State and effects. A function that changes state takes it and returns it. The clock, the network,
-- JSON and the failures of disk and database are arguments. The log is left out.
--
-- Loops are recursions on lists. The only fuel is that of `strip` (Base/Space.antt), `fields_from`
-- (Runner.antt) and `chunks_from` (Router/Crypto.antt), the length of the text, from which each round
-- takes a byte at least. Pointers to sessions of the router are places in the list of sessions. Go
-- visits the keys of a map in any order: an object of JSON has its fields in the order of the visit.
--
-- Times are those of the years 1 to 9999, as numbers of nanoseconds. In them the text of a time has a
-- fixed width up to the seconds, and Stamp keeps the number of seconds in its place. So the calendar of
-- package time is not modelled, nor is what Go and SQLite do with other years.
--
-- Not modelled: the security headers, the contents of static files, the listener, signals and the
-- shutdown. Of a request only what echo reads is there: the route that it finds, the bound body, the
-- parameters, the headers, the cookie. In Main a request and a round of a loop are one step each; what
-- goes wrong when the statements of two requests mix is in HttpApi/Users/Race.antt.
pub mod Base
pub mod Config
pub mod Domain
pub mod Store
pub mod Runner
pub mod Events
pub mod Migrations
pub mod Monitoring
pub mod Auth
pub mod HttpApi
pub mod Main
pub mod Router
