-- ===== src/HttpApi/Serve.antt =====
-- How a request goes through `Routes` of services/api/internal/httpapi/api.go: the middlewares, the
-- route, the guard and the handler. echo itself (which route a request has, the limit of bodies) is a
-- parameter. The headers of `SecureWithConfig` and the files' contents are left out.
pub mod CrossOrigin
pub mod Refused
pub mod Sound
mod Unchanged
pub mod Examples
mod Tests
use homelink_monitor.Base.{ℕ, Bool, true, false, Option, none, some, Text, Result, Eff, ℤ}
use homelink_monitor.Domain.{Time, Settings, User}
use homelink_monitor.Store.Schema.{Db}
use homelink_monitor.Store.Settings.{Codec}
use homelink_monitor.Monitoring.Service.{Service}
use homelink_monitor.Monitoring.RouterTraffic.{RouterTools, ProbeTimes}
use homelink_monitor.Monitoring.Trigger.{Shared}
use homelink_monitor.Auth.{Bcrypt, user_for_request}
use homelink_monitor.HttpApi.Requests
use homelink_monitor.HttpApi.Requests.{Request, Parsers, Paths, Served, same_origin_middleware}
use homelink_monitor.HttpApi.Users.{
  UserRequest, Response, list_users, delete_user_handler, create_user_handler, update_user_handler,
  login_handler, logout_handler, auth_middleware,
}
use homelink_monitor.HttpApi.Reads
use homelink_monitor.HttpApi.Reads.{
  Answer, health_handler, speed_tests_handler, latency_handler, latency_summary_handler,
  dns_checks_handler, router_traffic_handler, outages_handler, latest_speed_test_handler,
  latest_dns_handler, active_outage_handler, summary_handler, settings_handler,
  save_settings_handler, probe_router_traffic_handler,
}
use homelink_monitor.HttpApi.Routes.{
  Endpoint, health, login, logout, me, summary, speed_tests, run_speed_test, latest_speed_test,
  latency, latency_summary, dns_checks, latest_dns, router_traffic, current_router_traffic,
  probe_router_traffic, outages, active_outage, settings, save_settings, users, create_user,
  update_user, delete_user, static, Route, routes, route_at,
}

-- An error that a handler returns to echo: an `echo.HTTPError`, with its message if that is a
-- string, or another error.
pub data Failure : Type 0 where
  http : ℕ → Option Text → Failure
  other : Text → Failure

-- Which handler echo finds: that of a place in the table of routes, or its own, which fails and
-- stands behind the guard of the group (`true`) or not.
pub data Found : Type 0 where
  at_route : ℕ → Found
  own : Bool → Failure → Found

pub record Echo : Type 0 where
  pub find : Request → Found
  pub status_text : ℕ → Text

-- What the handlers are given, with the libraries that they call. `cascade` tells whether SQLite
-- cascades.
pub record Server (F : Type 0) : Type 0 where
  pub codec : Codec F
  pub tools : RouterTools F
  pub bcrypt : Bcrypt
  pub digest : Text → Text
  pub parsers : Parsers
  pub paths : Paths
  pub echo : Echo
  pub cookie_secure : Bool
  pub static_dir : Text
  pub cascade : Bool

-- What echo reads of one request: the body as each handler binds it, the session cookie, the
-- parameter `id`, and the error of a body that is too long.
pub record Call (F : Type 0) : Type 0 where
  pub request : Request
  pub cookie : Option Text
  pub path_id : Result ℤ
  pub credentials : Result (Text × Text)
  pub user_body : Result UserRequest
  pub settings_body : Result (Settings F)
  pub body_limit : Option Failure

-- The readings of the clock (in the guard, in the handler, in a probe), the random token, and the
-- answer of `Ping`.
pub record Moment : Type 0 where
  pub guard_time : Time
  pub now : Time
  pub times : ProbeTimes
  pub token : Result Text
  pub ping : Option Text

pub data Reply (F : Type 0) : Type 0 where
  of_users : Response → Reply F
  of_reads : Answer F → Reply F
  of_static : Served → Reply F
  of_error : ℕ → Text → Reply F

abbrev pub replies : {A B S : Type 0} → (A → B) → A × S → B × S
replies wrap x = (wrap x.0, x.1)

-- The message of `HTTPErrorHandler`.
abbrev failure_text : Echo → ℕ → Option Text → Text
failure_text echo code (some text) = text
failure_text echo code none = echo.status_text code

module _ {F : Type 0} where
  abbrev pub with_db : Shared F → Db F → Shared F
  with_db s d = record s { service = record (s.service) { db = d } }

  -- Code that works on the database only.
  abbrev pub at_db : {A : Type 0} → (Db F → A × Db F) → Shared F → A × Shared F
  at_db run s = ((run s.service.db).0, with_db s (run s.service.db).1)

  abbrev pub at_service : {A : Type 0} → (Service F → A × Service F) → Shared F → A × Shared F
  at_service run s = ((run s.service).0, record s { service = (run s.service).1 })

  abbrev pub on_users : (Db F → Response × Db F) → Shared F → Reply F × Shared F
  on_users run s = replies of_users (at_db run s)

  abbrev pub on_reads : (Db F → Answer F × Db F) → Shared F → Reply F × Shared F
  on_reads run s = replies of_reads (at_db run s)

  -- `HTTPErrorHandler`, for an answer that has not begun.
  unfoldable pub error_handler : Echo → Failure → Reply F
  error_handler echo (http code message) = of_error code (failure_text echo code message)
  error_handler echo (other e) = of_error 500 e

module _ {F : Type 0} (server : Server F) (call : Call F) (moment : Moment) where
  -- What the handlers of the routes do, for the user that the guard has set.
  unfoldable pub handler : Endpoint → Option User → Shared F → Reply F × Shared F
  handler health user s = (of_reads (health_handler moment.ping), s)
  handler login user s =
      on_users
        (login_handler server.bcrypt server.digest server.cookie_secure call.credentials moment.now
          moment.token)
        s
  handler logout user s = on_users (logout_handler server.digest server.cookie_secure call.cookie) s
  handler me user s = (of_reads (Reads.me user), s)
  handler summary user s =
      on_reads (summary_handler server.tools.floats server.codec moment.now s) s
  handler speed_tests user s = on_reads (speed_tests_handler server.parsers call.request) s
  handler run_speed_test user s = replies of_reads (Reads.run_speed_test s)
  handler latest_speed_test user s = on_reads latest_speed_test_handler s
  handler latency user s = on_reads (latency_handler server.parsers call.request) s
  handler latency_summary user s =
      on_reads (latency_summary_handler server.parsers call.request server.tools.floats) s
  handler dns_checks user s = on_reads (dns_checks_handler server.parsers call.request) s
  handler latest_dns user s = on_reads latest_dns_handler s
  handler router_traffic user s =
      on_reads (router_traffic_handler server.parsers call.request server.tools.clients) s
  handler current_router_traffic user s =
      on_reads (Reads.current_router_traffic server.tools.floats server.codec server.tools.clients)
        s
  handler probe_router_traffic user s = replies of_reads (
      at_service
        (probe_router_traffic_handler server.tools.floats server.codec server.tools moment.times) s)
  handler outages user s = on_reads (outages_handler server.parsers call.request) s
  handler active_outage user s = on_reads active_outage_handler s
  handler settings user s = on_reads (settings_handler server.tools.floats server.codec) s
  handler save_settings user s =
      on_reads (save_settings_handler server.tools.floats server.codec call.settings_body) s
  handler users user s = on_users list_users s
  handler create_user user s =
      on_users (create_user_handler server.bcrypt call.user_body moment.now) s
  handler update_user user s =
      on_users (update_user_handler server.bcrypt call.path_id call.user_body moment.now) s
  handler delete_user user s = on_users (delete_user_handler server.cascade call.path_id user) s
  handler static user s =
      (of_static (Requests.static server.paths server.static_dir call.request.path), s)

  -- `UserForRequest`, for the guard.
  abbrev pub caller : Eff (Shared F) (Option User)
  caller = at_db (user_for_request server.digest call.cookie moment.guard_time)

  -- The guard of the group before a handler.
  abbrev pub behind_guard :
      Bool → (Option User → Shared F → Reply F × Shared F) → Shared F → Reply F × Shared F
  behind_guard true next = auth_middleware of_error caller (λ user. next (some user))
  behind_guard false next = next none

  -- echo answers a place that is not in the table as it answers a path with no route.
  abbrev pub run_route : Option Route → Shared F → Reply F × Shared F
  run_route none s = (error_handler server.echo (http 404 none), s)
  run_route (some r) s = behind_guard r.guarded (handler r.endpoint) s

  abbrev pub run_found : Found → Shared F → Reply F × Shared F
  run_found (at_route n) = run_route (route_at n routes)
  run_found (own guarded failure) =
      behind_guard guarded (λ user s. (error_handler server.echo failure, s))

  -- `BodyLimit`, `sameOriginMiddleware`, and the handler that echo finds.
  abbrev pub after_limit : Option Failure → Shared F → Reply F × Shared F
  after_limit (some failure) s = (error_handler server.echo failure, s)
  after_limit none s =
      same_origin_middleware server.parsers of_error call.request
        (run_found (server.echo.find call.request)) s

  unfoldable pub serve : Shared F → Reply F × Shared F
  serve s = after_limit call.body_limit s
