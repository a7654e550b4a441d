-- ===== src/HttpApi/Serve/CrossOrigin.antt =====
-- What a request from a page of another site can change.
use homelink_monitor.Base.{
  ℕ, ◌≡◌, refl, ◌∙◌, Bool, true, false, Option, none, some, Bool-cases, inl, inr, is_empty, ap,
  Text, arith, Result, ok, err, handle,
}
use homelink_monitor.Domain.{Time, User}
use homelink_monitor.Store.Schema.Keeps.{tables, Keeps, handled-Keeps}
use homelink_monitor.Store.Quiet.{users-Keeps, user_by_session-Keeps}
use homelink_monitor.Store.Users.{users}
use homelink_monitor.Auth.{user_for_request}
use homelink_monitor.Monitoring.Trigger.{Shared}
use homelink_monitor.HttpApi.Requests.{Request, is_safe_method, same_origin, same_origin_middleware}
use homelink_monitor.HttpApi.Users.{list_users, for_user, auth_middleware}
use homelink_monitor.HttpApi.Reads.Quiet.{
  speed_tests_handler-Keeps, latency_handler-Keeps, latency_summary_handler-Keeps,
  dns_checks_handler-Keeps, router_traffic_handler-Keeps, outages_handler-Keeps,
  latest_speed_test_handler-Keeps, latest_dns_handler-Keeps, active_outage_handler-Keeps,
  summary_handler-Keeps, settings_handler-Keeps, current_router_traffic-Keeps,
}
use homelink_monitor.HttpApi.Routes
use homelink_monitor.HttpApi.Routes.{Endpoint, Route, routes, route_at}
use homelink_monitor.HttpApi.Serve.{
  Failure, Found, at_route, own, Echo, Server, Call, Moment, Reply, of_error, with_db, handler,
  caller, behind_guard, run_route, run_found, after_limit, serve,
}
use homelink_monitor.HttpApi.Serve.Unchanged.{IsUnchanged, is_command, route_at-is_sound}

pub user_for_request-Keeps :
    {F : Type 0} (digest : Text → Text) (cookie : Option Text) (now : Time)
    → Keeps {F = F} tables (user_for_request digest cookie now)
unfolding user_for_request
user_for_request-Keeps digest none now d = refl
user_for_request-Keeps digest (some value) now d = elim (Bool-cases (is_empty value)) [
  | inl empty ↦ rw (user_for_request, empty) refl
  | inr given ↦ rw (user_for_request, given) (user_by_session-Keeps digest value now d)
]

-- The method of a route that echo finds is that of the request.
abbrev pub MatchesMethods : Echo → Type 0
MatchesMethods echo =
    (r : Request) (n : ℕ) (found : Route)
    → echo.find r ≡ at_route n
    → route_at n routes ≡ some found
    → found.method ≡ r.method

module _ {F : Type 0} where
  list_users-Keeps : Keeps {F = F} tables list_users
  unfolding list_users
  list_users-Keeps d =
      handled-Keeps tables d (users d) _ _ (users-Keeps d) (λ e d'. refl) (λ a d'. refl)

  pub auth_middleware-IsUnchanged :
      (s : Shared F) (x : Result (Option User) × Shared F)
      (next : User → Shared F → Reply F × Shared F)
      → IsUnchanged s x.1
      → ((user : User) (t : Shared F) → IsUnchanged t (next user t).1)
      → IsUnchanged s (handle x (λ e t. (of_error 500 e, t)) (for_user of_error next)).1
  auth_middleware-IsUnchanged s (err e, t) next h k = h
  auth_middleware-IsUnchanged s (ok none, t) next h k = h
  auth_middleware-IsUnchanged s (ok (some user), t) next h k = k user t ∙ h

module _ {F : Type 0} (server : Server F) (call : Call F) (moment : Moment) where
  -- A handler that is no command changes nothing.
  pub handler-IsUnchanged :
      (e : Endpoint) (user : Option User) (s : Shared F)
      → is_command e ≡ false
      → IsUnchanged s (handler server call moment e user s).1
  unfolding handler
  handler-IsUnchanged Routes.health user s h = refl
  handler-IsUnchanged Routes.login user s h = absurd (ground arith)
  handler-IsUnchanged Routes.logout user s h = absurd (ground arith)
  handler-IsUnchanged Routes.me user s h = refl
  handler-IsUnchanged Routes.summary user s h =
      ap (with_db s)
        (summary_handler-Keeps server.tools.floats server.codec moment.now s s.service.db)
  handler-IsUnchanged Routes.speed_tests user s h =
      ap (with_db s) (speed_tests_handler-Keeps server.parsers call.request s.service.db)
  handler-IsUnchanged Routes.run_speed_test user s h = absurd (ground arith)
  handler-IsUnchanged Routes.latest_speed_test user s h =
      ap (with_db s) (latest_speed_test_handler-Keeps s.service.db)
  handler-IsUnchanged Routes.latency user s h =
      ap (with_db s) (latency_handler-Keeps server.parsers call.request s.service.db)
  handler-IsUnchanged Routes.latency_summary user s h =
      ap (with_db s)
        (latency_summary_handler-Keeps server.parsers call.request server.tools.floats s.service.db)
  handler-IsUnchanged Routes.dns_checks user s h =
      ap (with_db s) (dns_checks_handler-Keeps server.parsers call.request s.service.db)
  handler-IsUnchanged Routes.latest_dns user s h =
      ap (with_db s) (latest_dns_handler-Keeps s.service.db)
  handler-IsUnchanged Routes.router_traffic user s h =
      ap (with_db s)
        (router_traffic_handler-Keeps server.parsers call.request server.tools.clients s.service.db)
  handler-IsUnchanged Routes.current_router_traffic user s h = ap (with_db s) (
      current_router_traffic-Keeps server.tools.floats server.codec server.tools.clients
        s.service.db)
  handler-IsUnchanged Routes.probe_router_traffic user s h = absurd (ground arith)
  handler-IsUnchanged Routes.outages user s h =
      ap (with_db s) (outages_handler-Keeps server.parsers call.request s.service.db)
  handler-IsUnchanged Routes.active_outage user s h =
      ap (with_db s) (active_outage_handler-Keeps s.service.db)
  handler-IsUnchanged Routes.settings user s h =
      ap (with_db s) (settings_handler-Keeps server.tools.floats server.codec s.service.db)
  handler-IsUnchanged Routes.save_settings user s h = absurd (ground arith)
  handler-IsUnchanged Routes.users user s h = ap (with_db s) (list_users-Keeps s.service.db)
  handler-IsUnchanged Routes.create_user user s h = absurd (ground arith)
  handler-IsUnchanged Routes.update_user user s h = absurd (ground arith)
  handler-IsUnchanged Routes.delete_user user s h = absurd (ground arith)
  handler-IsUnchanged Routes.static user s h = refl

  pub caller-IsUnchanged : (s : Shared F) → IsUnchanged s (caller server call moment s).1
  caller-IsUnchanged s =
      ap (with_db s)
        (user_for_request-Keeps server.digest call.cookie moment.guard_time s.service.db)

  behind_guard-IsUnchanged :
      (guarded : Bool) (next : Option User → Shared F → Reply F × Shared F) (s : Shared F)
      → ((user : Option User) (t : Shared F) → IsUnchanged t (next user t).1)
      → IsUnchanged s (behind_guard server call moment guarded next s).1
  unfolding auth_middleware
  behind_guard-IsUnchanged true next s k =
      auth_middleware-IsUnchanged s (caller server call moment s) (λ user. next (some user))
        (caller-IsUnchanged s) (λ user. k (some user))
  behind_guard-IsUnchanged false next s k = k none s

  run_route-IsUnchanged :
      (n : ℕ) (found : Option Route) (s : Shared F)
      → route_at n routes ≡ found
      → ((r : Route) → found ≡ some r → is_safe_method r.method ≡ true)
      → IsUnchanged s (run_route server call moment found s).1
  run_route-IsUnchanged n none s e safe = refl
  run_route-IsUnchanged n (some r) s e safe = behind_guard-IsUnchanged r.guarded _ s (λ user t.
      handler-IsUnchanged r.endpoint user t (ground (arith, route_at-is_sound n r e, safe r refl)))

  run_found-IsUnchanged :
      (found : Found) (s : Shared F)
      → server.echo.find call.request ≡ found
      → MatchesMethods server.echo
      → is_safe_method call.request.method ≡ true
      → IsUnchanged s (run_found server call moment found s).1
  run_found-IsUnchanged (at_route n) s e same safe =
      run_route-IsUnchanged n (route_at n routes) s refl
        (λ r at. rw (same call.request n r e at) safe)
  run_found-IsUnchanged (own guarded failure) s e same safe =
      behind_guard-IsUnchanged guarded _ s (λ user t. refl)

module _ {F : Type 0} (server : Server F) (call : Call F) (moment : Moment) where
  routed-IsUnchanged :
      (s : Shared F)
      → MatchesMethods server.echo
      → is_empty call.request.origin ≡ false
      → same_origin server.parsers call.request.origin call.request.host ≡ false
      → IsUnchanged s
          (same_origin_middleware server.parsers of_error call.request
            (run_found server call moment (server.echo.find call.request))
            s).1
  unfolding same_origin_middleware
  routed-IsUnchanged s same given foreign = elim (Bool-cases (is_safe_method call.request.method)) [
    | inl safe ↦
        rw (same_origin_middleware, safe)
          (run_found-IsUnchanged server call moment (server.echo.find call.request) s refl same
            safe)
    | inr unsafe ↦ rw (same_origin_middleware, unsafe, given, foreign) refl
  ]

  limited-IsUnchanged :
      (limit : Option Failure) (s : Shared F)
      → MatchesMethods server.echo
      → is_empty call.request.origin ≡ false
      → same_origin server.parsers call.request.origin call.request.host ≡ false
      → IsUnchanged s (after_limit server call moment limit s).1
  limited-IsUnchanged (some failure) s same given foreign = refl
  limited-IsUnchanged none s same given foreign = routed-IsUnchanged s same given foreign

-- A request with an `Origin` that is not this site changes nothing but, possibly, what its
-- statements take: with a method that changes something it is refused, and no route of a method that
-- is let through changes anything.
pub serve-IsUnchanged :
    {F : Type 0} (server : Server F) (call : Call F) (moment : Moment) (s : Shared F)
    → MatchesMethods server.echo
    → is_empty call.request.origin ≡ false
    → same_origin server.parsers call.request.origin call.request.host ≡ false
    → IsUnchanged s (serve server call moment s).1
unfolding serve
serve-IsUnchanged server call moment s same given foreign =
    limited-IsUnchanged server call moment call.body_limit s same given foreign
