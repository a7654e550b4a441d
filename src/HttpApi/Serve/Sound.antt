-- ===== src/HttpApi/Serve/Sound.antt =====
-- Every request keeps the invariant of Monitoring.Sound.
use homelink_monitor.Base.{
  ◌≡◌, false, refl, arith, sym, subst, Bool, true, false, Option, none, some, Result, ok, err,
  handle,
}
use homelink_monitor.Domain.{User}
use homelink_monitor.Monitoring.Sound.{IsSafe}
use homelink_monitor.Monitoring.Trigger.{Shared}
use homelink_monitor.HttpApi.Requests.{same_origin_middleware}
use homelink_monitor.HttpApi.Users.{for_user, auth_middleware}
use homelink_monitor.HttpApi.Users.Sound.{
  create_user_handler-IsSound, update_user_handler-IsSound, delete_user_handler-IsSound,
  login_handler-IsSound, logout_handler-IsSound,
}
use homelink_monitor.HttpApi.Reads.Sound.{
  run_speed_test-IsSafe, save_settings_handler-IsSound, probe_router_traffic_handler-IsHealthy,
}
use homelink_monitor.HttpApi.Routes
use homelink_monitor.HttpApi.Routes.{Endpoint, Route, routes, route_at}
use homelink_monitor.HttpApi.Serve.{
  Failure, Found, at_route, own, Server, Call, Moment, Reply, of_error, handler, caller,
  behind_guard, run_route, run_found, after_limit, serve,
}
use homelink_monitor.HttpApi.Serve.Unchanged.{IsUnchanged, is_command}
use homelink_monitor.HttpApi.Serve.CrossOrigin.{caller-IsUnchanged, handler-IsUnchanged}

module _ {F : Type 0} where
  IsSafe-unchanged : (s t : Shared F) → IsUnchanged s t → IsSafe s → IsSafe t
  IsSafe-unchanged s t e h = subst (λ (x : Shared F). IsSafe x) (sym e) h

module _ {F : Type 0} (server : Server F) (call : Call F) (moment : Moment) where
  query-IsSafe :
      (e : Endpoint) (user : Option User) (s : Shared F)
      → is_command e ≡ false
      → IsSafe s
      → IsSafe (handler server call moment e user s).1
  query-IsSafe e user s quiet h =
      IsSafe-unchanged s (handler server call moment e user s).1
        (handler-IsUnchanged server call moment e user s quiet) h

  handler-IsSafe :
      (e : Endpoint) (user : Option User) (s : Shared F)
      → IsSafe s
      → IsSafe (handler server call moment e user s).1
  unfolding handler
  handler-IsSafe Routes.login user s ((sound, valid), single) = (
    (
      login_handler-IsSound server.bcrypt server.digest server.cookie_secure call.credentials
          moment.now moment.token s.service.db sound,
      valid,
    ),
    single,
  )
  handler-IsSafe Routes.logout user s ((sound, valid), single) = (
    (
      logout_handler-IsSound server.digest server.cookie_secure call.cookie s.service.db sound,
      valid,
    ),
    single,
  )
  handler-IsSafe Routes.run_speed_test user s h = run_speed_test-IsSafe s h
  handler-IsSafe Routes.probe_router_traffic user s (healthy, single) = (
    probe_router_traffic_handler-IsHealthy server.tools.floats server.codec server.tools
        moment.times s.service healthy,
    single,
  )
  handler-IsSafe Routes.save_settings user s ((sound, valid), single) = (
    (
      save_settings_handler-IsSound server.tools.floats server.codec call.settings_body s.service.db
          sound,
      valid,
    ),
    single,
  )
  handler-IsSafe Routes.create_user user s ((sound, valid), single) = (
    (create_user_handler-IsSound server.bcrypt call.user_body moment.now s.service.db sound, valid),
    single,
  )
  handler-IsSafe Routes.update_user user s ((sound, valid), single) = (
    (
      update_user_handler-IsSound server.bcrypt call.path_id call.user_body moment.now s.service.db
          sound,
      valid,
    ),
    single,
  )
  handler-IsSafe Routes.delete_user user s ((sound, valid), single) = (
    (delete_user_handler-IsSound server.cascade call.path_id user s.service.db sound, valid),
    single,
  )
  handler-IsSafe Routes.health user s h = h
  handler-IsSafe Routes.static user s h = h
  handler-IsSafe Routes.me user s h = h
  handler-IsSafe Routes.summary user s h = query-IsSafe Routes.summary user s refl h
  handler-IsSafe Routes.speed_tests user s h = query-IsSafe Routes.speed_tests user s refl h
  handler-IsSafe Routes.latest_speed_test user s h =
      query-IsSafe Routes.latest_speed_test user s refl h
  handler-IsSafe Routes.latency user s h = query-IsSafe Routes.latency user s refl h
  handler-IsSafe Routes.latency_summary user s h = query-IsSafe Routes.latency_summary user s refl h
  handler-IsSafe Routes.dns_checks user s h = query-IsSafe Routes.dns_checks user s refl h
  handler-IsSafe Routes.latest_dns user s h = query-IsSafe Routes.latest_dns user s refl h
  handler-IsSafe Routes.router_traffic user s h = query-IsSafe Routes.router_traffic user s refl h
  handler-IsSafe Routes.current_router_traffic user s h =
      query-IsSafe Routes.current_router_traffic user s refl h
  handler-IsSafe Routes.outages user s h = query-IsSafe Routes.outages user s refl h
  handler-IsSafe Routes.active_outage user s h = query-IsSafe Routes.active_outage user s refl h
  handler-IsSafe Routes.settings user s h = query-IsSafe Routes.settings user s refl h
  handler-IsSafe Routes.users user s h = query-IsSafe Routes.users user s refl h

  behind_guard-IsSafe :
      (guarded : Bool) (next : Option User → Shared F → Reply F × Shared F) (s : Shared F)
      → IsSafe s
      → ((user : Option User) (t : Shared F) → IsSafe t → IsSafe (next user t).1)
      → IsSafe (behind_guard server call moment guarded next s).1
  unfolding auth_middleware
  behind_guard-IsSafe false next s h k = k none s h
  behind_guard-IsSafe true next s h k = let_in (caller server call moment s) (
      IsSafe-unchanged s (caller server call moment s).1 (caller-IsUnchanged server call moment s)
        h)
    where
      let_in :
          (x : Result (Option User) × Shared F)
          → IsSafe x.1
          → IsSafe
              (handle x
                (λ e t. (of_error 500 e, t))
                (for_user of_error (λ user. next (some user)))).1
      let_in (err e, t) h = h
      let_in (ok none, t) h = h
      let_in (ok (some user), t) h = k (some user) t h

  run_route-IsSafe :
      (found : Option Route) (s : Shared F)
      → IsSafe s
      → IsSafe (run_route server call moment found s).1
  run_route-IsSafe none s h = h
  run_route-IsSafe (some r) s h =
      behind_guard-IsSafe r.guarded _ s h (λ user t. handler-IsSafe r.endpoint user t)

  run_found-IsSafe :
      (found : Found) (s : Shared F) → IsSafe s → IsSafe (run_found server call moment found s).1
  run_found-IsSafe (at_route n) s h = run_route-IsSafe (route_at n routes) s h
  run_found-IsSafe (own guarded failure) s h = behind_guard-IsSafe guarded _ s h (λ user t h'. h')

  after_limit-IsSafe :
      (limit : Option Failure) (s : Shared F)
      → IsSafe s
      → IsSafe (after_limit server call moment limit s).1
  unfolding same_origin_middleware
  after_limit-IsSafe (some failure) s h = h
  after_limit-IsSafe none s h = ground (arith, run_found-IsSafe (server.echo.find call.request) s h)

  -- A request keeps the invariant of the state, whatever it asks for and whatever fails.
  pub serve-IsSafe : (s : Shared F) → IsSafe s → IsSafe (serve server call moment s).1
  unfolding serve
  serve-IsSafe s h = after_limit-IsSafe call.body_limit s h
