-- ===== src/HttpApi/Serve/Refused.antt =====
-- What a request without a live session gets of what is not public.
use homelink_monitor.Base.{
  ℕ, ◌≡◌, refl, ◌⊎◌, inl, inr, Bool, true, false, not, Option, none, some, Bool-cases, Text, arith,
  Result, ok, err, Ends, handle, is_empty,
}
use homelink_monitor.Domain.{Time, User}
use homelink_monitor.Store.Schema.{Db}
use homelink_monitor.Store.Users.{session_user}
use homelink_monitor.Auth.{user_for_request}
use homelink_monitor.Monitoring.Trigger.{Shared}
use homelink_monitor.HttpApi.Users.Logout.{user_by_session-Ends}
use homelink_monitor.HttpApi.Users.{for_user, auth_middleware}
use homelink_monitor.HttpApi.Requests.{same_origin_middleware}
use homelink_monitor.HttpApi.Routes.{Route, routes, route_at}
use homelink_monitor.HttpApi.Serve.{
  Failure, Found, at_route, own, Echo, Server, Call, Moment, Reply, of_users, of_reads, of_static,
  of_error, with_db, handler, error_handler, behind_guard, run_route, run_found, after_limit, serve,
}
use homelink_monitor.HttpApi.Serve.Unchanged.{IsUnchanged, is_public, route_at-is_sound}
use homelink_monitor.HttpApi.Serve.CrossOrigin.{caller-IsUnchanged}

-- No live session stands behind the cookie.
abbrev pub IsAnonymous : {F : Type 0} → (Text → Text) → Option Text → Time → Db F → Type 0
IsAnonymous digest none now d = Unit
IsAnonymous digest (some token) now d =
    is_empty token ≡ false → session_user digest token now d ≡ none

-- What echo finds is not public: no route of the table that is, and no answer of its own outside
-- the group.
abbrev is_private_route : Option Route → Bool
is_private_route none = false
is_private_route (some r) = not (is_public r.endpoint)

abbrev pub is_private : Found → Bool
is_private (at_route n) = is_private_route (route_at n routes)
is_private (own guarded failure) = guarded

-- An answer of the guards.
abbrev HasRefused : {F : Type 0} → Reply F → Type 0
HasRefused (of_error code text) = (code ≡ 401) ⊎ ((code ≡ 403) ⊎ (code ≡ 500))
HasRefused (of_users x) = ⊥
HasRefused (of_reads x) = ⊥
HasRefused (of_static x) = ⊥

-- The answer of the guards, or of the limit of bodies.
abbrev pub IsRefusal : {F : Type 0} → Echo → Option Failure → Reply F → Type 0
IsRefusal echo none reply = HasRefused reply
IsRefusal echo (some failure) reply = reply ≡ error_handler echo failure

module _ {F : Type 0} where
  user_for_request_of_anonymous :
      (digest : Text → Text) (cookie : Option Text) (now : Time) (d : Db F)
      → IsAnonymous digest cookie now d
      → Ends (λ found d'. found ≡ none) (λ d'. Unit) (user_for_request digest cookie now d)
  unfolding user_for_request
  user_for_request_of_anonymous digest none now d h = refl
  user_for_request_of_anonymous digest (some token) now d h = elim (Bool-cases (is_empty token)) [
    | inl empty ↦ rw (user_for_request, empty) refl
    | inr given ↦ rw (user_for_request, given) (user_by_session-Ends digest token now d (h given))
  ]

  -- The guard lets nobody in for whom `UserForRequest` finds no user.
  turned_away :
      (s : Shared F) (r : Result (Option User) × Db F) (next : User → Shared F → Reply F × Shared F)
      → Ends (λ found d'. found ≡ none) (λ d'. Unit) r
      → IsUnchanged s (with_db s r.1)
      → IsUnchanged s
          (handle (r.0, with_db s r.1) (λ e t. (of_error 500 e, t)) (for_user of_error next)).1
        × HasRefused
            (handle (r.0, with_db s r.1) (λ e t. (of_error 500 e, t)) (for_user of_error next)).0
  turned_away s (err e, d) next h same = (same, inr (inr refl))
  turned_away s (ok none, d) next h same = (same, inl refl)
  turned_away s (ok (some user), d) next h same = cc

module _ {F : Type 0} (server : Server F) (call : Call F) (moment : Moment) (s : Shared F)
    (anonymous : IsAnonymous server.digest call.cookie moment.guard_time s.service.db) where
  guarded_refused :
      (next : Option User → Shared F → Reply F × Shared F)
      → IsUnchanged s (behind_guard server call moment true next s).1
        × HasRefused (behind_guard server call moment true next s).0
  unfolding auth_middleware
  guarded_refused next =
      turned_away s (user_for_request server.digest call.cookie moment.guard_time s.service.db)
        (λ user. next (some user))
        (user_for_request_of_anonymous server.digest call.cookie moment.guard_time s.service.db
          anonymous)
        (caller-IsUnchanged server call moment s)

  route_refused :
      (n : ℕ) (found : Option Route)
      → route_at n routes ≡ found
      → is_private_route found ≡ true
      → IsUnchanged s (run_route server call moment found s).1
        × HasRefused (run_route server call moment found s).0
  route_refused n none e private = cc
  route_refused n (some r) e private =
      let guarded : r.guarded ≡ true = ground (arith, route_at-is_sound n r e) in
      rw guarded (guarded_refused (handler server call moment r.endpoint))

  found_refused :
      (found : Found)
      → is_private found ≡ true
      → IsUnchanged s (run_found server call moment found s).1
        × HasRefused (run_found server call moment found s).0
  found_refused (at_route n) private = route_refused n (route_at n routes) refl private
  found_refused (own guarded failure) private =
      rw private (guarded_refused (λ user t. (error_handler server.echo failure, t)))

  routed_refused :
      is_private (server.echo.find call.request) ≡ true
      → IsUnchanged s
          (same_origin_middleware server.parsers of_error call.request
            (run_found server call moment (server.echo.find call.request))
            s).1
        × HasRefused
            (same_origin_middleware server.parsers of_error call.request
              (run_found server call moment (server.echo.find call.request))
              s).0
  unfolding same_origin_middleware
  routed_refused private = ground (arith, found_refused (server.echo.find call.request) private)

  limited_refused :
      (limit : Option Failure)
      → is_private (server.echo.find call.request) ≡ true
      → IsUnchanged s (after_limit server call moment limit s).1
        × IsRefusal server.echo limit (after_limit server call moment limit s).0
  limited_refused none private = routed_refused private
  limited_refused (some failure) private = (refl, refl)

-- Whatever the request asks for outside health, login, logout and the static files, without a live
-- session behind its cookie it leaves all state as it is, and is answered by a guard: with 401, 403
-- or 500, or, if its body is too long, with echo's error for that.
pub serve-IsRefusal :
    {F : Type 0} (server : Server F) (call : Call F) (moment : Moment) (s : Shared F)
    → is_private (server.echo.find call.request) ≡ true
    → IsAnonymous server.digest call.cookie moment.guard_time s.service.db
    → IsUnchanged s (serve server call moment s).1
      × IsRefusal server.echo call.body_limit (serve server call moment s).0
unfolding serve
serve-IsRefusal server call moment s private anonymous =
    limited_refused server call moment s anonymous call.body_limit private
