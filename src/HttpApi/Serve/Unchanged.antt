-- ===== src/HttpApi/Serve/Unchanged.antt =====
-- Requests that leave the state as it is, but for the faults that their statements take.
use homelink_monitor.Base.{
  ℕ, zero, suc, ◌≡◌, refl, Bool, true, false, not, ◌&&◌, ◌||◌, some, List, [], ◌∷◌, all, text_eq,
  bytes, arith, text_eq, bytes,
}
use homelink_monitor.Store.Schema.Keeps.{tables}
use homelink_monitor.Monitoring.Trigger.{Shared}
use homelink_monitor.HttpApi.Requests.{is_safe_method}
use homelink_monitor.HttpApi.Routes.{
  Endpoint, health, login, logout, run_speed_test, probe_router_traffic, save_settings, create_user,
  update_user, delete_user, static, Route, routes, route_at,
}
use homelink_monitor.HttpApi.Serve.{with_db}

-- The state without the faults to come.
abbrev pub settled : {F : Type 0} → Shared F → Shared F
settled s = with_db s (tables s.service.db)

abbrev pub IsUnchanged : {F : Type 0} → Shared F → Shared F → Type 0
IsUnchanged s t = settled t ≡ settled s

-- The endpoints that anyone may call.
abbrev pub is_public : Endpoint → Bool
is_public health = true
is_public login = true
is_public logout = true
is_public static = true
is_public _ = false

-- The endpoints that are asked to change something.
abbrev pub is_command : Endpoint → Bool
is_command login = true
is_command logout = true
is_command run_speed_test = true
is_command probe_router_traffic = true
is_command save_settings = true
is_command create_user = true
is_command update_user = true
is_command delete_user = true
is_command _ = false

-- What the table of routes is checked for: the guard stands before what is not public, and no
-- command has a safe method.
abbrev pub is_sound : Route → Bool
is_sound r =
    (is_public r.endpoint || r.guarded) && not (is_safe_method r.method && is_command r.endpoint)

routes_sound : all is_sound routes ≡ true
unfolding text_eq bytes
routes_sound = refl

route_at-all :
    (p : Route → Bool) (n : ℕ) (rows : List Route) (r : Route)
    → all p rows ≡ true
    → route_at n rows ≡ some r
    → p r ≡ true
route_at-all p n [] r h e = cc
route_at-all p zero (x ∷ rows) r h e = ground arith
route_at-all p (suc n) (x ∷ rows) r h e = route_at-all p n rows r (ground arith) e

pub route_at-is_sound : (n : ℕ) (r : Route) → route_at n routes ≡ some r → is_sound r ≡ true
route_at-is_sound n r e = route_at-all is_sound n routes r routes_sound e
