-- ===== src/HttpApi/Routes.antt =====
-- The table of routes of `Routes` in services/api/internal/httpapi/api.go.
use homelink_monitor.Base.{
  ℕ, zero, suc, Bool, true, false, Option, none, some, List, [], ◌∷◌, ◌++◌, Text, bytes,
}

-- The handlers.
pub data Endpoint : Type 0 where
  health : Endpoint
  login : Endpoint
  logout : Endpoint
  me : Endpoint
  summary : Endpoint
  speed_tests : Endpoint
  run_speed_test : Endpoint
  latest_speed_test : Endpoint
  latency : Endpoint
  latency_summary : Endpoint
  dns_checks : Endpoint
  latest_dns : Endpoint
  router_traffic : Endpoint
  current_router_traffic : Endpoint
  probe_router_traffic : Endpoint
  outages : Endpoint
  active_outage : Endpoint
  settings : Endpoint
  save_settings : Endpoint
  users : Endpoint
  create_user : Endpoint
  update_user : Endpoint
  delete_user : Endpoint
  static : Endpoint

-- `guarded`: whether `authMiddleware` stands before the handler.
pub record Route : Type 0 where
  pub method : Text
  pub path : Text
  pub guarded : Bool
  pub endpoint : Endpoint

abbrev route : Text → Text → Endpoint → Route
route method path endpoint = record {
  method = method;
  path = path;
  guarded = false;
  endpoint = endpoint;
}

-- A route of `e.Group("/api", s.authMiddleware)`.
abbrev in_api : Text → Text → Endpoint → Route
in_api method path endpoint = record {
  method = method;
  path = bytes "/api" ++ path;
  guarded = true;
  endpoint = endpoint;
}

abbrev pub routes : List Route
routes =
    route (bytes "GET") (bytes "/api/health") health
    ∷ route (bytes "POST") (bytes "/api/auth/login") login
    ∷ route (bytes "POST") (bytes "/api/auth/logout") logout
    ∷ in_api (bytes "GET") (bytes "/auth/me") me
    ∷ in_api (bytes "GET") (bytes "/summary") summary
    ∷ in_api (bytes "GET") (bytes "/speed-tests") speed_tests
    ∷ in_api (bytes "POST") (bytes "/speed-tests/run") run_speed_test
    ∷ in_api (bytes "GET") (bytes "/speed-tests/latest") latest_speed_test
    ∷ in_api (bytes "GET") (bytes "/latency") latency
    ∷ in_api (bytes "GET") (bytes "/latency/summary") latency_summary
    ∷ in_api (bytes "GET") (bytes "/dns-checks") dns_checks
    ∷ in_api (bytes "GET") (bytes "/dns-checks/latest") latest_dns
    ∷ in_api (bytes "GET") (bytes "/router-traffic") router_traffic
    ∷ in_api (bytes "GET") (bytes "/router-traffic/current") current_router_traffic
    ∷ in_api (bytes "POST") (bytes "/router-traffic/probe") probe_router_traffic
    ∷ in_api (bytes "GET") (bytes "/outages") outages
    ∷ in_api (bytes "GET") (bytes "/outages/active") active_outage
    ∷ in_api (bytes "GET") (bytes "/settings") settings
    ∷ in_api (bytes "PUT") (bytes "/settings") save_settings
    ∷ in_api (bytes "GET") (bytes "/users") users
    ∷ in_api (bytes "POST") (bytes "/users") create_user
    ∷ in_api (bytes "PUT") (bytes "/users/:id") update_user
    ∷ in_api (bytes "DELETE") (bytes "/users/:id") delete_user
    ∷ route (bytes "GET") (bytes "/*") static
    ∷ []

-- The route at a place.
abbrev pub route_at : ℕ → List Route → Option Route
route_at n [] = none
route_at zero (r ∷ rest) = some r
route_at (suc n) (r ∷ rest) = route_at n rest
