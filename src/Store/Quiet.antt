-- ===== src/Store/Quiet.antt =====
-- The calls of services/api/internal/store that only read leave every table as it is.
use homelink_monitor.Base.{ℕ, Option, Text, ℤ, Floats}
use homelink_monitor.Domain.{Time}
use homelink_monitor.Store.Schema.Keeps.{tables, Keeps, query-Keeps, scanned-Keeps}
use homelink_monitor.Store.Settings.{Codec, settings}
use homelink_monitor.Store.SpeedTests.{latest_speed_test, speed_tests}
use homelink_monitor.Store.Checks.{latency, latest_latency, dns_checks, latest_dns}
use homelink_monitor.Store.LatencyStats.{latency_summary, speed_bounds_since}
use homelink_monitor.Store.Outages.{active_outage, list_outages, outage_count_since}
use homelink_monitor.Store.RouterTraffic.{
  ClientsCodec, latest_router_traffic, router_traffic_samples,
}
use homelink_monitor.Store.Users.{user_count, users, user_by_username, user_by_id, user_by_session}

module _ {F : Type 0} where
  pub latest_speed_test-Keeps : Keeps {F = F} tables latest_speed_test
  unfolding latest_speed_test
  latest_speed_test-Keeps = scanned-Keeps _ _

  pub speed_tests-Keeps :
      (limit offset : ℕ) (from to : Option Time)
      → Keeps {F = F} tables (speed_tests limit offset from to)
  unfolding speed_tests
  speed_tests-Keeps limit offset from to = scanned-Keeps _ _

  pub latency-Keeps :
      (target : Text) (limit : ℕ) (from to : Option Time)
      → Keeps {F = F} tables (latency target limit from to)
  unfolding latency
  latency-Keeps target limit from to = scanned-Keeps _ _

  pub latest_latency-Keeps : Keeps {F = F} tables latest_latency
  unfolding latest_latency
  latest_latency-Keeps = scanned-Keeps _ _

  pub dns_checks-Keeps : (limit : ℕ) → Keeps {F = F} tables (dns_checks limit)
  unfolding dns_checks
  dns_checks-Keeps limit = scanned-Keeps _ _

  pub latest_dns-Keeps : Keeps {F = F} tables latest_dns
  unfolding latest_dns
  latest_dns-Keeps = scanned-Keeps _ _

  pub active_outage-Keeps : Keeps {F = F} tables active_outage
  unfolding active_outage
  active_outage-Keeps = scanned-Keeps _ _

  pub list_outages-Keeps : (limit : ℕ) → Keeps {F = F} tables (list_outages limit)
  unfolding list_outages
  list_outages-Keeps limit = scanned-Keeps _ _

  pub outage_count_since-Keeps : (since : Time) → Keeps {F = F} tables (outage_count_since since)
  unfolding outage_count_since
  outage_count_since-Keeps since = query-Keeps _

  pub user_count-Keeps : Keeps {F = F} tables user_count
  unfolding user_count
  user_count-Keeps = query-Keeps _

  pub users-Keeps : Keeps {F = F} tables users
  unfolding users
  users-Keeps = scanned-Keeps _ _

  pub user_by_username-Keeps : (name : Text) → Keeps {F = F} tables (user_by_username name)
  unfolding user_by_username
  user_by_username-Keeps name = scanned-Keeps _ _

  pub user_by_id-Keeps : (id : ℤ) → Keeps {F = F} tables (user_by_id id)
  unfolding user_by_id
  user_by_id-Keeps id = scanned-Keeps _ _

  pub user_by_session-Keeps :
      (digest : Text → Text) (token : Text) (now : Time)
      → Keeps {F = F} tables (user_by_session digest token now)
  unfolding user_by_session
  user_by_session-Keeps digest token now = scanned-Keeps _ _

module _ {F : Type 0} (codec : ClientsCodec F) where
  pub latest_router_traffic-Keeps : Keeps tables (latest_router_traffic codec)
  unfolding latest_router_traffic
  latest_router_traffic-Keeps = scanned-Keeps _ _

  pub router_traffic_samples-Keeps : (limit : ℕ) → Keeps tables (router_traffic_samples codec limit)
  unfolding router_traffic_samples
  router_traffic_samples-Keeps limit = scanned-Keeps _ _

module _ {F : Type 0} (fl : Floats F) where
  pub settings-Keeps : (codec : Codec F) → Keeps tables (settings fl.of_nat codec)
  unfolding settings
  settings-Keeps codec = scanned-Keeps _ _

  pub latency_summary-Keeps : (from to : Option Time) → Keeps tables (latency_summary fl from to)
  unfolding latency_summary
  latency_summary-Keeps from to = scanned-Keeps _ _

  pub speed_bounds_since-Keeps : (since : Time) → Keeps tables (speed_bounds_since fl since)
  unfolding speed_bounds_since
  speed_bounds_since-Keeps since = query-Keeps _
