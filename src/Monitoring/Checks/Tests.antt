-- ===== src/Monitoring/Checks/Tests.antt =====
-- A latency round over two targets and the router, of which the router answers.
use homelink_monitor.Base.{
  ℕ, ◌≡◌, refl, arith, true, false, none, some, [], ◌∷◌, Text, is_empty, if◌then◌else◌, ok, err,
  pos,
}
use homelink_monitor.Domain.{Settings}
use homelink_monitor.Router.Provider.{empty_hub}
use homelink_monitor.Store.Schema.{empty_db}
use homelink_monitor.Monitoring.Service.{Service, Setup}
use homelink_monitor.Monitoring.Checks.{Reply, check_latency}
use homelink_monitor.Store.Outages.{count_open}
use homelink_monitor.Store.Outages.Laws.{IsValid}
use homelink_monitor.Monitoring.Outage.Rounds.{link}
use homelink_monitor.Monitoring.Checks.Rows.{
  results, numbered, round_targets, link_after, check_latency_lem,
}

abbrev quiet : Setup ℕ
quiet = record {
  outbox = some (record { dir = b'd' ∷ [] });
  cancelled = none;
  encoding = record { marshal = λ e. ok e.id; format = λ t. b'2' ∷ [] };
  unix_nano = λ t. b'9' ∷ [];
  one_decimal = λ x. b'1' ∷ [];
}

abbrev fresh : Service ℕ
fresh = record {
  db = empty_db;
  disk = record { files = []; faults = [] };
  fail_count = 0;
  router = empty_hub;
}

abbrev dial : ℕ → Text → Reply ℕ
dial n target = record {
  checked = 10;
  answer = if is_empty target then ok 3 else err (b'e' ∷ target);
}

abbrev with_router : Settings ℕ
with_router = record {
  speed_test_schedule_minutes = pos 360;
  speed_test_command = [];
  latency_interval_seconds = pos 60;
  dns_interval_seconds = pos 120;
  router_traffic_enabled = false;
  router_traffic_interval_sec = pos 60;
  router_traffic_url = [];
  router_traffic_username = [];
  router_traffic_password = [];
  latency_targets = (b'a' ∷ []) ∷ [] ∷ [];
  dns_domains = [];
  router_ip = b'r' ∷ [];
  min_download_mbps = 50;
  min_upload_mbps = 10;
  max_latency_ms = 100;
  outage_failure_threshold = pos 3;
  monitoring_enabled = true;
}

fresh-IsValid : IsValid fresh.db
unfolding count_open
fresh-IsValid = record { one_open = omega arith; readable = tt }

check_latency_lem_example :
    let targets = round_targets with_router in
    let cs = results quiet dial 0 targets in
    let done = check_latency quiet dial with_router 20 fresh in
    (done.db.latency_checks.rows ≡ numbered 0 cs)
    × (link done ≡ link_after (pos 3) targets cs (link fresh))
check_latency_lem_example = check_latency_lem quiet dial with_router 20 fresh fresh-IsValid refl
