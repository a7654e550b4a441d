-- ===== src/Monitoring/Tests.antt =====
-- A service whose router lists a client, and whose speed test is due.
use homelink_monitor.Base.{
  ◌↔◌, ◌⊎◌, replicate, ℕ, ◌+◌, ◌*◌, ◌≡◌, refl, true, false, none, some, [], ◌∷◌, ◌++◌, bytes, ok,
  pos, arith, text_eq, if◌then◌else◌, ℤ,
}
use homelink_monitor.Domain.{Settings, default_settings, second}
use homelink_monitor.Store.Schema.{empty_db, newest_first}
use homelink_monitor.Store.Settings.{Codec, settings, last_value}
use homelink_monitor.Store.SpeedTests.{latest_speed_test, scan_speed}
use homelink_monitor.Store.RouterTraffic.{latest_router_traffic}
use homelink_monitor.Router.Provider.{empty_hub}
use homelink_monitor.Router.Examples.{plain_library, whole, times}
use homelink_monitor.Monitoring.Service.{Service, Setup, emit}
use homelink_monitor.Monitoring.Trigger.{Shared, speed_running}
use homelink_monitor.Monitoring.RouterTraffic.{
  RouterTools, probe_router_traffic, traffic_event, check_router_traffic,
}
use homelink_monitor.Monitoring.RouterTraffic.Announced.{
  snapshot_of, stored_by, check_router_traffic_lem, latest_router_traffic-check_router_traffic,
}
use homelink_monitor.Monitoring.Summary.{build_summary}
use homelink_monitor.Monitoring.Summary.Consistent.{
  IsRead, IsConsistent, build_summary-IsConsistent,
}
use homelink_monitor.Monitoring.Loops.{fired, done, loop, seconds, delay_of, speed_round}
use homelink_monitor.Monitoring.Loops.Delays.{
  Waits, loop_lem, delay_of-seconds, IsScheduled, speed_round_iff,
}

abbrev quiet : Setup ℕ
quiet = record {
  outbox = none;
  cancelled = none;
  encoding = record { marshal = λ e. ok e.id; format = λ t. b'2' ∷ [] };
  unix_nano = λ t. b'9' ∷ [];
  one_decimal = λ x. b'1' ∷ [];
}

abbrev same : Codec ℕ
same = record { marshal = λ s. ok (b'j' ∷ []); unmarshal = λ raw s. ok s }

abbrev service : Service ℕ
service = record {
  db = empty_db;
  disk = record { files = []; faults = [] };
  fail_count = 0;
  router = empty_hub;
}

abbrev watched : Settings ℕ
watched = record (default_settings (λ n. n)) {
  router_traffic_url = bytes "h";
  router_traffic_password = bytes "p";
}

-- The JSON of clients knows the clients of the one router.
abbrev one_router : RouterTools ℕ
one_router = record {
  floats = whole;
  library = plain_library;
  clients = record { marshal = λ clients. ok (b'c' ∷ []); unmarshal = λ raw. ok [] };
}

abbrev tools : RouterTools ℕ
tools = record one_router {
  clients = record {
    marshal = λ clients. ok (b'c' ∷ []);
    unmarshal = λ raw. ok (snapshot_of quiet one_router watched (times, times) service).clients;
  };
}

check_router_traffic_lem_example :
    check_router_traffic quiet tools watched (times, times) service ≡ (
      let sample = (snapshot_of quiet tools watched (times, times) service).sample in
      if sample.success
      then stored_by quiet tools watched (times, times) service
      else emit quiet sample.checked_at
          (traffic_event quiet tools sample)
          (stored_by quiet tools watched (times, times) service))
check_router_traffic_lem_example =
    check_router_traffic_lem quiet tools watched (times, times) service

decodes :
    tools.clients.unmarshal (b'c' ∷ [])
    ≡ ok (snapshot_of quiet tools watched (times, times) service).clients
unfolding probe_router_traffic
decodes = refl

latest_router_traffic-check_router_traffic_example :
    (latest_router_traffic tools.clients
      (check_router_traffic quiet tools watched (times, times) service).db).0
    ≡ ok (
        some (
          record ((snapshot_of quiet tools watched (times, times) service).sample) { id = 0 + 1 },
          (snapshot_of quiet tools watched (times, times) service).clients,
        ))
latest_router_traffic-check_router_traffic_example =
    latest_router_traffic-check_router_traffic quiet tools watched (times, times) service
      (b'c' ∷ []) refl refl decodes refl tt

build_summary-IsConsistent_example :
    IsRead (IsConsistent whole same true) empty_db (build_summary whole same true 5 empty_db)
build_summary-IsConsistent_example = build_summary-IsConsistent whole same true 5 empty_db

delay_of-seconds_example : delay_of (seconds (pos 60)) ≡ pos (60 * second)
delay_of-seconds_example = delay_of-seconds 60 (omega arith) (omega arith)

abbrev count_down : ℕ → ℕ → ℤ × ℕ
count_down n s = (pos 0, s + n)

loop_lem_example :
    let (delays, end) = loop count_down 0 (replicate 2 fired ++ done ∷ fired ∷ []) 5 in
    (end ≡ 6) × Waits count_down 0 2 5 delays
loop_lem_example = loop_lem count_down 0 2 (fired ∷ []) 5

abbrev idle : Shared ℕ
idle = record { service = service; speed_active = false; jobs = [] }

abbrev scheduled : Settings ℕ
scheduled = record watched { monitoring_enabled = true; speed_test_schedule_minutes = pos 360 }

abbrev stored : Codec ℕ
stored = record same { unmarshal = λ raw s. ok scheduled }

abbrev with_row : Shared ℕ
with_row = record idle {
  service = record service {
    db = record (empty_db) { settings = record { key = bytes "settings"; value = [] } ∷ [] };
  };
}

reads : settings whole.of_nat stored with_row.service.db ≡ (ok scheduled, with_row.service.db)
unfolding settings last_value bytes text_eq
reads = refl

none_yet : latest_speed_test with_row.service.db ≡ (ok none, with_row.service.db)
unfolding latest_speed_test scan_speed newest_first
none_yet = refl

speed_round_iff_example : (speed_running (speed_round whole stored 5 with_row).1 ≡ true) ↔ (
    (speed_running with_row ≡ true)
    ⊎ ((scheduled.monitoring_enabled ≡ true)
        × IsScheduled {F = ℕ} 5 none scheduled.speed_test_schedule_minutes))
speed_round_iff_example =
    speed_round_iff whole stored 5 with_row scheduled none with_row.service.db with_row.service.db
      reads none_yet (omega arith)
