-- ===== src/Monitoring/Outage/Tests.antt =====
-- Rounds of the outage detector on a small database.
use homelink_monitor.Base.{
  trim_space, trim_left, trim_right, ℕ, ◌≡◌, refl, Bool, true, false, none, some, List, [], ◌∷◌,
  arith, ltb, ok, pos,
}
use homelink_monitor.Domain.{Time, Settings}
use homelink_monitor.Router.Provider.{empty_hub}
use homelink_monitor.Store.Schema.{newest_first, insert_ordered, empty_db}
use homelink_monitor.Store.Stamp.{ts, parse_ts}
use homelink_monitor.Monitoring.Decisions.{should_open_outage, should_close_outage}
use homelink_monitor.Store.Outages.{
  select_active, scan_outage, open_outage, insert_outage, close_active_outage, end_outages,
  count_open, active_outage,
}
use homelink_monitor.Store.Outages.Laws.{IsValid}
use homelink_monitor.Events.Outbox.{enabled}
use homelink_monitor.Monitoring.Service.{Service, Setup, emit}
use homelink_monitor.Monitoring.Outage.{update_outage, react, try_open, try_close}
use homelink_monitor.Monitoring.Outage.Rounds.{
  link, spec_round, reaches, failures_in_a_row, run_rounds, update_outage-refines, outage_iff,
}

-- Floats are read as natural numbers, and texts made elsewhere are short constants.
abbrev quiet : Setup ℕ
quiet = record {
  outbox = some (record { dir = b'd' ∷ [] });
  cancelled = none;
  encoding = record { marshal = λ e. ok e.id; format = λ t. b'2' ∷ [] };
  unix_nano = λ t. b'9' ∷ [];
  one_decimal = λ x. b'1' ∷ [];
}

abbrev fresh : Service ℕ
fresh = record {
  db = empty_db;
  disk = record { files = []; faults = [] };
  fail_count = 0;
  router = empty_hub;
}

abbrev three : Settings ℕ
three = record {
  speed_test_schedule_minutes = pos 360;
  speed_test_command = [];
  latency_interval_seconds = pos 60;
  dns_interval_seconds = pos 120;
  router_traffic_enabled = false;
  router_traffic_interval_sec = pos 60;
  router_traffic_url = [];
  router_traffic_username = [];
  router_traffic_password = [];
  latency_targets = (b'a' ∷ []) ∷ [];
  dns_domains = [];
  router_ip = [];
  min_download_mbps = 50;
  min_upload_mbps = 10;
  max_latency_ms = 100;
  outage_failure_threshold = pos 3;
  monitoring_enabled = true;
}

abbrev three_failures : List (Bool × Time)
three_failures =
    (true, 5_000_000_000) ∷ (true, 4_000_000_000) ∷ (true, 3_000_000_000) ∷ (false, 7) ∷ []

fresh-IsValid : IsValid fresh.db
unfolding count_open
fresh-IsValid = record { one_open = omega arith; readable = tt }

opens_in_third : count_open (run_rounds quiet three three_failures fresh).db ≡ 1
unfolding run_rounds update_outage react try_open try_close should_open_outage should_close_outage
    emit active_outage select_active scan_outage parse_ts ts open_outage insert_outage
    close_active_outage end_outages count_open newest_first insert_ordered enabled trim_space
    trim_right trim_left
opens_in_third = refl

update_outage-refines_example :
    let done = update_outage quiet three true false 7 fresh in
    (link done ≡ spec_round (pos 3) true false (link fresh)) × (done.db.faults ≡ [])
update_outage-refines_example =
    update_outage-refines quiet three true false 7 fresh fresh-IsValid refl

outage_iff_example :
    ltb 0 (count_open (run_rounds quiet three three_failures fresh).db)
    ≡ reaches (failures_in_a_row three_failures) (pos 3)
unfolding count_open
outage_iff_example = outage_iff quiet three three_failures fresh fresh-IsValid refl refl refl
