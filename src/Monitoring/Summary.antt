-- ===== src/Monitoring/Summary.antt =====
-- `BuildSummary` of services/api/internal/monitoring/summary.go.
pub mod Status
pub mod Consistent
use homelink_monitor.Base.{◌*◌, ◌-◌, some, none, Bool, Eff, ◌>>=◌, pure, Floats}
use homelink_monitor.Domain.{Time, minute, Summary}
use homelink_monitor.Store.Schema.{Db}
use homelink_monitor.Store.Settings.{Codec, settings}
use homelink_monitor.Store.SpeedTests.{latest_speed_test}
use homelink_monitor.Store.Checks.{latest_latency, latest_dns}
use homelink_monitor.Store.LatencyStats.{latency_summary, speed_bounds_since}
use homelink_monitor.Store.Outages.{active_outage, outage_count_since}
use homelink_monitor.Monitoring.Decisions.{connection_status, status_text}

-- 24 hours. Before the first day after the epoch, the time a day ago stops at the epoch.
abbrev pub day : Time
day = 24 * 60 * minute

module _ {F : Type 0} (fl : Floats F) (codec : Codec F) where
  unfoldable pub build_summary : Bool → Time → Eff (Db F) (Summary F)
  build_summary speed_running now = do
    current ← settings fl.of_nat codec
    latest_speed ← latest_speed_test
    latest_ping ← latest_latency
    latest_lookup ← latest_dns
    latency_day ← latency_summary fl (some (now - day)) none
    active ← active_outage
    outage_count ← outage_count_since (now - day)
    bounds ← speed_bounds_since fl (now - day)
    pure (record {
      status =
          status_text (connection_status fl current latest_speed latest_ping latest_lookup active);
      latest_speed_test = latest_speed;
      latest_latency = latest_ping;
      latest_dns_check = latest_lookup;
      latency_24h = latency_day;
      outage_count_24h = outage_count;
      active_outage = active;
      min_download_24h_mbps = bounds.min_down;
      max_download_24h_mbps = bounds.max_down;
      min_upload_24h_mbps = bounds.min_up;
      max_upload_24h_mbps = bounds.max_up;
      settings = current;
      speed_test_is_running = speed_running;
    })
