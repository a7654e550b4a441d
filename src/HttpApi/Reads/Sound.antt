-- ===== src/HttpApi/Reads/Sound.antt =====
-- The handlers that change settings, start a speed test or probe the router keep the invariant of
-- Monitoring.Sound.
use homelink_monitor.Base.{Bool, true, false, Result, ok, err, Floats}
use homelink_monitor.Domain.{Settings}
use homelink_monitor.Store.Schema.{Db}
use homelink_monitor.Store.Schema.Preserves.{Preserves, handled-Preserves}
use homelink_monitor.Store.Settings.{Codec, settings, save_settings}
use homelink_monitor.Store.Sound.{IsSound, save_settings-IsSound}
use homelink_monitor.Monitoring.Service.{Service}
use homelink_monitor.Monitoring.Sound.{IsHealthy, IsSafe, probe_router_traffic-IsHealthy}
use homelink_monitor.Monitoring.Loops.Sound.{trigger-IsSafe, settings-IsSound}
use homelink_monitor.Monitoring.RouterTraffic.{RouterTools, ProbeTimes}
use homelink_monitor.Monitoring.Trigger.{Shared, trigger}
use homelink_monitor.HttpApi.Settings.{normalize_settings}
use homelink_monitor.HttpApi.Reads.{
  respond, started, run_speed_test, save_settings_handler, probe_with, probe_router_traffic_handler,
}

module _ {F : Type 0} where
  pub run_speed_test-IsSafe : (s : Shared F) → IsSafe s → IsSafe (run_speed_test s).1
  unfolding run_speed_test
  run_speed_test-IsSafe s h = answered (trigger s) (trigger-IsSafe s h)
    where
      answered : (x : Bool × Shared F) → IsSafe x.1 → IsSafe (started x).1
      answered (true, t) h = h
      answered (false, t) h = h

module _ {F : Type 0} (fl : Floats F) (codec : Codec F) where
  pub save_settings_handler-IsSound :
      (bound : Result (Settings F))
      → Preserves (λ (d : Db F). IsSound d) (save_settings_handler fl codec bound)
  unfolding save_settings_handler respond
  save_settings_handler-IsSound (err e) d h = h
  save_settings_handler-IsSound (ok sent) d h =
      handled-Preserves (λ (d : Db F). IsSound d)
        (save_settings codec (normalize_settings fl sent) d) _ _
        (save_settings-IsSound codec (normalize_settings fl sent) d h) (λ e d' h'. h')
        (λ _ d' h'. h')

  probe_with-IsHealthy :
      (tools : RouterTools F) (times : ProbeTimes) (s : Service F) (r : Result (Settings F) × Db F)
      → IsHealthy (record s { db = r.1 })
      → IsHealthy (probe_with fl codec tools times s r).1
  probe_with-IsHealthy tools times s (err e, d) h = h
  probe_with-IsHealthy tools times s (ok x, d) h =
      probe_router_traffic-IsHealthy tools (normalize_settings fl x) times (record s { db = d }) h

  pub probe_router_traffic_handler-IsHealthy :
      (tools : RouterTools F) (times : ProbeTimes) (s : Service F)
      → IsHealthy s
      → IsHealthy (probe_router_traffic_handler fl codec tools times s).1
  unfolding probe_router_traffic_handler
  probe_router_traffic_handler-IsHealthy tools times s (sound, valid) =
      probe_with-IsHealthy tools times s (settings fl.of_nat codec s.db)
        (settings-IsSound fl codec s.db sound, valid)
