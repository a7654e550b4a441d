-- ===== src/Monitoring/Loops/Sound.antt =====
-- The rounds of the loops and the moves of a speed test keep the invariant of Monitoring.Sound.
use homelink_monitor.Base.{
  ℕ, Bool, ◌&&◌, Option, Text, Result, ok, err, if-either, ℤ, pos, Floats, ltb_ℤ,
}
use homelink_monitor.Domain.{Time, Settings, SpeedTest}
use homelink_monitor.Store.Schema.{Db}
use homelink_monitor.Store.Quiet.{settings-Keeps, latest_speed_test-Keeps}
use homelink_monitor.Store.Sound.{IsSound, reads_sound, insert_speed_test-IsSound}
use homelink_monitor.Store.Settings.{Codec, settings}
use homelink_monitor.Store.SpeedTests.{latest_speed_test}
use homelink_monitor.Monitoring.Service.{Service, Setup}
use homelink_monitor.Monitoring.Decisions.{speed_test_due}
use homelink_monitor.Monitoring.Checks.{Reply, check_latency, check_dns, emit_speed_test_event}
use homelink_monitor.Monitoring.RouterTraffic.{RouterTools, ProbeTimes, check_router_traffic}
use homelink_monitor.Monitoring.Trigger.{
  Shared, Job, starting, running, storing, announcing, ending, Tools, Outside, trigger, advance,
  loaded,
}
use homelink_monitor.Monitoring.Trigger.Single.{trigger-IsSingle}
use homelink_monitor.Monitoring.Sound.{
  IsHealthy, IsSafe, emit-IsHealthy, check_latency-IsHealthy, check_dns-IsHealthy,
  check_router_traffic-IsHealthy,
}
use homelink_monitor.Monitoring.Loops.{
  seconds, with_settings, round_of, latency_round, dns_round, router_traffic_round, speed_round,
  trigger_if_due, speed_with_settings,
}

pub trigger-IsSafe : {F : Type 0} (s : Shared F) → IsSafe s → IsSafe (trigger s).1
unfolding trigger
trigger-IsSafe {F} s (healthy, single) = (
  if-either (λ (x : Bool × Shared F). IsHealthy x.1.service) s.speed_active _ _ healthy healthy,
  trigger-IsSingle s single,
)

module _ {F : Type 0} (fl : Floats F) (codec : Codec F) where
  pub settings-IsSound : (d : Db F) → IsSound d → IsSound (settings fl.of_nat codec d).1
  settings-IsSound = reads_sound (settings fl.of_nat codec) (settings-Keeps fl codec)

  with_settings-IsHealthy :
      (enabled : Settings F → Bool) (work : Settings F → ℤ × (Service F → Service F))
      (s : Service F) (r : Result (Settings F) × Db F)
      → IsHealthy (record s { db = r.1 })
      → ((x : Settings F) (t : Service F) → IsHealthy t → IsHealthy ((work x).1 t))
      → IsHealthy (with_settings fl codec enabled work s r).1
  with_settings-IsHealthy enabled work s (err e, d) h keeps = h
  with_settings-IsHealthy enabled work s (ok x, d) h keeps =
      if-either (λ (y : ℤ × Service F). IsHealthy y.1) (enabled x) _ _
        (keeps x (record s { db = d }) h) h

  round_of-IsHealthy :
      (enabled : Settings F → Bool) (work : Settings F → ℤ × (Service F → Service F))
      (s : Service F)
      → IsHealthy s
      → ((x : Settings F) (t : Service F) → IsHealthy t → IsHealthy ((work x).1 t))
      → IsHealthy (round_of fl codec enabled work s).1
  round_of-IsHealthy enabled work s (sound, valid) keeps =
      with_settings-IsHealthy enabled work s (settings fl.of_nat codec s.db)
        (settings-IsSound s.db sound, valid) keeps

  module _ (env : Setup F) (s : Service F) (h : IsHealthy s) where
    pub latency_round-IsHealthy :
        (dial : ℕ → Text → Reply F) (now : Time)
        → IsHealthy (latency_round fl codec env dial now s).1
    unfolding latency_round
    latency_round-IsHealthy dial now =
        round_of-IsHealthy (λ x. x.monitoring_enabled)
          (λ x. (seconds x.latency_interval_seconds, check_latency env dial x now)) s h
          (λ x t. check_latency-IsHealthy env dial x now t)

    pub dns_round-IsHealthy :
        (look_up : ℕ → Text → Reply F) → IsHealthy (dns_round fl codec env look_up s).1
    unfolding dns_round
    dns_round-IsHealthy look_up =
        round_of-IsHealthy (λ x. x.monitoring_enabled)
          (λ x. (seconds x.dns_interval_seconds, check_dns env look_up x)) s h
          (λ x t. check_dns-IsHealthy env look_up x t)

    pub router_traffic_round-IsHealthy :
        (tools : RouterTools F) (times : ProbeTimes)
        → IsHealthy (router_traffic_round fl codec env tools times s).1
    unfolding router_traffic_round
    router_traffic_round-IsHealthy tools times =
        round_of-IsHealthy (λ x. x.monitoring_enabled && x.router_traffic_enabled)
          (λ x. (seconds x.router_traffic_interval_sec, check_router_traffic env tools x times)) s h
          (λ x t. check_router_traffic-IsHealthy tools env x times t)

  trigger_if_due-IsSafe :
      (x : Settings F) (now : Time) (s : Shared F) (r : Result (Option (SpeedTest F)) × Db F)
      → IsSafe (record s { service = record (s.service) { db = r.1 } })
      → IsSafe (trigger_if_due fl codec x now s r)
  trigger_if_due-IsSafe x now s (err e, d) h = h
  trigger_if_due-IsSafe x now s (ok latest, d) h =
      let t = record s { service = record (s.service) { db = d } } in
      if-either (λ (u : Shared F). IsSafe u)
        (speed_test_due now latest x.speed_test_schedule_minutes) _ _ (trigger-IsSafe t h) h

  speed_with_settings-IsSafe :
      (now : Time) (s : Shared F) (r : Result (Settings F) × Db F)
      → IsSafe (record s { service = record (s.service) { db = r.1 } })
      → IsSafe (speed_with_settings fl codec now s r)
  speed_with_settings-IsSafe now s (err e, d) h = h
  speed_with_settings-IsSafe now s (ok x, d) ((sound, valid), single) =
      if-either (λ (u : Shared F). IsSafe u)
        (x.monitoring_enabled && ltb_ℤ (pos 0) x.speed_test_schedule_minutes) _ _
        (trigger_if_due-IsSafe x now s (latest_speed_test d)
          ((reads_sound latest_speed_test latest_speed_test-Keeps d sound, valid), single))
        ((sound, valid), single)

  pub speed_round-IsSafe :
      (now : Time) (s : Shared F) → IsSafe s → IsSafe (speed_round fl codec now s).1
  unfolding speed_round
  speed_round-IsSafe now s ((sound, valid), single) =
      speed_with_settings-IsSafe now s (settings fl.of_nat codec s.service.db)
        ((settings-IsSound s.service.db sound, valid), single)

module _ {F : Type 0} (tools : Tools F) where
  loaded-IsHealthy :
      (s : Service F) (r : Result (Settings F) × Db F)
      → IsHealthy (record s { db = r.1 })
      → IsHealthy (loaded tools s r).1
  loaded-IsHealthy s (ok x, d) h = h
  loaded-IsHealthy s (err e, d) h = h

  pub advance-IsHealthy :
      (o : Outside) (job : Job F) (s : Service F)
      → IsHealthy s
      → IsHealthy (advance tools o job s).1
  unfolding advance emit_speed_test_event
  advance-IsHealthy o starting s (sound, valid) =
      loaded-IsHealthy s (settings tools.floats.of_nat tools.codec s.db)
        (settings-IsSound tools.floats tools.codec s.db sound, valid)
  advance-IsHealthy o (running x) s h = h
  advance-IsHealthy o (storing r) s (sound, valid) = (insert_speed_test-IsSound r s.db sound, valid)
  advance-IsHealthy o (announcing r) s h = emit-IsHealthy _ _ _ s h
  advance-IsHealthy o ending s h = h
