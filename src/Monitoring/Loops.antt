-- ===== src/Monitoring/Loops.antt =====
-- `Start` and `loop` of services/api/internal/monitoring/service.go: the rounds of the four loops, and
-- the loop that runs them. A round is one call here; the steps of other goroutines between its calls
-- are those of Monitoring.Trigger.
pub mod Delays
pub mod Sound
use homelink_monitor.Base.{
  ℕ, suc, ◌*◌, Bool, ◌&&◌, Option, List, [], ◌∷◌, Text, Result, ok, err, ℤ, pos, ltb_ℤ, times_ℕ,
  wrap_64, if◌then◌else◌, Floats,
}
use homelink_monitor.Domain.{Time, second, minute, Settings, SpeedTest}
use homelink_monitor.Store.Schema.{Db}
use homelink_monitor.Store.Settings.{Codec, settings}
use homelink_monitor.Store.SpeedTests.{latest_speed_test}
use homelink_monitor.Monitoring.Decisions.{speed_test_due}
use homelink_monitor.Monitoring.Service.{Service, Setup}
use homelink_monitor.Monitoring.Checks.{Reply, check_latency, check_dns}
use homelink_monitor.Monitoring.RouterTraffic.{RouterTools, ProbeTimes, check_router_traffic}
use homelink_monitor.Monitoring.Trigger.{Shared, trigger}

-- `time.Duration(n) * time.Second`, a product of 64 bits.
abbrev pub seconds : ℤ → ℤ
seconds n = wrap_64 (times_ℕ n second)

abbrev pub speed_schedule_poll_interval : ℤ
speed_schedule_poll_interval = pos (30 * second)

-- The delay before the next round: a minute in place of one that is not positive.
unfoldable pub delay_of : ℤ → ℤ
delay_of next = if ltb_ℤ (pos 0) next then next else pos minute

-- What `select` finds: the timer has fired, or the context is done.
pub data Wake : Type 0 where
  fired : Wake
  done : Wake

-- The delays that the timer is reset to, and the state that is left; `n` counts the rounds.
unfoldable pub loop : {S : Type 0} → (ℕ → S → ℤ × S) → ℕ → List Wake → S → List ℤ × S
loop round n [] s = ([], s)
loop round n (done ∷ wakes) s = ([], s)
loop round n (fired ∷ wakes) s =
    let (next, s') = round n s in
    let (delays, end) = loop round (suc n) wakes s' in (delay_of next ∷ delays, end)

module _ {F : Type 0} (fl : Floats F) (codec : Codec F) where
  abbrev pub with_settings :
      (Settings F → Bool)
      → (Settings F → ℤ × (Service F → Service F))
      → Service F
      → Result (Settings F) × Db F
      → ℤ × Service F
  with_settings enabled work s (err e, d) = (pos minute, record s { db = d })
  with_settings enabled work s (ok x, d) =
      if enabled x
      then ((work x).0, (work x).1 (record s { db = d }))
      else (pos minute, record s { db = d })

  -- The settings are read, and the check runs if they enable it.
  abbrev pub round_of :
      (Settings F → Bool) → (Settings F → ℤ × (Service F → Service F)) → Service F → ℤ × Service F
  round_of enabled work s = with_settings enabled work s (settings fl.of_nat codec s.db)

  unfoldable pub latency_round : Setup F → (ℕ → Text → Reply F) → Time → Service F → ℤ × Service F
  latency_round env dial now =
      round_of (λ x. x.monitoring_enabled)
        (λ x. (seconds x.latency_interval_seconds, check_latency env dial x now))

  unfoldable pub dns_round : Setup F → (ℕ → Text → Reply F) → Service F → ℤ × Service F
  dns_round env look_up =
      round_of (λ x. x.monitoring_enabled)
        (λ x. (seconds x.dns_interval_seconds, check_dns env look_up x))

  unfoldable pub router_traffic_round :
      Setup F → RouterTools F → ProbeTimes → Service F → ℤ × Service F
  router_traffic_round env tools times =
      round_of (λ x. x.monitoring_enabled && x.router_traffic_enabled)
        (λ x. (seconds x.router_traffic_interval_sec, check_router_traffic env tools x times))

  abbrev pub trigger_if_due :
      Settings F → Time → Shared F → Result (Option (SpeedTest F)) × Db F → Shared F
  trigger_if_due x now s (err e, d) = record s { service = record (s.service) { db = d } }
  trigger_if_due x now s (ok latest, d) =
      let loaded = record s { service = record (s.service) { db = d } } in
      if speed_test_due now latest x.speed_test_schedule_minutes then (trigger loaded).1 else loaded

  abbrev pub speed_with_settings : Time → Shared F → Result (Settings F) × Db F → Shared F
  speed_with_settings now s (err e, d) = record s { service = record (s.service) { db = d } }
  speed_with_settings now s (ok x, d) =
      if x.monitoring_enabled && ltb_ℤ (pos 0) x.speed_test_schedule_minutes
      then trigger_if_due x now s (latest_speed_test d)
      else record s { service = record (s.service) { db = d } }

  unfoldable pub speed_round : Time → Shared F → ℤ × Shared F
  speed_round now s = (
    speed_schedule_poll_interval,
    speed_with_settings now s (settings fl.of_nat codec s.service.db),
  )
