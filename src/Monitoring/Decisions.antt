-- ===== src/Monitoring/Decisions.antt =====
-- The pure decisions of services/api/internal/monitoring/service.go and summary.go.
use homelink_monitor.Base.{
  ℕ, ◌+◌, Bool, true, false, not, ◌&&◌, ◌||◌, Option, none, some, Text, bytes, if◌then◌else◌, ltb,
  is_some, ℤ, pos, ltb_ℤ, Floats, pos_part, neg_part, times_ℕ, wrap_64,
}
use homelink_monitor.Domain.{Time, minute, Settings, SpeedTest, LatencyCheck, DnsCheck, Outage}

-- `consecutiveFailures >= threshold`, with the threshold an `int`.
unfoldable pub should_open_outage : ℕ → ℤ → Bool → Bool
should_open_outage failures threshold active =
    not active && ltb_ℤ (pos 0) threshold && not (ltb_ℤ (pos failures) threshold)

unfoldable pub should_close_outage : Bool → Bool → Bool
should_close_outage any_success active = active && any_success

-- `now.After(t)` is `t < now`. The schedule as a duration is a product of 64 bits, whose sign is
-- that of what is left of it.
unfoldable pub speed_test_due : {F : Type 0} → Time → Option (SpeedTest F) → ℤ → Bool
speed_test_due now latest schedule = if not (ltb_ℤ (pos 0) schedule) then false else elim latest [
  | none ↦ true
  | some t ↦
      let delay = wrap_64 (times_ℕ schedule minute) in
      not (ltb (now + neg_part delay) (t.started_at + pos_part delay))
]

pub data Status : Type 0 where
  down degraded healthy : Status

-- The status as the text that the API returns.
unfoldable pub status_text : Status → Text
status_text down = bytes "down"
status_text degraded = bytes "degraded"
status_text healthy = bytes "healthy"

module _ {F : Type 0} (fl : Floats F) where
  -- `v != nil && *v < bound`, and `v != nil && *v > bound`.
  abbrev pub is_below : Option F → F → Bool
  is_below none bound = false
  is_below (some v) bound = fl.less v bound

  abbrev pub is_above : Option F → F → Bool
  is_above none bound = false
  is_above (some v) bound = fl.less bound v

  -- `latency != nil && !latency.Success`, and the same for DNS.
  abbrev pub latency_failed : Option (LatencyCheck F) → Bool
  latency_failed none = false
  latency_failed (some c) = not c.success

  abbrev pub dns_failed : Option (DnsCheck F) → Bool
  dns_failed none = false
  dns_failed (some c) = not c.success

  abbrev pub latency_is_bad : Settings F → Option (LatencyCheck F) → Bool
  latency_is_bad s none = false
  latency_is_bad s (some c) = not c.success || is_above c.latency_ms s.max_latency_ms

  abbrev pub speed_is_bad : Settings F → Option (SpeedTest F) → Bool
  speed_is_bad s none = false
  speed_is_bad s (some t) =
      t.success
      && (is_below t.download_mbps s.min_download_mbps || is_below t.upload_mbps s.min_upload_mbps)

  unfoldable pub connection_status :
      Settings F
      → Option (SpeedTest F)
      → Option (LatencyCheck F)
      → Option (DnsCheck F)
      → Option Outage
      → Status
  connection_status s speed latency dns active =
      if is_some active
      then down
      else if latency_failed latency && dns_failed dns
      then down
      else if latency_is_bad s latency
      then degraded
      else if dns_failed dns
      then degraded
      else if speed_is_bad s speed
      then degraded
      else healthy
