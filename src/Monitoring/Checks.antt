-- ===== src/Monitoring/Checks.antt =====
-- `checkLatency`, `checkDNS`, `tcpLatency`, `domainCheck` and `emitSpeedTestEvent` of
-- services/api/internal/monitoring/service.go. What the network answers is a parameter: for the
-- n-th probe of a round, the time at its end and the milliseconds that it took, or an error.
pub mod Rows
mod Tests
use homelink_monitor.Base.{
  ℕ, suc, ◌+◌, Bool, true, false, not, Option, none, some, List, [], ◌∷◌, ◌++◌, Text, bytes,
  is_empty, if◌then◌else◌, Result, ok, err,
}
use homelink_monitor.Domain.{Time, Settings, LatencyCheck, DnsCheck, SpeedTest, NotificationEvent}
use homelink_monitor.Store.Checks.{insert_latency, insert_dns}
use homelink_monitor.Monitoring.Service.{Service, Setup, emit}
use homelink_monitor.Monitoring.Outage.{update_outage}

pub record Reply (F : Type 0) : Type 0 where
  pub checked : Time
  pub answer : Result F

abbrev pub latency_answer : {F : Type 0} → Time → Text → Result F → LatencyCheck F
latency_answer t target (err e) = record {
  id = 0;
  checked_at = t;
  target = target;
  latency_ms = none;
  success = false;
  error = e;
}
latency_answer t target (ok ms) = record {
  id = 0;
  checked_at = t;
  target = target;
  latency_ms = some ms;
  success = true;
  error = [];
}

unfoldable pub tcp_latency : {F : Type 0} → Text → Reply F → LatencyCheck F
tcp_latency target reply = latency_answer reply.checked target reply.answer

abbrev pub dns_answer : {F : Type 0} → Time → Text → Result F → DnsCheck F
dns_answer t name (err e) = record {
  id = 0;
  checked_at = t;
  domain = name;
  resolver = bytes "system";
  duration_ms = none;
  success = false;
  error = e;
}
dns_answer t name (ok ms) = record {
  id = 0;
  checked_at = t;
  domain = name;
  resolver = bytes "system";
  duration_ms = some ms;
  success = true;
  error = [];
}

unfoldable pub domain_check : {F : Type 0} → Text → Reply F → DnsCheck F
domain_check name reply = dns_answer reply.checked name reply.answer

unfoldable pub all_targets : {F : Type 0} → Settings F → List Text
all_targets settings =
    if is_empty settings.router_ip
    then settings.latency_targets
    else settings.latency_targets ++ settings.router_ip ∷ []

module _ {F : Type 0} (env : Setup F) where
  unfoldable pub latency_event : LatencyCheck F → NotificationEvent
  latency_event c = record {
    id = bytes "latency-" ++ c.target ++ bytes "-" ++ env.unix_nano c.checked_at;
    severity = bytes "warning";
    metric = bytes "latency";
    title = bytes "Latency check failed";
    message = bytes "Latency check to " ++ c.target ++ bytes " failed: " ++ c.error;
    timestamp = c.checked_at;
  }

  unfoldable pub dns_event : DnsCheck F → NotificationEvent
  dns_event c = record {
    id = bytes "dns-" ++ c.domain ++ bytes "-" ++ env.unix_nano c.checked_at;
    severity = bytes "warning";
    metric = bytes "dns";
    title = bytes "DNS check failed";
    message = bytes "DNS lookup for " ++ c.domain ++ bytes " failed: " ++ c.error;
    timestamp = c.checked_at;
  }

  -- The result is stored, an error of the store only logged, and a failure is announced.
  unfoldable pub record_latency : LatencyCheck F → Service F → Service F
  record_latency c s =
      let stored = record s { db = (insert_latency c s.db).1 } in
      if not c.success then emit env c.checked_at (latency_event c) stored else stored

  unfoldable pub record_dns : DnsCheck F → Service F → Service F
  record_dns c s =
      let stored = record s { db = (insert_dns c s.db).1 } in
      if not c.success then emit env c.checked_at (dns_event c) stored else stored

  -- The loop over the targets, with `allFailed` and `anySuccess`; `n` counts the probes.
  unfoldable pub probe_targets :
      (ℕ → Text → Reply F) → ℕ → List Text → Bool → Bool → Service F → (Bool × Bool) × Service F
  probe_targets dial n [] all_failed any_success s = ((all_failed, any_success), s)
  probe_targets dial n (target ∷ targets) all_failed any_success s =
      let c = tcp_latency target (dial n target) in
      probe_targets dial (suc n) targets (if c.success then false else all_failed)
        (if c.success then true else any_success) (record_latency c s)

  abbrev pub check_all :
      (ℕ → Text → Reply F) → Settings F → Time → List Text → Service F → Service F
  check_all dial settings now [] s = s
  check_all dial settings now (target ∷ targets) s =
      let (flags, done) = probe_targets dial 0 (target ∷ targets) true false s in
      update_outage env settings flags.0 flags.1 now done

  unfoldable pub check_latency : (ℕ → Text → Reply F) → Settings F → Time → Service F → Service F
  check_latency dial settings now s = check_all dial settings now (all_targets settings) s

  unfoldable pub probe_domains : (ℕ → Text → Reply F) → ℕ → List Text → Service F → Service F
  probe_domains look_up n [] s = s
  probe_domains look_up n (name ∷ names) s =
      probe_domains look_up (suc n) names (record_dns (domain_check name (look_up n name)) s)

  unfoldable pub check_dns : (ℕ → Text → Reply F) → Settings F → Service F → Service F
  check_dns look_up settings s = probe_domains look_up 0 settings.dns_domains s

  abbrev pub success_message : Option F → Option F → Text
  success_message (some down) (some up) =
      bytes "Speed test completed: "
      ++ env.one_decimal down
      ++ bytes " Mbps down, "
      ++ env.one_decimal up
      ++ bytes " Mbps up."
  success_message none up = bytes "Speed test completed successfully."
  success_message (some down) none = bytes "Speed test completed successfully."

  unfoldable pub speed_test_event : Time → SpeedTest F → NotificationEvent
  speed_test_event now t =
      if t.success
      then record {
        id = bytes "speedtest-success-" ++ env.unix_nano t.started_at;
        severity = bytes "info";
        metric = bytes "speedtest";
        title = bytes "Speed test completed";
        message = success_message t.download_mbps t.upload_mbps;
        timestamp = now;
      }
      else record {
        id = bytes "speedtest-failed-" ++ env.unix_nano t.started_at;
        severity = bytes "warning";
        metric = bytes "speedtest";
        title = bytes "Speed test failed";
        message = t.error;
        timestamp = now;
      }

  unfoldable pub emit_speed_test_event : Time → SpeedTest F → Service F → Service F
  emit_speed_test_event now t s = emit env now (speed_test_event now t) s
