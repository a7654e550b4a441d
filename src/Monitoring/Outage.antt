-- ===== src/Monitoring/Outage.antt =====
-- `updateOutage` of services/api/internal/monitoring/service.go.
pub mod Frame
pub mod Step
pub mod Rounds
mod Tests
use homelink_monitor.Base.{
  ℕ, ◌+◌, Bool, Option, ◌++◌, bytes, if◌then◌else◌, Result, ok, err, is_some,
}
use homelink_monitor.Domain.{Time, Settings, Outage, NotificationEvent}
use homelink_monitor.Store.Schema.{Db}
use homelink_monitor.Store.Outages.{active_outage, open_outage, close_active_outage}
use homelink_monitor.Monitoring.Decisions.{should_open_outage, should_close_outage}
use homelink_monitor.Monitoring.Service.{Service, Setup, emit}

abbrev pub next_count : Bool → ℕ → ℕ
next_count all_failed n = if all_failed then n + 1 else 0

module _ {F : Type 0} (env : Setup F) where
  unfoldable pub outage_opened : Time → NotificationEvent
  outage_opened now = record {
    id = bytes "outage-open-" ++ env.unix_nano now;
    severity = bytes "critical";
    metric = bytes "outage";
    title = bytes "Connection outage detected";
    message = bytes "All configured latency targets failed.";
    timestamp = now;
  }

  unfoldable pub outage_closed : Time → NotificationEvent
  outage_closed now = record {
    id = bytes "outage-close-" ++ env.unix_nano now;
    severity = bytes "recovery";
    metric = bytes "outage";
    title = bytes "Connection recovered";
    message = bytes "At least one configured latency target is reachable again.";
    timestamp = now;
  }

  -- After a statement: its error is logged, otherwise the event is emitted.
  abbrev announce : Time → NotificationEvent → Service F → Result (Unit {0}) × Db F → Service F
  announce now event s (err e, d) = record s { db = d }
  announce now event s (ok _, d) = emit env now event (record s { db = d })

  unfoldable pub try_open : Time → Service F → Service F
  try_open now s =
      announce now (outage_opened now) s (open_outage now (bytes "all latency targets failed") s.db)

  unfoldable pub try_close : Time → Service F → Service F
  try_close now s = announce now (outage_closed now) s (close_active_outage now s.db)

  -- `active` is the outage that was loaded before; `fail_count` is already that of this round.
  unfoldable pub react : Settings F → Bool → Time → Bool → Service F → Service F
  react settings any_success now active s =
      let opened =
        if should_open_outage s.fail_count settings.outage_failure_threshold active
        then try_open now s
        else s in
      if should_close_outage any_success active then try_close now opened else opened

  abbrev react_to :
      Settings F → Bool → Bool → Time → Service F → Result (Option Outage) × Db F → Service F
  react_to settings all_failed any_success now s (err e, d) = record s { db = d }
  react_to settings all_failed any_success now s (ok active, d) =
      react settings any_success now (is_some active)
        (record s { db = d; fail_count = next_count all_failed s.fail_count })

  -- `now` is the one reading of the clock that a round makes, when it opens or closes an outage.
  unfoldable pub update_outage : Settings F → Bool → Bool → Time → Service F → Service F
  update_outage settings all_failed any_success now s =
      react_to settings all_failed any_success now s (active_outage s.db)
