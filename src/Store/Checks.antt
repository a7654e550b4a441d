-- ===== src/Store/Checks.antt =====
-- The statements on `latency_checks` and `dns_checks` (services/api/internal/store/store.go).
use homelink_monitor.Base.{
  ℕ, ◌+◌, Bool, true, ◌&&◌, ◌||◌, Option, none, some, List, Text, text_eq, is_empty, Result, ok,
  err, Eff, ◌>>=◌, select, take, head?, ◌==◌,
}
use homelink_monitor.Domain.{Time, LatencyCheck, DnsCheck}
use homelink_monitor.Store.Stamp.{Stamp, ts, parse_ts, stamp_le}
use homelink_monitor.Store.Schema.{
  Db, LatencyRow, DnsRow, statement, query, returns, insert_row, newest_first, scan_all, bool_int,
}

-- `? IS NULL OR stamp >= ?`, and `? IS NULL OR stamp <= ?`.
abbrev pub not_before : Option Time → Stamp → Bool
not_before none s = true
not_before (some from) s = stamp_le (ts from) s

abbrev pub not_after : Option Time → Stamp → Bool
not_after none s = true
not_after (some to) s = stamp_le s (ts to)

module _ {F : Type 0} where
  abbrev pub latency_row : LatencyCheck F → ℕ → LatencyRow F
  latency_row item n = record {
    id = n;
    checked_at = ts item.checked_at;
    target = item.target;
    latency_ms = item.latency_ms;
    success = bool_int item.success;
    error = item.error;
  }

  unfoldable pub add_latency : LatencyCheck F → Db F → Db F
  add_latency item d = record d { latency_checks = insert_row (latency_row item) d.latency_checks }

  unfoldable pub insert_latency : LatencyCheck F → Eff (Db F) ℕ
  insert_latency item = statement (λ d. (ok (d.latency_checks.last_id + 1), add_latency item d))

  abbrev pub latency_key : LatencyRow F → Stamp × ℕ
  latency_key r = (r.checked_at, r.id)

  unfoldable pub scan_latency_rows : LatencyRow F → Result (LatencyCheck F)
  scan_latency_rows r = elim (parse_ts r.checked_at) [
    | err e ↦ err e
    | ok t ↦ ok (record {
      id = r.id;
      checked_at = t;
      target = r.target;
      latency_ms = r.latency_ms;
      success = r.success == 1;
      error = r.error;
    })
  ]

  unfoldable pub scan_latency : Option (LatencyRow F) → Result (Option (LatencyCheck F))
  scan_latency none = ok none
  scan_latency (some r) = elim (scan_latency_rows r) [ err e ↦ err e | ok c ↦ ok (some c) ]

  abbrev matches_latency : Text → Option Time → Option Time → LatencyRow F → Bool
  matches_latency target from to r =
      (is_empty target || text_eq r.target target)
      && not_before from r.checked_at
      && not_after to r.checked_at

  -- `Latency`, for a limit that is not negative.
  unfoldable pub latency : Text → ℕ → Option Time → Option Time → Eff (Db F) (List (LatencyCheck F))
  latency target limit from to = do
    rows ← query (λ d.
        take limit (
          newest_first latency_key (select (matches_latency target from to) d.latency_checks.rows)))
    returns (scan_all scan_latency_rows rows)

  unfoldable pub latest_latency : Eff (Db F) (Option (LatencyCheck F))
  latest_latency = do
    row ← query (λ d. head? (newest_first latency_key d.latency_checks.rows))
    returns (scan_latency row)

  abbrev pub dns_row : DnsCheck F → ℕ → DnsRow F
  dns_row item n = record {
    id = n;
    checked_at = ts item.checked_at;
    domain = item.domain;
    resolver = item.resolver;
    duration_ms = item.duration_ms;
    success = bool_int item.success;
    error = item.error;
  }

  unfoldable pub add_dns : DnsCheck F → Db F → Db F
  add_dns item d = record d { dns_checks = insert_row (dns_row item) d.dns_checks }

  unfoldable pub insert_dns : DnsCheck F → Eff (Db F) ℕ
  insert_dns item = statement (λ d. (ok (d.dns_checks.last_id + 1), add_dns item d))

  abbrev pub dns_key : DnsRow F → Stamp × ℕ
  dns_key r = (r.checked_at, r.id)

  unfoldable pub scan_dns_rows : DnsRow F → Result (DnsCheck F)
  scan_dns_rows r = elim (parse_ts r.checked_at) [
    | err e ↦ err e
    | ok t ↦ ok (record {
      id = r.id;
      checked_at = t;
      domain = r.domain;
      resolver = r.resolver;
      duration_ms = r.duration_ms;
      success = r.success == 1;
      error = r.error;
    })
  ]

  unfoldable pub scan_dns : Option (DnsRow F) → Result (Option (DnsCheck F))
  scan_dns none = ok none
  scan_dns (some r) = elim (scan_dns_rows r) [ err e ↦ err e | ok c ↦ ok (some c) ]

  unfoldable pub dns_checks : ℕ → Eff (Db F) (List (DnsCheck F))
  dns_checks limit = do
    rows ← query (λ d. take limit (newest_first dns_key d.dns_checks.rows))
    returns (scan_all scan_dns_rows rows)

  unfoldable pub latest_dns : Eff (Db F) (Option (DnsCheck F))
  latest_dns = do
    row ← query (λ d. head? (newest_first dns_key d.dns_checks.rows))
    returns (scan_dns row)
