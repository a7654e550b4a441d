-- ===== src/Store/SpeedTests.antt =====
-- The statements on `speed_tests` (services/api/internal/store/store.go).
pub mod Latest
use homelink_monitor.Base.{
  ℕ, ◌+◌, Bool, ◌&&◌, Option, none, some, List, Result, ok, err, Eff, ◌>>=◌, select, take, drop,
  head?, ◌==◌,
}
use homelink_monitor.Domain.{Time, SpeedTest}
use homelink_monitor.Store.Stamp.{Stamp, ts, parse_ts}
use homelink_monitor.Store.Schema.{
  Db, SpeedTestRow, statement, query, returns, insert_row, newest_first, scan_all, bool_int,
}
use homelink_monitor.Store.Checks.{not_before, not_after}

-- `nullableTime`.
abbrev pub nullable_time : Option Time → Option Stamp
nullable_time none = none
nullable_time (some t) = some (ts t)

unfoldable pub scan_time : Option Stamp → Result (Option Time)
scan_time none = ok none
scan_time (some s) = elim (parse_ts s) [ err e ↦ err e | ok t ↦ ok (some t) ]

module _ {F : Type 0} where
  abbrev pub speed_row : SpeedTest F → ℕ → SpeedTestRow F
  speed_row item n = record {
    id = n;
    started_at = ts item.started_at;
    finished_at = nullable_time item.finished_at;
    download_mbps = item.download_mbps;
    upload_mbps = item.upload_mbps;
    ping_ms = item.ping_ms;
    jitter_ms = item.jitter_ms;
    server_name = item.server_name;
    server_location = item.server_location;
    success = bool_int item.success;
    error = item.error;
  }

  abbrev speed_of : SpeedTestRow F → Time → Option Time → SpeedTest F
  speed_of r started finished = record {
    id = r.id;
    started_at = started;
    finished_at = finished;
    download_mbps = r.download_mbps;
    upload_mbps = r.upload_mbps;
    ping_ms = r.ping_ms;
    jitter_ms = r.jitter_ms;
    server_name = r.server_name;
    server_location = r.server_location;
    success = r.success == 1;
    error = r.error;
  }

  unfoldable pub add_speed_test : SpeedTest F → Db F → Db F
  add_speed_test item d = record d { speed_tests = insert_row (speed_row item) d.speed_tests }

  unfoldable pub insert_speed_test : SpeedTest F → Eff (Db F) ℕ
  insert_speed_test item = statement (λ d. (ok (d.speed_tests.last_id + 1), add_speed_test item d))

  abbrev pub speed_key : SpeedTestRow F → Stamp × ℕ
  speed_key r = (r.started_at, r.id)

  unfoldable pub scan_speed_any : SpeedTestRow F → Result (SpeedTest F)
  scan_speed_any r = elim (parse_ts r.started_at) [
    | err e ↦ err e
    | ok started ↦ elim (scan_time r.finished_at) [
      | err e ↦ err e
      | ok finished ↦ ok (speed_of r started finished)
    ]
  ]

  -- No row (`sql.ErrNoRows`) is no speed test.
  unfoldable pub scan_speed : Option (SpeedTestRow F) → Result (Option (SpeedTest F))
  scan_speed none = ok none
  scan_speed (some r) = elim (scan_speed_any r) [ err e ↦ err e | ok t ↦ ok (some t) ]

  unfoldable pub latest_speed_test : Eff (Db F) (Option (SpeedTest F))
  latest_speed_test = do
    row ← query (λ d. head? (newest_first speed_key d.speed_tests.rows))
    returns (scan_speed row)

  abbrev in_range : Option Time → Option Time → SpeedTestRow F → Bool
  in_range from to r = not_before from r.started_at && not_after to r.started_at

  -- `SpeedTests`, for a limit and an offset that are not negative.
  unfoldable pub speed_tests : ℕ → ℕ → Option Time → Option Time → Eff (Db F) (List (SpeedTest F))
  speed_tests limit offset from to = do
    rows ← query (λ d.
        take limit
          (drop offset (newest_first speed_key (select (in_range from to) d.speed_tests.rows))))
    returns (scan_all scan_speed_any rows)
