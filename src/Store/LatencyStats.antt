-- ===== src/Store/LatencyStats.antt =====
-- `LatencySummary` and `SpeedBoundsSince` of services/api/internal/store/store.go.
pub mod Best
pub mod Described
use homelink_monitor.Base.{
  ℕ, ◌+◌, Bool, ◌&&◌, Option, none, some, List, [], ◌∷◌, ok, Eff, ◌>>=◌, select, ◌==◌,
  if◌then◌else◌, ltb, Floats, ◌||◌, map,
}
use homelink_monitor.Domain.{Time, LatencySummary}
use homelink_monitor.Store.Stamp.{ts, stamp_le}
use homelink_monitor.Store.Schema.{Db, LatencyRow, SpeedTestRow, query, returns}
use homelink_monitor.Store.Checks.{not_before, not_after}

-- The variables of the loop over the rows.
pub record Tally (F : Type 0) : Type 0 where
  pub count : ℕ
  pub failed : ℕ
  pub ok_count : ℕ
  pub min : F
  pub max : F
  pub sum : F

-- The four bounds.
pub record SpeedBounds (F : Type 0) : Type 0 where
  pub min_down : Option F
  pub max_down : Option F
  pub min_up : Option F
  pub max_up : Option F

module _ {F : Type 0} (fl : Floats F) where
  abbrev pub new_tally : Tally F
  new_tally = record {
    count = 0;
    failed = 0;
    ok_count = 0;
    min = fl.of_nat 0;
    max = fl.of_nat 0;
    sum = fl.of_nat 0;
  }

  abbrev pub add_latency_value : F → Tally F → Tally F
  add_latency_value v t = record t {
    ok_count = t.ok_count + 1;
    min = if t.ok_count == 0 || fl.less v t.min then v else t.min;
    max = if t.ok_count == 0 || fl.less t.max v then v else t.max;
    sum = fl.plus t.sum v;
  }

  abbrev pub add_valid : Option F → Tally F → Tally F
  add_valid none t = t
  add_valid (some v) t = add_latency_value v t

  unfoldable pub add_row : LatencyRow F → Tally F → Tally F
  add_row r t =
      if r.success == 0
      then record t { count = t.count + 1; failed = t.failed + 1 }
      else add_valid r.latency_ms (record t { count = t.count + 1 })

  unfoldable pub tally : List (LatencyRow F) → Tally F → Tally F
  tally [] t = t
  tally (r ∷ rows) t = tally rows (add_row r t)

  abbrev pub if_any : ℕ → F → Option F
  if_any n v = if ltb 0 n then some v else none

  unfoldable pub summary_of : Tally F → LatencySummary F
  summary_of t = record {
    min_ms = if_any t.ok_count t.min;
    avg_ms = if_any t.ok_count (fl.over t.sum (fl.of_nat t.ok_count));
    max_ms = if_any t.ok_count t.max;
    packet_loss =
        if ltb 0 t.count
        then fl.times (fl.over (fl.of_nat t.failed) (fl.of_nat t.count)) (fl.of_nat 100)
        else fl.of_nat 0;
    count = t.count;
  }

  abbrev pub in_span : Option Time → Option Time → LatencyRow F → Bool
  in_span from to r = not_before from r.checked_at && not_after to r.checked_at

  unfoldable pub latency_summary : Option Time → Option Time → Eff (Db F) (LatencySummary F)
  latency_summary from to = do
    rows ← query (λ d. select (in_span from to) d.latency_checks.rows)
    returns (ok (summary_of (tally rows new_tally)))

  -- `MIN` and `MAX`, which skip NULL.
  unfoldable pub min_of : List (Option F) → Option F
  min_of [] = none
  min_of (none ∷ values) = min_of values
  min_of (some v ∷ values) = elim (min_of values) [
    | none ↦ some v
    | some m ↦ if fl.less m v then some m else some v
  ]

  unfoldable pub max_of : List (Option F) → Option F
  max_of [] = none
  max_of (none ∷ values) = max_of values
  max_of (some v ∷ values) = elim (max_of values) [
    | none ↦ some v
    | some m ↦ if fl.less v m then some m else some v
  ]

  abbrev pub is_recent : Time → SpeedTestRow F → Bool
  is_recent since r = (r.success == 1) && stamp_le (ts since) r.started_at

  abbrev pub bounds_of : List (SpeedTestRow F) → SpeedBounds F
  bounds_of rows = record {
    min_down = min_of (map (λ r. r.download_mbps) rows);
    max_down = max_of (map (λ r. r.download_mbps) rows);
    min_up = min_of (map (λ r. r.upload_mbps) rows);
    max_up = max_of (map (λ r. r.upload_mbps) rows);
  }

  unfoldable pub speed_bounds_since : Time → Eff (Db F) (SpeedBounds F)
  speed_bounds_since since = query (λ d. bounds_of (select (is_recent since) d.speed_tests.rows))
