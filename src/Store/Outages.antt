-- ===== src/Store/Outages.antt =====
-- The statements on `outages` (services/api/internal/store/store.go).
pub mod Laws
use homelink_monitor.Base.{
  ℕ, Bool, Option, none, some, List, Text, Result, ok, err, Eff, ◌>>=◌, if◌then◌else◌, length,
  select, take, head?, ltb, not, is_some,
}
use homelink_monitor.Domain.{Time, Outage}
use homelink_monitor.Store.Stamp.{Stamp, ts, parse_ts, stamp_le}
use homelink_monitor.Store.Schema.{
  Db, OutageRow, exec, query, returns, insert_row, update_where, newest_first, scan_all,
}

abbrev pub is_open : OutageRow → Bool
is_open r = not (is_some r.ended_at)

-- An optional stamp is read if it is there.
unfoldable pub parse_nullable : Option Stamp → Result (Option Time)
parse_nullable none = ok none
parse_nullable (some s) = elim (parse_ts s) [ err e ↦ err e | ok t ↦ ok (some t) ]

unfoldable pub scan_outage_rows : OutageRow → Result Outage
unfolding parse_nullable
scan_outage_rows r = elim (parse_ts r.started_at) [
  | err e ↦ err e
  | ok t ↦ elim (parse_nullable r.ended_at) [
    | err e ↦ err e
    | ok ended ↦ ok (record { id = r.id; started_at = t; ended_at = ended; reason = r.reason })
  ]
]

-- No row (`sql.ErrNoRows`) is no outage.
unfoldable pub scan_outage : Option OutageRow → Result (Option Outage)
unfolding scan_outage_rows
scan_outage none = ok none
scan_outage (some r) = elim (scan_outage_rows r) [ err e ↦ err e | ok o ↦ ok (some o) ]

abbrev pub outage_key : OutageRow → Stamp × ℕ
outage_key r = (r.started_at, r.id)

module _ {F : Type 0} where
  -- The `INSERT` of `OpenOutage`.
  unfoldable pub insert_outage : Time → Text → Db F → Db F
  insert_outage started reason d = record d {
    outages =
        insert_row
          (λ n. record { id = n; started_at = ts started; ended_at = none; reason = reason })
          d.outages;
  }

  unfoldable pub count_open : Db F → ℕ
  count_open d = length (select is_open d.outages.rows)

  unfoldable pub open_outage : Time → Text → Eff (Db F) (Unit {0})
  open_outage started reason = do
    active ← query count_open
    if ltb 0 active then returns (ok tt) else exec (insert_outage started reason)

  -- `UPDATE outages SET ended_at = ? WHERE ended_at IS NULL`.
  unfoldable pub end_outages : Time → Db F → Db F
  end_outages ended d = record d {
    outages = record (d.outages) {
      rows = update_where is_open (λ r. record r { ended_at = some (ts ended) }) d.outages.rows;
    };
  }

  unfoldable pub close_active_outage : Time → Eff (Db F) (Unit {0})
  close_active_outage ended = exec (end_outages ended)

  unfoldable pub select_active : Db F → Option OutageRow
  select_active d = head? (newest_first outage_key (select is_open d.outages.rows))

  unfoldable pub active_outage : Eff (Db F) (Option Outage)
  active_outage = do row ← query select_active; returns (scan_outage row)

  unfoldable pub list_outages : ℕ → Eff (Db F) (List Outage)
  list_outages limit = do
    rows ← query (λ d. take limit (newest_first outage_key d.outages.rows))
    returns (scan_all scan_outage_rows rows)

  unfoldable pub outage_count_since : Time → Eff (Db F) ℕ
  outage_count_since since =
      query (λ d. length (select (λ r. stamp_le (ts since) r.started_at) d.outages.rows))
