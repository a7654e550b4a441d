-- ===== src/Store/RouterTraffic.antt =====
-- The statements on `router_traffic_samples` (services/api/internal/store/router_traffic.go).
-- encoding/json is a parameter.
pub mod Stored
use homelink_monitor.Base.{
  ℕ, ◌+◌, Option, none, some, List, [], Text, is_empty, Result, ok, err, Eff, ◌>>=◌, take, head?,
  ◌==◌, if◌then◌else◌,
}
use homelink_monitor.Domain.{Time, RouterTrafficSample, RouterTrafficClient}
use homelink_monitor.Store.Stamp.{Stamp, ts, parse_ts}
use homelink_monitor.Store.Schema.{
  Db, RouterTrafficRow, statement, query, returns, insert_row, newest_first, scan_all, bool_int,
}

-- `Marshal` and `Unmarshal` of the list of clients.
pub record ClientsCodec (F : Type 0) : Type 0 where
  pub marshal : List (RouterTrafficClient F) → Result Text
  pub unmarshal : Text → Result (List (RouterTrafficClient F))

-- A sample and its clients, as a row holds them.
abbrev pub Stored : Type 0 → Type 0
Stored F = RouterTrafficSample F × List (RouterTrafficClient F)

module _ {F : Type 0} where
  abbrev pub traffic_row : RouterTrafficSample F → Text → ℕ → RouterTrafficRow F
  traffic_row sample raw n = record {
    id = n;
    checked_at = ts sample.checked_at;
    provider = sample.provider;
    success = bool_int sample.success;
    error = sample.error;
    client_count = sample.client_count;
    download_bps = sample.download_bps;
    upload_bps = sample.upload_bps;
    total_bps = sample.total_bps;
    download_available = bool_int sample.download_available;
    upload_available = bool_int sample.upload_available;
    total_traffic_available = bool_int sample.total_traffic_available;
    clients_json = raw;
  }

  unfoldable pub add_router_traffic : RouterTrafficSample F → Text → Db F → Db F
  add_router_traffic sample raw d = record d {
    router_traffic = insert_row (traffic_row sample raw) d.router_traffic;
  }

  abbrev pub traffic_key : RouterTrafficRow F → Stamp × ℕ
  traffic_key r = (r.checked_at, r.id)

  abbrev sample_of : RouterTrafficRow F → Time → RouterTrafficSample F
  sample_of r checked = record {
    id = r.id;
    checked_at = checked;
    provider = r.provider;
    success = r.success == 1;
    error = r.error;
    client_count = r.client_count;
    download_bps = r.download_bps;
    upload_bps = r.upload_bps;
    total_bps = r.total_bps;
    download_available = r.download_available == 1;
    upload_available = r.upload_available == 1;
    total_traffic_available = r.total_traffic_available == 1;
  }

module _ {F : Type 0} (codec : ClientsCodec F) where
  unfoldable pub insert_router_traffic :
      RouterTrafficSample F → List (RouterTrafficClient F) → Eff (Db F) ℕ
  insert_router_traffic sample clients = do
    raw ← returns (codec.marshal clients)
    statement (λ d. (ok (d.router_traffic.last_id + 1), add_router_traffic sample raw d))

  abbrev pub clients_in : Text → Result (List (RouterTrafficClient F))
  clients_in raw = if is_empty raw then ok [] else codec.unmarshal raw

  unfoldable pub scan_row : RouterTrafficRow F → Result (Stored F)
  scan_row r = elim (parse_ts r.checked_at) [
    | err e ↦ err e
    | ok t ↦ elim (clients_in r.clients_json) [
      | err e ↦ err e
      | ok clients ↦ ok (sample_of r t, clients)
    ]
  ]

  -- No row (`sql.ErrNoRows`) is no sample.
  unfoldable pub scan_router_traffic : Option (RouterTrafficRow F) → Result (Option (Stored F))
  scan_router_traffic none = ok none
  scan_router_traffic (some r) = elim (scan_row r) [ err e ↦ err e | ok x ↦ ok (some x) ]

  unfoldable pub latest_router_traffic : Eff (Db F) (Option (Stored F))
  latest_router_traffic = do
    row ← query (λ d. head? (newest_first traffic_key d.router_traffic.rows))
    returns (scan_router_traffic row)

  abbrev scan_sample : RouterTrafficRow F → Result (RouterTrafficSample F)
  scan_sample r = elim (scan_row r) [ err e ↦ err e | ok x ↦ ok x.0 ]

  -- `RouterTrafficSamples`, for a limit that is not negative.
  unfoldable pub router_traffic_samples : ℕ → Eff (Db F) (List (RouterTrafficSample F))
  router_traffic_samples limit = do
    rows ← query (λ d. take limit (newest_first traffic_key d.router_traffic.rows))
    returns (scan_all scan_sample rows)
