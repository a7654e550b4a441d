-- ===== src/Store/RouterTraffic/Stored.antt =====
-- The sample that was stored last is the one that is read.
use homelink_monitor.Base.{
  ℕ, ◌+◌, ◌≡◌, ◌≤◌, refl, ap, ◌∙◌, true, false, some, List, [], ◌∷◌, Text, ok, head?, is_empty, All,
  arith,
}
use homelink_monitor.Domain.{Time, RouterTrafficSample, RouterTrafficClient}
use homelink_monitor.Store.Stamp.{ts, parse_ts-ts, stamp_lt}
use homelink_monitor.Store.Schema.{Db, RouterTrafficRow, newer, newest_first}
use homelink_monitor.Store.Schema.Rules.{execute_of_nil}
use homelink_monitor.Store.Schema.Order.{head?-newest_first, bool_int_back}
use homelink_monitor.Store.RouterTraffic.{
  ClientsCodec, traffic_row, traffic_key, add_router_traffic, insert_router_traffic, scan_row,
  scan_router_traffic, latest_router_traffic,
}

module _ {F : Type 0} where
  -- The sample was checked no later than the time, by their texts, and its key has been given.
  abbrev pub IsOlder : Time → ℕ → RouterTrafficRow F → Type 0
  IsOlder t last_id x = (stamp_lt (ts t) x.checked_at ≡ false) × (x.id ≤ last_id)

  newer_of_older :
      (sample : RouterTrafficSample F) (raw : Text) (last_id : ℕ) (rows : List (RouterTrafficRow F))
      → All (IsOlder sample.checked_at last_id) rows
      → All
          (λ x. newer (traffic_key (traffic_row sample raw (last_id + 1))) (traffic_key x) ≡ true)
          rows
  newer_of_older sample raw last_id [] h = tt
  newer_of_older sample raw last_id (x ∷ rows) (older, h) =
      (ground arith, newer_of_older sample raw last_id rows h)

module _ {F : Type 0} (codec : ClientsCodec F) where
  scan_row-traffic_row :
      (sample : RouterTrafficSample F) (clients : List (RouterTrafficClient F)) (raw : Text) (n : ℕ)
      → is_empty raw ≡ false
      → codec.unmarshal raw ≡ ok clients
      → scan_row codec (traffic_row sample raw n) ≡ ok (record sample { id = n }, clients)
  unfolding scan_row
  scan_row-traffic_row sample clients raw n full back =
      rw
        (
          scan_row,
          parse_ts-ts sample.checked_at,
          full,
          back,
          bool_int_back sample.success,
          bool_int_back sample.download_available,
          bool_int_back sample.upload_available,
          bool_int_back sample.total_traffic_available,
        )
        refl

  insert_router_traffic_of :
      (sample : RouterTrafficSample F) (clients : List (RouterTrafficClient F)) (raw : Text)
      (d : Db F)
      → d.faults ≡ []
      → codec.marshal clients ≡ ok raw
      → insert_router_traffic codec sample clients d
        ≡ (ok (d.router_traffic.last_id + 1), add_router_traffic sample raw d)
  unfolding insert_router_traffic
  insert_router_traffic_of sample clients raw d f e = rw e (
      execute_of_nil (λ d'. (ok (d'.router_traffic.last_id + 1), add_router_traffic sample raw d'))
        d f)

  latest_router_traffic_of :
      (d : Db F)
      → d.faults ≡ []
      → latest_router_traffic codec d
        ≡ (scan_router_traffic codec (head? (newest_first traffic_key d.router_traffic.rows)), d)
  unfolding latest_router_traffic
  latest_router_traffic_of d f =
      rw
        (execute_of_nil (λ d'. (ok (head? (newest_first traffic_key d'.router_traffic.rows)), d')) d
          f)
        refl

  latest_added :
      (sample : RouterTrafficSample F) (raw : Text) (d : Db F)
      → All (IsOlder sample.checked_at d.router_traffic.last_id) d.router_traffic.rows
      → head? (newest_first traffic_key (add_router_traffic sample raw d).router_traffic.rows)
        ≡ some (traffic_row sample raw (d.router_traffic.last_id + 1))
  unfolding add_router_traffic
  latest_added sample raw d older =
      head?-newest_first traffic_key (traffic_row sample raw (d.router_traffic.last_id + 1))
        d.router_traffic.rows
        (newer_of_older sample raw d.router_traffic.last_id d.router_traffic.rows older)

  -- If encoding/json decodes the text, which is not empty, that it made of the clients, and no
  -- statement fails, then a sample that was checked no earlier than the stored ones (by the texts of
  -- the times) is, once inserted, the one that `LatestRouterTraffic` returns, with its clients and
  -- each field as it was but for the new key.
  pub latest_router_traffic-insert_router_traffic :
      (sample : RouterTrafficSample F) (clients : List (RouterTrafficClient F)) (raw : Text)
      (d : Db F)
      → codec.marshal clients ≡ ok raw
      → is_empty raw ≡ false
      → codec.unmarshal raw ≡ ok clients
      → d.faults ≡ []
      → All (IsOlder sample.checked_at d.router_traffic.last_id) d.router_traffic.rows
      → latest_router_traffic codec (insert_router_traffic codec sample clients d).1 ≡ (
        ok (some (record sample { id = d.router_traffic.last_id + 1 }, clients)),
        add_router_traffic sample raw d,
      )
  unfolding add_router_traffic scan_router_traffic
  latest_router_traffic-insert_router_traffic sample clients raw d e full back f older =
      ap (λ x. latest_router_traffic codec x.1) (insert_router_traffic_of sample clients raw d f e)
      ∙ latest_router_traffic_of (add_router_traffic sample raw d) f
      ∙ ap (λ row. (scan_router_traffic codec row, add_router_traffic sample raw d))
          (latest_added sample raw d older)
      ∙ rw
          (
            scan_router_traffic,
            scan_row-traffic_row sample clients raw (d.router_traffic.last_id + 1) full back,
          )
          refl
