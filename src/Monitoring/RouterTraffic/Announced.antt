-- ===== src/Monitoring/RouterTraffic/Announced.antt =====
-- A failed check of the router is announced, and what it stored is read back.
use homelink_monitor.Base.{
  ◌+◌, ◌≡◌, refl, ap, ◌∙◌, false, not, ◌&&◌, some, [], Text, is_empty, ok, if◌then◌else◌, All,
  Bool-cases, inl, inr,
}
use homelink_monitor.Domain.{Settings}
use homelink_monitor.Store.RouterTraffic.{insert_router_traffic, latest_router_traffic}
use homelink_monitor.Store.RouterTraffic.Stored.{
  IsOlder, latest_router_traffic-insert_router_traffic,
}
use homelink_monitor.Router.Probe.{Snapshot}
use homelink_monitor.Router.Probe.Coherent.{IsCoherent, probe_and_collect-IsCoherent}
use homelink_monitor.Monitoring.Service.{Service, Setup, emit, emit-db}
use homelink_monitor.Monitoring.RouterTraffic.{
  RouterTools, ProbeTimes, probe_router_traffic, traffic_event, record_snapshot,
  check_router_traffic,
}

module _ {F : Type 0} (env : Setup F) (tools : RouterTools F) where
  -- The snapshot of a check, and the service with it stored.
  abbrev pub snapshot_of : Settings F → ProbeTimes → Service F → Snapshot F
  snapshot_of settings times s = (probe_router_traffic tools settings times s).0

  abbrev pub stored_by : Settings F → ProbeTimes → Service F → Service F
  stored_by settings times s =
      let (snapshot, probed) = probe_router_traffic tools settings times s in
      record probed {
        db = (insert_router_traffic tools.clients snapshot.sample snapshot.clients s.db).1;
      }

  probe_router_traffic-IsCoherent :
      (settings : Settings F) (times : ProbeTimes) (s : Service F)
      → IsCoherent (snapshot_of settings times s)
  unfolding probe_router_traffic
  probe_router_traffic-IsCoherent settings times s =
      probe_and_collect-IsCoherent tools.floats tools.library _ times.0 times.1 s.router

  -- Whatever the router answers and whatever fails, `checkRouterTraffic` stores the snapshot, and
  -- then emits its event exactly if the snapshot did not succeed: a failure has the text of an error,
  -- so that the guard on the empty text never holds an event back.
  pub check_router_traffic_lem :
      (settings : Settings F) (times : ProbeTimes) (s : Service F)
      → check_router_traffic env tools settings times s ≡ (
          let sample = (snapshot_of settings times s).sample in
          if sample.success
          then stored_by settings times s
          else emit env sample.checked_at
              (traffic_event env tools sample)
              (stored_by settings times s))
  unfolding check_router_traffic record_snapshot probe_router_traffic
  check_router_traffic_lem settings times s =
      let said = (probe_router_traffic-IsCoherent settings times s).explained in
      elim (Bool-cases (snapshot_of settings times s).sample.success) [
        | inl e ↦ rw e refl
        | inr e ↦ rw (e, said ∙ e) refl
      ]

  check_router_traffic-db :
      (settings : Settings F) (times : ProbeTimes) (s : Service F)
      → (check_router_traffic env tools settings times s).db ≡ (stored_by settings times s).db
  unfolding check_router_traffic record_snapshot probe_router_traffic
  check_router_traffic-db settings times s =
      let sample = (snapshot_of settings times s).sample in
      let stored = stored_by settings times s in
      elim (Bool-cases (not sample.success && not (is_empty sample.error))) [
        | inl e ↦ rw e (emit-db env sample.checked_at (traffic_event env tools sample) stored)
        | inr e ↦ rw e refl
      ]

  -- If no statement fails, encoding/json decodes the text, which is not empty, that it made of the
  -- clients, and no stored sample is later (by the texts of the times): after `checkRouterTraffic`,
  -- `LatestRouterTraffic` returns the sample and the clients of the snapshot that the router gave.
  pub latest_router_traffic-check_router_traffic :
      (settings : Settings F) (times : ProbeTimes) (s : Service F) (raw : Text)
      → tools.clients.marshal (snapshot_of settings times s).clients ≡ ok raw
      → is_empty raw ≡ false
      → tools.clients.unmarshal raw ≡ ok (snapshot_of settings times s).clients
      → s.db.faults ≡ []
      → All
          (IsOlder (snapshot_of settings times s).sample.checked_at s.db.router_traffic.last_id)
          s.db.router_traffic.rows
      → (latest_router_traffic tools.clients (check_router_traffic env tools settings times s).db).0
        ≡ ok (
            some (
              record ((snapshot_of settings times s).sample) {
                id = s.db.router_traffic.last_id + 1;
              },
              (snapshot_of settings times s).clients,
            ))
  latest_router_traffic-check_router_traffic settings times s raw encodes full decodes f older =
      let snapshot = snapshot_of settings times s in
      ap (λ d. (latest_router_traffic tools.clients d).0) (check_router_traffic-db settings times s)
      ∙ ap (λ x. x.0)
          (latest_router_traffic-insert_router_traffic tools.clients snapshot.sample
            snapshot.clients raw s.db encodes full decodes f older)
