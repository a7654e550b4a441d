-- ===== src/Monitoring/Sound.antt =====
-- The invariant of the service's state, and the rounds of the loops that keep it, whichever calls of
-- the database, the network, the router and the disk fail.
use homelink_monitor.Base.{ℕ, suc, Bool, true, false, not, List, [], ◌∷◌, Text, if-either}
use homelink_monitor.Domain.{Time, Settings, LatencyCheck, DnsCheck, NotificationEvent}
use homelink_monitor.Store.Sound.{
  IsSound, insert_latency-IsSound, insert_dns-IsSound, insert_router_traffic-IsSound,
}
use homelink_monitor.Store.Checks.{insert_latency, insert_dns}
use homelink_monitor.Store.RouterTraffic.{insert_router_traffic}
use homelink_monitor.Router.Provider.Cache.{IsValid}
use homelink_monitor.Router.Probe.Valid.{probe_and_collect-IsValid}
use homelink_monitor.Router.Probe.{Snapshot}
use homelink_monitor.Monitoring.Service.{Service, Setup, emit, emit-db, emit-router}
use homelink_monitor.Monitoring.Checks.{
  Reply, tcp_latency, latency_event, dns_event, record_latency, record_dns, probe_targets,
  check_all, check_latency, domain_check, probe_domains, check_dns, all_targets,
}
use homelink_monitor.Monitoring.Outage.Frame.{update_outage-router, update_outage-IsSound}
use homelink_monitor.Monitoring.RouterTraffic.{
  RouterTools, ProbeTimes, probe_router_traffic, record_snapshot, check_router_traffic,
}
use homelink_monitor.Monitoring.Trigger.{Shared}
use homelink_monitor.Monitoring.Trigger.Single.{IsSingle}

-- The database is sound, and a cached session of the router has a token.
abbrev pub IsHealthy : {F : Type 0} → Service F → Type 0
IsHealthy s = IsSound s.db × IsValid s.router

-- Besides, at most one speed test runs.
abbrev pub IsSafe : {F : Type 0} → Shared F → Type 0
IsSafe s = IsHealthy s.service × IsSingle s

module _ {F : Type 0} (env : Setup F) where
  pub emit-IsHealthy :
      (now : Time) (event : NotificationEvent) (s : Service F)
      → IsHealthy s
      → IsHealthy (emit env now event s)
  emit-IsHealthy now event s (sound, valid) =
      (rw (emit-db env now event s) sound, rw (emit-router env now event s) valid)

  record_latency-IsHealthy :
      (c : LatencyCheck F) (s : Service F) → IsHealthy s → IsHealthy (record_latency env c s)
  unfolding record_latency
  record_latency-IsHealthy c s (sound, valid) =
      let stored = record s { db = (insert_latency c s.db).1 } in
      let kept : IsHealthy stored = (insert_latency-IsSound c s.db sound, valid) in
      if-either (λ (t : Service F). IsHealthy t) (not c.success)
        (emit env c.checked_at (latency_event env c) stored) stored
        (emit-IsHealthy c.checked_at (latency_event env c) stored kept) kept

  record_dns-IsHealthy :
      (c : DnsCheck F) (s : Service F) → IsHealthy s → IsHealthy (record_dns env c s)
  unfolding record_dns
  record_dns-IsHealthy c s (sound, valid) =
      let stored = record s { db = (insert_dns c s.db).1 } in
      let kept : IsHealthy stored = (insert_dns-IsSound c s.db sound, valid) in
      if-either (λ (t : Service F). IsHealthy t) (not c.success)
        (emit env c.checked_at (dns_event env c) stored) stored
        (emit-IsHealthy c.checked_at (dns_event env c) stored kept) kept

  probe_targets-IsHealthy :
      (dial : ℕ → Text → Reply F) (n : ℕ) (targets : List Text) (failed reached : Bool)
      (s : Service F)
      → IsHealthy s
      → IsHealthy (probe_targets env dial n targets failed reached s).1
  unfolding probe_targets
  probe_targets-IsHealthy dial n [] failed reached s h = h
  probe_targets-IsHealthy dial n (target ∷ targets) failed reached s h =
      probe_targets-IsHealthy dial (suc n) targets _ _ _
        (record_latency-IsHealthy (tcp_latency target (dial n target)) s h)

  check_all-IsHealthy :
      (dial : ℕ → Text → Reply F) (x : Settings F) (now : Time) (targets : List Text)
      (s : Service F)
      → IsHealthy s
      → IsHealthy (check_all env dial x now targets s)
  check_all-IsHealthy dial x now [] s h = h
  check_all-IsHealthy dial x now (target ∷ targets) s h =
      let probed = probe_targets env dial 0 (target ∷ targets) true false s in
      let (sound, valid) = probe_targets-IsHealthy dial 0 (target ∷ targets) true false s h in
      (
        update_outage-IsSound env x probed.0.0 probed.0.1 now probed.1 sound,
        rw (update_outage-router env x probed.0.0 probed.0.1 now probed.1) valid,
      )

  pub check_latency-IsHealthy :
      (dial : ℕ → Text → Reply F) (x : Settings F) (now : Time) (s : Service F)
      → IsHealthy s
      → IsHealthy (check_latency env dial x now s)
  unfolding check_latency
  check_latency-IsHealthy dial x now s h = check_all-IsHealthy dial x now (all_targets x) s h

  probe_domains-IsHealthy :
      (look_up : ℕ → Text → Reply F) (n : ℕ) (names : List Text) (s : Service F)
      → IsHealthy s
      → IsHealthy (probe_domains env look_up n names s)
  unfolding probe_domains
  probe_domains-IsHealthy look_up n [] s h = h
  probe_domains-IsHealthy look_up n (name ∷ names) s h =
      probe_domains-IsHealthy look_up (suc n) names _
        (record_dns-IsHealthy (domain_check name (look_up n name)) s h)

  pub check_dns-IsHealthy :
      (look_up : ℕ → Text → Reply F) (x : Settings F) (s : Service F)
      → IsHealthy s
      → IsHealthy (check_dns env look_up x s)
  unfolding check_dns
  check_dns-IsHealthy look_up x s h = probe_domains-IsHealthy look_up 0 x.dns_domains s h

module _ {F : Type 0} (tools : RouterTools F) where
  pub probe_router_traffic-IsHealthy :
      (x : Settings F) (times : ProbeTimes) (s : Service F)
      → IsHealthy s
      → IsHealthy (probe_router_traffic tools x times s).1
  unfolding probe_router_traffic
  probe_router_traffic-IsHealthy x times s (sound, valid) =
      (sound, probe_and_collect-IsValid tools.floats tools.library _ times.0 times.1 s.router valid)

  record_snapshot-IsHealthy :
      (env : Setup F) (snapshot : Snapshot F) (s : Service F)
      → IsHealthy s
      → IsHealthy (record_snapshot env tools snapshot s)
  unfolding record_snapshot
  record_snapshot-IsHealthy env snapshot s (sound, valid) =
      let stored = record s {
        db = (insert_router_traffic tools.clients snapshot.sample snapshot.clients s.db).1;
      } in
      let kept : IsHealthy stored = (
        insert_router_traffic-IsSound tools.clients snapshot.sample snapshot.clients s.db sound,
        valid,
      ) in
      if-either (λ (t : Service F). IsHealthy t) _ _ _ (emit-IsHealthy env _ _ stored kept) kept

  pub check_router_traffic-IsHealthy :
      (env : Setup F) (x : Settings F) (times : ProbeTimes) (s : Service F)
      → IsHealthy s
      → IsHealthy (check_router_traffic env tools x times s)
  unfolding check_router_traffic
  check_router_traffic-IsHealthy env x times s h =
      record_snapshot-IsHealthy env _ _ (probe_router_traffic-IsHealthy x times s h)
