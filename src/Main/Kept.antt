-- ===== src/Main/Kept.antt =====
-- What holds in every state that the program reaches.
use homelink_monitor.Base.{◌≤◌, ◌≡◌, refl, length, if◌then◌else◌}
use homelink_monitor.Events.Disk.{Disk}
use homelink_monitor.Migrations.{Database}
use homelink_monitor.Store.Schema.{Db}
use homelink_monitor.Store.Users.Accounts.{IsDistinct}
use homelink_monitor.Store.Outages.{count_open}
use homelink_monitor.Store.Sound.{IsKeyed, outages_only, IsValid-outages}
use homelink_monitor.Router.Provider.Cache
use homelink_monitor.Monitoring.Sound.{IsSafe}
use homelink_monitor.Monitoring.Loops.Sound.{
  latency_round-IsHealthy, dns_round-IsHealthy, router_traffic_round-IsHealthy, speed_round-IsSafe,
  advance-IsHealthy,
}
use homelink_monitor.Monitoring.Trigger
use homelink_monitor.Monitoring.Trigger.{Shared}
use homelink_monitor.Monitoring.Trigger.Single.{Step-IsSingle}
use homelink_monitor.HttpApi.Serve.Sound.{serve-IsSafe}
use homelink_monitor.Main.{
  Host, Running, Program, serving, open_on, start, server_of, setup_of, tools_of, Step, requests,
  latency, dns, traffic, speed, moves, ends, Reachable, at_start, after,
}
use homelink_monitor.Main.Started.{start-IsReady}

module _ {F : Type 0} (program : Program F) (r : Running F) where
  Step-IsSafe : {s t : Shared F} → Step program r s t → IsSafe s → IsSafe t
  Step-IsSafe {s} (requests call moment) h = serve-IsSafe (server_of program r) call moment s h
  Step-IsSafe {s} (latency cancelled dial now) (healthy, single) = (
    latency_round-IsHealthy program.tools.floats program.tools.codec (setup_of program r cancelled)
        s.service healthy dial now,
    single,
  )
  Step-IsSafe {s} (dns cancelled look_up) (healthy, single) = (
    dns_round-IsHealthy program.tools.floats program.tools.codec (setup_of program r cancelled)
        s.service healthy look_up,
    single,
  )
  Step-IsSafe {s} (traffic cancelled times) (healthy, single) = (
    router_traffic_round-IsHealthy program.tools.floats program.tools.codec
        (setup_of program r cancelled) s.service healthy program.server.tools times,
    single,
  )
  Step-IsSafe {s} (speed now) h =
      speed_round-IsSafe program.tools.floats program.tools.codec now s h
  Step-IsSafe {s} (moves o before job rest e) (healthy, single) = (
    advance-IsHealthy (tools_of program r) o job s.service healthy,
    Step-IsSingle (tools_of program r) s _ (Trigger.moves o before job rest e) single,
  )
  Step-IsSafe {s} (ends before rest e) (healthy, single) =
      (healthy, Step-IsSingle (tools_of program r) s _ (Trigger.ends before rest e) single)

  Reachable-IsSafe : {s : Shared F} → IsSafe r.state → Reachable program r s → IsSafe s
  Reachable-IsSafe h at_start = h
  Reachable-IsSafe h (after reached step) = Step-IsSafe step (Reachable-IsSafe h reached)

-- What an administrator relies on: there is a user, no key stands twice among the users, at most one
-- outage is open, a cached session of the router has a token, and the jobs of speed tests are none or
-- one, as the flag says.
pub record IsInOrder {F : Type 0} (s : Shared F) : Type 0 where
  pub some_user : 1 ≤ length s.service.db.users.rows
  pub distinct : IsDistinct s.service.db.users.rows
  pub one_open : count_open s.service.db ≤ 1
  pub cached : Cache.IsValid s.service.router
  pub one_job : length s.jobs ≡ (if s.speed_active then 1 else 0)

IsInOrder-IsSafe : {F : Type 0} (s : Shared F) → IsSafe s → IsInOrder s
IsInOrder-IsSafe s ((((keys, valid), some_), cached), single) = record {
  some_user = some_;
  distinct = keys.0;
  one_open = (IsValid-outages (outages_only s.service.db.outages) s.service.db refl valid).one_open;
  cached = cached;
  one_job = single;
}

-- If the program serves, on tables whose users have keys of their own and whose outages are valid
-- once the migrations have run, then every state that it reaches is in order, whatever requests,
-- rounds and moves of speed tests it makes in whatever order, each uninterrupted, and whatever fails:
-- there is a user, no key stands twice, at most one outage is open, a cached session of the router has
-- a token, and at most one speed test runs.
pub Reachable-IsInOrder :
    {F : Type 0} (host : Host F) (disk : Disk) (d : Database (Db F)) (r : Running F)
    (program : Program F) (s : Shared F)
    → IsKeyed (open_on host d).1.catalog.tables
    → start host disk d ≡ serving r
    → Reachable program r s
    → IsInOrder s
Reachable-IsInOrder host disk d r program s keyed served reached =
    IsInOrder-IsSafe s
      (Reachable-IsSafe program r (start-IsReady host disk d r keyed served).0 reached)
