-- ===== src/Monitoring/RouterTraffic.antt =====
-- `ProbeRouterTraffic` and `checkRouterTraffic` of services/api/internal/monitoring/service.go.
pub mod Announced
use homelink_monitor.Base.{not, ◌&&◌, bytes, ◌++◌, is_empty, if◌then◌else◌, Floats}
use homelink_monitor.Domain.{Settings, RouterTrafficSample, NotificationEvent}
use homelink_monitor.Store.RouterTraffic.{ClientsCodec, insert_router_traffic}
use homelink_monitor.Router.Library.{Library}
use homelink_monitor.Router.Provider.{RouterSettings, Readings}
use homelink_monitor.Router.Probe.{Snapshot, probe_and_collect}
use homelink_monitor.Monitoring.Service.{Service, Setup, emit}

-- What the check calls: the router's libraries, float64, and the JSON of clients.
pub record RouterTools (F : Type 0) : Type 0 where
  pub floats : Floats F
  pub library : Library F
  pub clients : ClientsCodec F

-- The clock's readings in the probe of the URL, and in that of its HTTPS variant.
abbrev pub ProbeTimes : Type 0
ProbeTimes = Readings × Readings

module _ {F : Type 0} (tools : RouterTools F) where
  abbrev router_settings : Settings F → RouterSettings
  router_settings settings = record {
    url = settings.router_traffic_url;
    username = settings.router_traffic_username;
    password = settings.router_traffic_password;
  }

  unfoldable pub probe_router_traffic : Settings F → ProbeTimes → Service F → Snapshot F × Service F
  probe_router_traffic settings times s =
      let (snapshot, hub) =
        probe_and_collect tools.floats tools.library (router_settings settings) times.0 times.1
          s.router in
      (snapshot, record s { router = hub })

module _ {F : Type 0} (env : Setup F) (tools : RouterTools F) where
  unfoldable pub traffic_event : RouterTrafficSample F → NotificationEvent
  traffic_event sample = record {
    id = bytes "router-traffic-failed-" ++ env.unix_nano sample.checked_at;
    severity = bytes "warning";
    metric = bytes "connection";
    title = bytes "Router traffic check failed";
    message = sample.error;
    timestamp = sample.checked_at;
  }

  -- The snapshot is stored, an error of the store only logged, and a failure is announced.
  unfoldable pub record_snapshot : Snapshot F → Service F → Service F
  record_snapshot snapshot s =
      let stored = record s {
        db = (insert_router_traffic tools.clients snapshot.sample snapshot.clients s.db).1;
      } in
      if not snapshot.sample.success && not (is_empty snapshot.sample.error)
      then emit env snapshot.sample.checked_at (traffic_event snapshot.sample) stored
      else stored

  unfoldable pub check_router_traffic : Settings F → ProbeTimes → Service F → Service F
  check_router_traffic settings times s =
      let (snapshot, probed) = probe_router_traffic tools settings times s in
      record_snapshot snapshot probed
