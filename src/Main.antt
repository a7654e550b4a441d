-- ===== src/Main.antt =====
-- services/api/cmd/server/main.go: the start of the program, and the steps that it makes from then on.
-- Signals, the listener and the shutdown are left out: they only end the program.
pub mod Started
pub mod Kept
mod Tests
use homelink_monitor.Base.{
  ℕ, Bool, false, ◌&&◌, not, ◌≡◌, Option, none, some, List, [], ◌∷◌, ◌++◌, Text, bytes, is_empty,
  Result, ok, err, if◌then◌else◌,
}
use homelink_monitor.Domain.{Time}
use homelink_monitor.Config.{Config, load}
use homelink_monitor.Migrations.{Catalog, Database}
use homelink_monitor.Migrations.Open.{open_database}
use homelink_monitor.Store.Schema.{Db}
use homelink_monitor.Events.Disk.{Disk}
use homelink_monitor.Events.Outbox.{Outbox}
use homelink_monitor.Auth.{Bcrypt, ensure_initial_admin}
use homelink_monitor.Router.Provider.{empty_hub}
use homelink_monitor.Monitoring.Service.{Service, Setup}
use homelink_monitor.Monitoring.Checks.{Reply}
use homelink_monitor.Monitoring.RouterTraffic.{ProbeTimes}
use homelink_monitor.Monitoring.Trigger.{Shared, Job, ending, Tools, Outside, advance}
use homelink_monitor.Monitoring.Loops.{latency_round, dns_round, router_traffic_round, speed_round}
use homelink_monitor.HttpApi.Serve.{Server, Call, Moment, serve}

-- What `main` calls: the environment, the driver and its statements, bcrypt, and the clock.
pub record Host (F : Type 0) : Type 0 where
  pub getenv : Text → Text
  pub driver : Option Text
  pub show : ℕ → Text
  pub run : Text → Catalog (Db F) → Result (Catalog (Db F))
  pub migrations : List Text
  pub bcrypt : Bcrypt
  pub now : Time

-- The program once it serves: what the configuration fixes, and its state.
pub record Running (F : Type 0) : Type 0 where
  pub outbox : Option Outbox
  pub cookie_secure : Bool
  pub static_dir : Text
  pub state : Shared F

-- `main` exits with a message and an error, or serves.
pub data Start (F : Type 0) : Type 0 where
  exited : Text → Text → Start F
  serving : Running F → Start F

-- `NewServiceWithOutbox` replaces `NewService` if notifications are on and have a directory.
unfoldable pub outbox_of : Config → Option Outbox
outbox_of cfg =
    if cfg.dsm_notifications_enabled && not (is_empty cfg.event_outbox_dir)
    then some (record { dir = cfg.event_outbox_dir })
    else none

module _ {F : Type 0} where
  abbrev pub new_state : Db F → Disk → Shared F
  new_state db disk = record {
    service = record { db = db; disk = disk; fail_count = 0; router = empty_hub };
    speed_active = false;
    jobs = [];
  }

  abbrev pub seeded : Config → Disk → Result (Unit {0}) × Db F → Start F
  seeded cfg disk (err e, db) = exited (bytes "seed initial admin") e
  seeded cfg disk (ok _, db) = serving (record {
    outbox = outbox_of cfg;
    cookie_secure = cfg.auth_cookie_secure;
    static_dir = cfg.static_path;
    state = new_state db disk;
  })

  abbrev pub opened : Host F → Config → Disk → Result (Unit {0}) × Database (Db F) → Start F
  opened host cfg disk (err e, d) = exited (bytes "open database") e
  opened host cfg disk (ok _, d) = seeded cfg disk (
      ensure_initial_admin host.bcrypt cfg.admin_username cfg.admin_password host.now
        d.catalog.tables)

  -- The database that `Open` leaves.
  abbrev pub open_on : Host F → Database (Db F) → Result (Unit {0}) × Database (Db F)
  open_on host d = open_database host.show host.run host.driver host.migrations d

  unfoldable pub start : Host F → Disk → Database (Db F) → Start F
  start host disk d = opened host (load host.getenv) disk (open_on host d)

-- The libraries that the running program calls.
pub record Program (F : Type 0) : Type 0 where
  pub server : Server F
  pub tools : Tools F

module _ {F : Type 0} (program : Program F) (r : Running F) where
  abbrev pub server_of : Server F
  server_of = record (program.server) { cookie_secure = r.cookie_secure; static_dir = r.static_dir }

  -- The setup of the service; `cancelled` is the error of the context.
  abbrev pub setup_of : Option Text → Setup F
  setup_of cancelled = record (program.tools.setup) { outbox = r.outbox; cancelled = cancelled }

  abbrev pub tools_of : Tools F
  tools_of = record (program.tools) { setup = setup_of none }

  abbrev pub with_service : Shared F → Service F → Shared F
  with_service s service = record s { service = service }

  -- A step of the program: a request, a round of a loop, or a move of a speed test. Each runs here
  -- without another between its statements.
  pub data Step (s : Shared F) : Shared F → Type 0 where
    requests : (call : Call F) (moment : Moment) → Step s (serve server_of call moment s).1
    latency :
        (cancelled : Option Text) (dial : ℕ → Text → Reply F) (now : Time)
        → Step s (
            with_service s
              (latency_round program.tools.floats program.tools.codec
                (setup_of cancelled)
                dial
                now
                s.service).1)
    dns :
        (cancelled : Option Text) (look_up : ℕ → Text → Reply F)
        → Step s (
            with_service s
              (dns_round program.tools.floats program.tools.codec
                (setup_of cancelled)
                look_up
                s.service).1)
    traffic :
        (cancelled : Option Text) (times : ProbeTimes)
        → Step s (
            with_service s
              (router_traffic_round program.tools.floats program.tools.codec
                (setup_of cancelled)
                program.server.tools
                times
                s.service).1)
    speed : (now : Time) → Step s (speed_round program.tools.floats program.tools.codec now s).1
    moves :
        (o : Outside) (before : List (Job F)) (job : Job F) (after : List (Job F))
        → s.jobs ≡ before ++ job ∷ after
        → Step s (record s {
          service = (advance tools_of o job s.service).1;
          jobs = before ++ (advance tools_of o job s.service).0 ∷ after;
        })
    ends :
        (before after : List (Job F))
        → s.jobs ≡ before ++ ending ∷ after
        → Step s (record s { speed_active = false; jobs = before ++ after })

  -- The states that the program reaches once it serves.
  pub data Reachable : Shared F → Type 0 where
    at_start : Reachable r.state
    after : {s t : Shared F} → Reachable s → Step s t → Reachable t
