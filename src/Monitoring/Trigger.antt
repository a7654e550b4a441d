-- ===== src/Monitoring/Trigger.antt =====
-- `TriggerSpeedTest` and `SpeedRunning` of services/api/internal/monitoring/service.go: the flag
-- that the mutex guards, the goroutine of a test as a job that moves from one call to the next, and
-- the steps of the program in any order. `fmt`'s %q is a parameter, `quote`.
pub mod Single
pub mod Released
mod Tests
use homelink_monitor.Base.{
  Bool, true, false, not, ◌&&◌, ◌≡◌, List, [], ◌∷◌, ◌++◌, Text, bytes, is_empty, if◌then◌else◌,
  Result, ok, err, none, Floats,
}
use homelink_monitor.Domain.{Time, Settings, SpeedTest}
use homelink_monitor.Store.Schema.{Db}
use homelink_monitor.Store.Settings.{Codec, settings}
use homelink_monitor.Store.SpeedTests.{insert_speed_test}
use homelink_monitor.Runner.{Process, Decoder, run}
use homelink_monitor.Monitoring.Service.{Service, Setup}
use homelink_monitor.Monitoring.Checks.{emit_speed_test_event}

-- Where the goroutine stands: before the settings are read, before the command runs, before its
-- result is stored, before it is announced, and before the flag is reset.
pub data Job (F : Type 0) : Type 0 where
  starting : Job F
  running : Settings F → Job F
  storing : SpeedTest F → Job F
  announcing : SpeedTest F → Job F
  ending : Job F

pub record Shared (F : Type 0) : Type 0 where
  pub service : Service F
  pub speed_active : Bool
  pub jobs : List (Job F)

-- The libraries and the settings of the service.
pub record Tools (F : Type 0) : Type 0 where
  pub floats : Floats F
  pub decoder : Decoder F
  pub codec : Codec F
  pub setup : Setup F
  pub quote : Text → Text

-- What the outside answers during one move: the command, and the readings of the clock.
pub record Outside : Type 0 where
  pub exec : List Text → Process
  pub started : Time
  pub finished : Time

-- `SpeedRunning`.
abbrev pub speed_running : {F : Type 0} → Shared F → Bool
speed_running s = s.speed_active

-- `TriggerSpeedTest`: the flag is tested and set while the mutex is held.
unfoldable pub trigger : {F : Type 0} → Shared F → Bool × Shared F
trigger s =
    if s.speed_active
    then (false, s)
    else (true, record s { speed_active = true; jobs = s.jobs ++ starting ∷ [] })

module _ {F : Type 0} (tools : Tools F) where
  abbrev pub command_help : Text → Text
  command_help command =
      bytes "configured speed test command "
      ++ tools.quote command
      ++ bytes " failed; install the CLI in the container or update Settings"

  unfoldable pub explain : Text → SpeedTest F → SpeedTest F
  explain command r =
      if not r.success && not (is_empty r.error)
      then record r { error = command_help command ++ bytes ": " ++ r.error }
      else r

  abbrev pub loaded : Service F → Result (Settings F) × Db F → Job F × Service F
  loaded s (ok settings, d) = (running settings, record s { db = d })
  loaded s (err e, d) = (ending, record s { db = d })

  -- One call of the goroutine; its context is never cancelled.
  unfoldable pub advance : Outside → Job F → Service F → Job F × Service F
  advance o starting s = loaded s (settings tools.floats.of_nat tools.codec s.db)
  advance o (running x) s = (
    storing (
        explain x.speed_test_command
          (run tools.floats tools.decoder o.exec o.started o.finished x.speed_test_command)),
    s,
  )
  advance o (storing r) s = (announcing r, record s { db = (insert_speed_test r s.db).1 })
  advance o (announcing r) s =
      (ending, emit_speed_test_event (record (tools.setup) { cancelled = none }) o.finished r s)
  advance o ending s = (ending, s)

  -- A step of the program: a call of `TriggerSpeedTest`, a move of a job, the deferred reset of the
  -- flag by a job that ends, or work of others on the service.
  pub data Step (s : Shared F) : Shared F → Type 0 where
    triggers : Step s (trigger s).1
    moves :
        (o : Outside) (before : List (Job F)) (job : Job F) (after : List (Job F))
        → s.jobs ≡ before ++ job ∷ after
        → Step s (record s {
          service = (advance o job s.service).1;
          jobs = before ++ (advance o job s.service).0 ∷ after;
        })
    ends :
        (before after : List (Job F))
        → s.jobs ≡ before ++ ending ∷ after
        → Step s (record s { speed_active = false; jobs = before ++ after })
    others : (service : Service F) → Step s (record s { service = service })

  pub data Reachable (start : Service F) : Shared F → Type 0 where
    at_start : Reachable start (record { service = start; speed_active = false; jobs = [] })
    after : {s t : Shared F} → Reachable start s → Step s t → Reachable start t
