-- ===== src/Monitoring/Trigger/Tests.antt =====
-- Steps of a small service.
use homelink_monitor.Base.{
  ◌≡◌, refl, some, false, ℕ, ◌+◌, ◌*◌, ◌/◌, ◌↔◌, true, none, [], ◌∷◌, ok, err, ltb, arith, length,
  if◌then◌else◌,
}
use homelink_monitor.Router.Provider.{empty_hub}
use homelink_monitor.Store.Schema.{empty_db}
use homelink_monitor.Monitoring.Service.{Service}
use homelink_monitor.Monitoring.Trigger.{
  starting, Shared, Step, Tools, Outside, trigger, speed_running, triggers, Reachable, at_start,
  after,
}
use homelink_monitor.Monitoring.Trigger.Single.{trigger_iff}
use homelink_monitor.Monitoring.Trigger.Released.{Run, here, move, again, speed_test-IsReleased}

abbrev tools : Tools ℕ
tools = record {
  floats = record { of_nat = λ n. n; less = ltb; plus = ◌+◌; times = ◌*◌; over = ◌/◌ };
  decoder = record { ookla = λ raw. err (b'j' ∷ []); simple = λ raw. err (b'j' ∷ []) };
  codec = record { marshal = λ s. ok (b'j' ∷ []); unmarshal = λ raw s. ok s };
  setup = record {
    outbox = none;
    cancelled = none;
    encoding = record { marshal = λ e. ok e.id; format = λ t. b'2' ∷ [] };
    unix_nano = λ t. b'9' ∷ [];
    one_decimal = λ x. b'1' ∷ [];
  };
  quote = λ text. text;
}

abbrev outside : Outside
outside = record {
  exec = λ parts. record { failure = some (b'e' ∷ []); stdout = []; stderr = [] };
  started = 5;
  finished = 6;
}

abbrev service : Service ℕ
service = record {
  db = empty_db;
  disk = record { files = []; faults = [] };
  fail_count = 0;
  router = empty_hub;
}

abbrev idle : Shared ℕ
idle = record { service = service; speed_active = false; jobs = [] }

-- After one call of `TriggerSpeedTest`.
abbrev busy : Shared ℕ
busy = (trigger idle).1

busy-Reachable : Reachable tools service busy
busy-Reachable = after at_start triggers

busy_flag : speed_running busy ≡ true
unfolding trigger
busy_flag = refl

trigger_iff_example :
    (length busy.jobs ≡ (if speed_running busy then 1 else 0))
    × (((trigger busy).0 ≡ true) ↔ (busy.jobs ≡ []))
trigger_iff_example = trigger_iff tools busy busy-Reachable

-- Four moves of the job, with a call that is refused between them.
four_moves : (t : Shared ℕ) × Run tools busy 4 t
unfolding trigger
four_moves = (
  _,
  move
      (move (move (again (move here outside [] starting [] refl)) outside [] _ [] refl) outside [] _
        [] refl)
      outside [] _ [] refl,
)

speed_test-IsReleased_example :
    (u : Shared ℕ) × Step tools four_moves.0 u
    × (u.service ≡ four_moves.0.service)
    × (u.jobs ≡ [])
    × (speed_running u ≡ false)
    × ((trigger u).0 ≡ true)
speed_test-IsReleased_example =
    speed_test-IsReleased tools busy four_moves.0 4 busy-Reachable busy_flag four_moves.1
      (omega arith)
