-- ===== src/Main/Tests.antt =====
-- A start on an empty database, and the first request.
use homelink_monitor.Base.{
  ℕ, ◌≡◌, refl, arith, true, false, none, some, [], ◌∷◌, Text, text_eq, bytes, ok, err,
  if◌then◌else◌, trim_space, trim_left, trim_right,
}
use homelink_monitor.Config.{load, value, bool_value}
use homelink_monitor.Migrations.{Database, migrate, migrate_from, has_version, apply, add_version}
use homelink_monitor.Migrations.Open.{open_database}
use homelink_monitor.Store.Stamp.{ts}
use homelink_monitor.Store.Schema.{Db, empty_db}
use homelink_monitor.Store.Users.{user_count, create_user, add_user}
use homelink_monitor.Store.Outages.{count_open}
use homelink_monitor.Store.Outages.Laws.{IsValid}
use homelink_monitor.Store.Sound.{IsKeyed, outages_only}
use homelink_monitor.Events.Disk.{Disk}
use homelink_monitor.Auth.{validate_username, hash_password, ensure_initial_admin, create_admin}
use homelink_monitor.Router.Examples.{whole}
use homelink_monitor.Monitoring.Loops.{speed_round}
use homelink_monitor.Monitoring.Trigger.{Shared}
use homelink_monitor.HttpApi.Serve.{serve}
use homelink_monitor.HttpApi.Serve.Examples.{server, call, moment}
use homelink_monitor.Main.{
  Host, Running, Program, serving, outbox_of, new_state, open_on, start, server_of, Reachable,
  at_start, after, requests, speed,
}
use homelink_monitor.Main.Started.{IsReady, start-IsReady}
use homelink_monitor.Main.Kept.{IsInOrder, Reachable-IsInOrder}

-- The environment has a name and a password for the first user.
abbrev getenv : Text → Text
getenv key =
    if text_eq key (bytes "ADMIN_USERNAME")
    then b'a' ∷ []
    else if text_eq key (bytes "ADMIN_PASSWORD")
    then bytes "password"
    else []

abbrev host : Host ℕ
host = record {
  getenv = getenv;
  driver = none;
  show = λ n. [];
  run = λ migration c. ok (record c { versions = some [] });
  migrations = bytes "CREATE TABLE" ∷ [];
  bcrypt = record { generate = λ password. ok password; matches = λ hash password. true };
  now = 0;
}

abbrev disk : Disk
disk = record { files = []; faults = [] }

abbrev empty : Database (Db ℕ)
empty = record { catalog = record { tables = empty_db; versions = none }; faults = [] }

abbrev running : Running ℕ
running = record {
  outbox = none;
  cookie_secure = false;
  static_dir = bytes "../../apps/web/dist";
  state =
      new_state
        (record (empty_db) {
          users = record {
            rows =
                record {
                  id = 1;
                  username = b'a' ∷ [];
                  password_hash = bytes "password";
                  role = bytes "admin";
                  created_at = ts 0;
                  updated_at = ts 0;
                }
                ∷ [];
            last_id = 1;
          };
        })
        disk;
}

served : start host disk empty ≡ serving running
unfolding start open_database migrate migrate_from load value bool_value ensure_initial_admin
    create_admin validate_username hash_password user_count create_user add_user bytes text_eq
    trim_space trim_left trim_right outbox_of has_version apply add_version
served = refl

no_outage : IsValid {F = ℕ} (outages_only (empty_db {F = ℕ}).outages)
unfolding count_open
no_outage = record { one_open = omega arith; readable = tt }

keyed : IsKeyed (open_on host empty).1.catalog.tables
unfolding open_database migrate migrate_from has_version apply add_version
keyed = ((tt, tt), no_outage)

start-IsReady_example : IsReady host disk running (open_on host empty).1.catalog.tables.users.rows
start-IsReady_example = start-IsReady host disk empty running keyed served

abbrev program : Program ℕ
program = record {
  server = server;
  tools = record {
    floats = whole;
    decoder = record { ookla = λ raw. err (b'j' ∷ []); simple = λ raw. err (b'j' ∷ []) };
    codec = server.codec;
    setup = record {
      outbox = none;
      cancelled = none;
      encoding = record { marshal = λ e. ok e.id; format = λ t. b'2' ∷ [] };
      unix_nano = λ t. b'9' ∷ [];
      one_decimal = λ x. b'1' ∷ [];
    };
    quote = λ text. text;
  };
}

-- The state after a request and a round of the speed tests.
abbrev answered : Shared ℕ
answered = (serve (server_of program running) call moment running.state).1

abbrev scheduled : Shared ℕ
scheduled = (speed_round program.tools.floats program.tools.codec 7 answered).1

scheduled-Reachable : Reachable program running scheduled
scheduled-Reachable = after (after at_start (requests call moment)) (speed 7)

Reachable-IsInOrder_example : IsInOrder scheduled
Reachable-IsInOrder_example =
    Reachable-IsInOrder host disk empty running program scheduled keyed served scheduled-Reachable
