-- ===== src/HttpApi/Serve/Examples.antt =====
-- A server with two users, one session, and an echo that finds the deletion of a user.
use homelink_monitor.Base.{
  ℕ, ◌≡◌, ◌∙◌, sym, ap, subst, arith, Bool-cases, inl, inr, true, false, Option, none, some, [],
  ◌∷◌, ◌++◌, Text, text_eq, text_eq_sound, bytes, ok, err, pos, if◌then◌else◌,
}
use homelink_monitor.Store.Stamp.{ts}
use homelink_monitor.Store.Schema.{Db, empty_db, UserRow, SessionRow}
use homelink_monitor.Router.Examples.{plain_library, whole, times}
use homelink_monitor.Router.Provider.{empty_hub}
use homelink_monitor.Monitoring.RouterTraffic.{RouterTools}
use homelink_monitor.Monitoring.Trigger.{Shared}
use homelink_monitor.HttpApi.Requests.{Request}
use homelink_monitor.HttpApi.Routes.{Route, routes, route_at}
use homelink_monitor.HttpApi.Serve.{http, Found, at_route, own, Echo, Server, Call, Moment}
use homelink_monitor.HttpApi.Serve.CrossOrigin.{MatchesMethods}

abbrev pub ann : UserRow
ann = record {
  id = 1;
  username = b'a' ∷ [];
  password_hash = b'h' ∷ [];
  role = b'r' ∷ [];
  created_at = ts 0;
  updated_at = ts 0;
}

abbrev pub session : SessionRow
session = record {
  id = 1;
  token_hash = b't' ∷ [];
  user_id = 1;
  created_at = ts 0;
  expires_at = ts 2000000000;
}

abbrev pub home : Db ℕ
home = record (empty_db) {
  users = record { rows = ann ∷ record ann { id = 2; username = b'b' ∷ [] } ∷ []; last_id = 2 };
  sessions = record { rows = session ∷ []; last_id = 1 };
}

abbrev pub state : Shared ℕ
state = record {
  service = record {
    db = home;
    disk = record { files = []; faults = [] };
    fail_count = 0;
    router = empty_hub;
  };
  speed_active = false;
  jobs = [];
}

-- The place of `DELETE /api/users/:id`.
abbrev find_deletion : Request → Found
find_deletion r =
    if text_eq r.method (bytes "DELETE") then at_route 22 else own true (http 404 none)

abbrev pub echo : Echo
echo = record { find = find_deletion; status_text = λ code. bytes "error" }

abbrev place : Found → ℕ
place (at_route n) = n
place (own guarded failure) = 0

abbrev pub router_tools : RouterTools ℕ
router_tools = record {
  floats = whole;
  library = plain_library;
  clients = record { marshal = λ clients. ok (b'c' ∷ []); unmarshal = λ raw. ok [] };
}

abbrev pub server : Server ℕ
server = record {
  codec = record { marshal = λ s. ok (b'j' ∷ []); unmarshal = λ raw s. ok s };
  tools = router_tools;
  bcrypt = record { generate = λ password. ok password; matches = λ hash password. true };
  digest = λ token. token;
  parsers = record {
    atoi = λ s. none;
    rfc3339 = λ s. ok 5;
    parse_url = λ s. err (bytes "bad");
    equal_fold = text_eq;
  };
  paths = record {
    abs = λ path. ok path;
    clean = λ path. path;
    join = λ root path. root ++ path;
    rel = λ root path. ok path;
    exists = λ path. true;
  };
  echo = echo;
  cookie_secure = true;
  static_dir = bytes "web";
  cascade = true;
}

-- The deletion of the second user, from another site.
abbrev pub request : Request
request = record {
  method = bytes "DELETE";
  host = bytes "h";
  origin = bytes "https://o";
  path = bytes "/api/users/2";
  query = λ key. [];
}

abbrev pub call : Call ℕ
call = record {
  request = request;
  cookie = some (b't' ∷ []);
  path_id = ok (pos 2);
  credentials = err (bytes "no body");
  user_body = err (bytes "no body");
  settings_body = err (bytes "no body");
  body_limit = none;
}

abbrev pub moment : Moment
moment = record {
  guard_time = 5;
  now = 5;
  times = (times, times);
  token = ok (b'u' ∷ []);
  ping = none;
}

abbrev method_in : Option Route → Text
method_in none = []
method_in (some r) = r.method

pub echo-MatchesMethods : MatchesMethods echo
echo-MatchesMethods r n found at there = elim (Bool-cases (text_eq r.method (bytes "DELETE"))) [
  | inl deletes ↦
      let hit : at_route 22 ≡ at_route n = rw deletes at at in
      let same : route_at 22 routes ≡ some found =
        subst (λ m. route_at m routes ≡ some found) (sym (ap place hit)) there in
      sym (ap method_in same) ∙ sym (text_eq_sound r.method (bytes "DELETE") deletes)
  | inr other ↦
      let missed : own true (http 404 none) ≡ at_route n = rw other at at in absurd (ground arith)
]
