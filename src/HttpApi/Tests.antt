-- ===== src/HttpApi/Tests.antt =====
-- Requests to a small database.
use homelink_monitor.Base.{
  ℕ, ◌+◌, ◌*◌, ◌/◌, ◌≡◌, refl, true, some, [], ◌∷◌, ◌++◌, text_eq, bytes, ok, pos, ltb, Floats,
  Text, Result, Option, none, ◌==◌, if◌then◌else◌,
}
use homelink_monitor.Domain.{Settings, default_settings}
use homelink_monitor.Store.Schema.{empty_db}
use homelink_monitor.Store.Settings.{Codec}
use homelink_monitor.Store.RouterTraffic.{ClientsCodec}
use homelink_monitor.HttpApi.Settings.{normalize_settings}
use homelink_monitor.HttpApi.Requests.{Request, Parsers, Paths}
use homelink_monitor.HttpApi.Reads.{
  json, of_settings, settings_handler, save_settings_handler, speed_tests_handler, latency_handler,
  dns_checks_handler, router_traffic_handler, outages_handler,
}
use homelink_monitor.HttpApi.Reads.Limited.{IsLimited, lists-IsLimited}
use homelink_monitor.HttpApi.Reads.Settled.{settings_handler-save_settings_handler}

-- A number is read as 7000, and each URL is on the host "o".
abbrev parsers : Parsers
parsers = record {
  atoi = λ s. some (pos 7000);
  rfc3339 = λ s. ok 5;
  parse_url = λ s. ok (record {
    scheme = bytes "https";
    user = [];
    host = bytes "o";
    path = [];
    raw_query = [];
    fragment = [];
  });
  equal_fold = text_eq;
}

abbrev request : Request
request = record {
  method = bytes "PUT";
  host = bytes "h";
  origin = bytes "https://o";
  path = bytes "/api/settings";
  query = λ key. bytes "7000";
}

-- What follows a prefix.
abbrev rest_after : Text → Text → Option Text
rest_after [] t = some t
rest_after (a ∷ s) [] = none
rest_after (a ∷ s) (b ∷ t) = let rest = rest_after s t in if a == b then rest else none

-- `rel` of the paths below the root; all others are reached by climbing.
abbrev rel_from : Option Text → Result Text
rel_from none = ok (bytes "../elsewhere")
rel_from (some []) = ok (bytes ".")
rel_from (some (c ∷ r)) = if c == b'/' then ok r else ok (bytes "../elsewhere")

abbrev rel_of : Text → Text → Result Text
rel_of root path = rel_from (rest_after root path)

abbrev paths : Paths
paths = record {
  abs = λ path. ok (b'/' ∷ path);
  clean = λ path. path;
  join = λ root path. root ++ bytes "/" ++ path;
  rel = rel_of;
  exists = λ path. true;
}

abbrev no_clients : ClientsCodec ℕ
no_clients = record { marshal = λ clients. ok []; unmarshal = λ raw. ok [] }

lists-IsLimited_example :
    IsLimited 200 (speed_tests_handler parsers request (empty_db {F = ℕ}))
    × IsLimited 1000 (latency_handler parsers request (empty_db {F = ℕ}))
    × IsLimited 500 (dns_checks_handler parsers request (empty_db {F = ℕ}))
    × IsLimited 500 (router_traffic_handler parsers request no_clients (empty_db {F = ℕ}))
    × IsLimited 500 (outages_handler parsers request (empty_db {F = ℕ}))
lists-IsLimited_example = lists-IsLimited parsers request no_clients empty_db

abbrev whole : Floats ℕ
whole = record { of_nat = λ n. n; less = ltb; plus = ◌+◌; times = ◌*◌; over = ◌/◌ }

abbrev sent : Settings ℕ
sent = record (default_settings (λ n. n)) { latency_interval_seconds = pos 1 }

abbrev codec : Codec ℕ
codec = record {
  marshal = λ s. ok (b'j' ∷ []);
  unmarshal = λ raw s. ok (normalize_settings whole sent);
}

settings_handler-save_settings_handler_example :
    let saved = save_settings_handler whole codec (ok sent) (empty_db {F = ℕ}) in
    (saved.0 ≡ json 200 (of_settings (normalize_settings whole sent)))
    × ((settings_handler whole codec saved.1).0 ≡ saved.0)
settings_handler-save_settings_handler_example =
    settings_handler-save_settings_handler whole codec sent (b'j' ∷ []) empty_db refl refl refl
