-- ===== src/Store/Tests.antt =====
-- Times and rows at concrete values.
use homelink_monitor.Base.{
  Floats, Ends, ltb, ◌+◌, ◌*◌, ◌/◌, ℕ, ◌≡◌, refl, true, false, ok, arith, none, some, [], ◌∷◌,
  bytes,
}
use homelink_monitor.Router.Clients.{empty_client}
use homelink_monitor.Store.RouterTraffic.{
  ClientsCodec, insert_router_traffic, latest_router_traffic, add_router_traffic,
}
use homelink_monitor.Store.RouterTraffic.Stored.{latest_router_traffic-insert_router_traffic}
use homelink_monitor.Domain.{RouterTrafficSample, RouterTrafficClient, SpeedTest}
use homelink_monitor.Store.Stamp.{ts, stamp_lt, text_lt, stamp_lt_of_seconds, stamp_lt_inverted}
use homelink_monitor.Store.Schema.{Db, empty_db}
use homelink_monitor.Store.LatencyStats.{latency_summary}
use homelink_monitor.Store.LatencyStats.Described.{IsSummary, latency_summary-IsSummary}
use homelink_monitor.Store.SpeedTests.{
  speed_row, insert_speed_test, latest_speed_test, add_speed_test,
}
use homelink_monitor.Store.SpeedTests.Latest.{IsOlder, latest_speed_test-insert_speed_test}

stamp_lt_of_seconds_example : stamp_lt (ts 1999999999) (ts 2000000000) ≡ true
stamp_lt_of_seconds_example = stamp_lt_of_seconds 1999999999 2000000000 (omega arith)

stamp_lt_inverted_example : stamp_lt (ts 2500000000) (ts 2000000000) ≡ true
stamp_lt_inverted_example =
    stamp_lt_inverted 2000000000 2500000000 (omega arith) (omega arith) (omega arith)

abbrev measured : SpeedTest ℕ
measured = record {
  id = 0;
  started_at = 5000000000;
  finished_at = some 6500000000;
  download_mbps = some 90;
  upload_mbps = none;
  ping_ms = some 7;
  jitter_ms = none;
  server_name = b's' ∷ [];
  server_location = [];
  success = true;
  error = [];
}

-- Settings and a speed test have been stored before.
abbrev used_db : Db ℕ
used_db = record (empty_db) {
  settings = record { key = bytes "settings"; value = b'o' ∷ [] } ∷ [];
  speed_tests = record {
    rows = speed_row (record measured { started_at = 4 }) 1 ∷ [];
    last_id = 1;
  };
}

older : IsOlder 5000000000 1 (speed_row (record measured { started_at = 4 }) 1)
unfolding stamp_lt ts text_lt
older = (refl, omega arith)

latest_speed_test-insert_speed_test_example :
    latest_speed_test (insert_speed_test measured used_db).1
    ≡ (ok (some (record measured { id = 2 })), add_speed_test measured used_db)
latest_speed_test-insert_speed_test_example =
    latest_speed_test-insert_speed_test measured used_db refl (older, tt)

-- Clients that encoding/json writes as one byte.
abbrev client : RouterTrafficClient ℕ
client = record (empty_client) { mac = bytes "m"; total_bps = some 4 }

abbrev one_client : ClientsCodec ℕ
one_client = record { marshal = λ clients. ok (b'c' ∷ []); unmarshal = λ raw. ok (client ∷ []) }

abbrev sampled : RouterTrafficSample ℕ
sampled = record {
  id = 0;
  checked_at = 5000000000;
  provider = bytes "tplink-web";
  success = true;
  error = [];
  client_count = 1;
  download_bps = none;
  upload_bps = none;
  total_bps = some 4;
  download_available = false;
  upload_available = false;
  total_traffic_available = true;
}

latest_router_traffic-insert_router_traffic_example :
    latest_router_traffic one_client
      (insert_router_traffic one_client sampled (client ∷ []) used_db).1
    ≡ (
      ok (some (record sampled { id = 1 }, client ∷ [])),
      add_router_traffic sampled (b'c' ∷ []) used_db,
    )
latest_router_traffic-insert_router_traffic_example =
    latest_router_traffic-insert_router_traffic one_client sampled (client ∷ []) (b'c' ∷ []) used_db
      refl refl refl refl tt

abbrev whole : Floats ℕ
whole = record { of_nat = λ n. n; less = ltb; plus = ◌+◌; times = ◌*◌; over = ◌/◌ }

-- One check of a target that answered, and one of a target that did not.
abbrev checked_db : Db ℕ
checked_db = record (empty_db) {
  latency_checks = record {
    rows =
        record {
          id = 1;
          checked_at = ts 4;
          target = bytes "a";
          latency_ms = some 7;
          success = 1;
          error = [];
        }
        ∷ record {
          id = 2;
          checked_at = ts 5;
          target = bytes "a";
          latency_ms = none;
          success = 0;
          error = bytes "e";
        }
        ∷ [];
    last_id = 2;
  };
}

ltb_irreflexive : (a : ℕ) → ltb a a ≡ false
ltb_irreflexive a = ground arith

ltb_transitive : (a b c : ℕ) → ltb a b ≡ true → ltb b c ≡ true → ltb a c ≡ true
ltb_transitive a b c h k = ground arith

latency_summary-IsSummary_example :
    Ends
      (λ s d. IsSummary whole checked_db.latency_checks.rows s)
      (λ d. ⊥)
      (latency_summary whole none none checked_db)
latency_summary-IsSummary_example =
    latency_summary-IsSummary whole ltb_irreflexive ltb_transitive none none checked_db refl
