-- ===== src/HttpApi/Settings/Tests.antt =====
-- Settings and lists as a client may send them.
use homelink_monitor.Base.{
  ℕ, ◌≡◌, refl, true, List, [], ◌∷◌, Text, arith, ltb, take, pos, negsuc, Floats, replicate,
  trim_space, trim_left, trim_right, text_eq, ◌+◌, ◌*◌, ◌/◌,
}
use homelink_monitor.Domain.{Settings}
use homelink_monitor.HttpApi.Settings.{collect, normalize_string_list, normalize_settings}
use homelink_monitor.HttpApi.Settings.Lists.{
  IsNormalList, first_places, entries_of, normalize_string_list_lem,
}
use homelink_monitor.HttpApi.Settings.Bounds.{IsNormal, normalize_settings-IsNormal}

-- Floats as natural numbers.
abbrev whole : Floats ℕ
whole = record { of_nat = λ n. n; less = ltb; plus = ◌+◌; times = ◌*◌; over = ◌/◌ }

abbrev sent : List Text
sent = (b' ' ∷ b'a' ∷ []) ∷ [] ∷ (b'a' ∷ 10 ∷ []) ∷ (b'b' ∷ b'c' ∷ []) ∷ (b'd' ∷ []) ∷ []

two_of_sent : normalize_string_list sent 2 1 ≡ (b'a' ∷ []) ∷ (b'b' ∷ []) ∷ []
unfolding normalize_string_list collect trim_space trim_left trim_right text_eq
two_of_sent = refl

normalize_string_list_lem_example :
    (normalize_string_list sent 2 1 ≡ take 2 (first_places [] (entries_of 1 sent)))
    × IsNormalList 2 1 (normalize_string_list sent 2 1)
normalize_string_list_lem_example = normalize_string_list_lem sent 2 1 (omega arith) (omega arith)

abbrev wild : Settings ℕ
wild = record {
  speed_test_schedule_minutes = negsuc 4;
  speed_test_command = replicate 600 b'x';
  latency_interval_seconds = pos 1;
  dns_interval_seconds = pos 1_000_000;
  router_traffic_enabled = true;
  router_traffic_interval_sec = pos 60;
  router_traffic_url = b' ' ∷ b'u' ∷ [];
  router_traffic_username = [];
  router_traffic_password = [];
  latency_targets = sent;
  dns_domains = [];
  router_ip = [];
  min_download_mbps = 50;
  min_upload_mbps = 10;
  max_latency_ms = 100;
  outage_failure_threshold = pos 0;
  monitoring_enabled = true;
}

normalize_settings-IsNormal_example : IsNormal whole (normalize_settings whole wild)
normalize_settings-IsNormal_example = normalize_settings-IsNormal whole wild refl
