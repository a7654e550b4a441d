-- ===== src/HttpApi/Settings/Bounds.antt =====
-- The ranges that `normalizeSettings` establishes, and that it keeps what is in range.
use homelink_monitor.Base.{
  ℕ, ◌≤◌, ◌≡◌, false, Text, arith, length, length-take, ℤ, pos, ◌≤ℤ◌, Floats, trim_space,
}
use homelink_monitor.Domain.{Settings}
use homelink_monitor.HttpApi.Settings.{cut, clamp, at_least_zero, normalize_settings}
use homelink_monitor.HttpApi.Settings.Lists.{IsNormalList, normalize_string_list_lem}

abbrev IsWithin : ℕ → ℕ → ℤ → Type 0
IsWithin lo hi v = (pos lo ≤ℤ v) × (v ≤ℤ pos hi)

clamp-IsWithin : (lo hi : ℕ) (v : ℤ) → lo ≤ hi → IsWithin lo hi (clamp (pos lo) (pos hi) v)
clamp-IsWithin lo hi v h = ground arith

clamp_of_IsWithin : (lo hi : ℕ) (v : ℤ) → IsWithin lo hi v → clamp (pos lo) (pos hi) v ≡ v
clamp_of_IsWithin lo hi v h = ground arith

length-cut : (n : ℕ) (s : Text) → length (cut n s) ≤ n
length-cut n s = ground (arith, length-take n s)

cut_of_short : (n : ℕ) (s : Text) → length s ≤ n → cut n s ≡ s
cut_of_short n s h = ground arith

module _ {F : Type 0} (fl : Floats F) where
  -- What the rest of the server may rely on of stored settings.
  pub record IsNormal (s : Settings F) : Type 0 where
    pub schedule : IsWithin 0 10080 s.speed_test_schedule_minutes
    pub latency_interval : IsWithin 10 86400 s.latency_interval_seconds
    pub dns_interval : IsWithin 10 86400 s.dns_interval_seconds
    pub router_interval : IsWithin 10 86400 s.router_traffic_interval_sec
    pub threshold : IsWithin 1 100 s.outage_failure_threshold
    pub command : length s.speed_test_command ≤ 500
    pub url : length s.router_traffic_url ≤ 255
    pub username : length s.router_traffic_username ≤ 64
    pub password : length s.router_traffic_password ≤ 256
    pub ip : length s.router_ip ≤ 255
    pub targets : IsNormalList 20 255 s.latency_targets
    pub domains : IsNormalList 20 255 s.dns_domains
    pub min_download : fl.less s.min_download_mbps (fl.of_nat 0) ≡ false
    pub min_upload : fl.less s.min_upload_mbps (fl.of_nat 0) ≡ false
    pub max_latency : fl.less s.max_latency_ms (fl.of_nat 0) ≡ false

  at_least_zero-ge :
      (v : F)
      → fl.less (fl.of_nat 0) (fl.of_nat 0) ≡ false
      → fl.less (at_least_zero fl v) (fl.of_nat 0) ≡ false
  at_least_zero-ge v irreflexive = ground arith

  -- Whatever settings a client sends, the normalised ones lie in every range: the intervals, the
  -- threshold and the schedule, the lengths of the texts, the two lists, and the three floats, which
  -- are not below 0. Of float64 only `0 < 0` being false is used.
  pub normalize_settings-IsNormal :
      (s : Settings F)
      → fl.less (fl.of_nat 0) (fl.of_nat 0) ≡ false
      → IsNormal (normalize_settings fl s)
  unfolding normalize_settings
  normalize_settings-IsNormal s z = record {
    schedule = clamp-IsWithin 0 10080 s.speed_test_schedule_minutes (omega arith);
    latency_interval = clamp-IsWithin 10 86400 s.latency_interval_seconds (omega arith);
    dns_interval = clamp-IsWithin 10 86400 s.dns_interval_seconds (omega arith);
    router_interval = clamp-IsWithin 10 86400 s.router_traffic_interval_sec (omega arith);
    threshold = clamp-IsWithin 1 100 s.outage_failure_threshold (omega arith);
    command = length-cut 500 (trim_space s.speed_test_command);
    url = length-cut 255 (trim_space s.router_traffic_url);
    username = length-cut 64 (trim_space s.router_traffic_username);
    password = length-cut 256 s.router_traffic_password;
    ip = length-cut 255 (trim_space s.router_ip);
    targets = (normalize_string_list_lem s.latency_targets 20 255 (omega arith) (omega arith)).1;
    domains = (normalize_string_list_lem s.dns_domains 20 255 (omega arith) (omega arith)).1;
    min_download = at_least_zero-ge s.min_download_mbps z;
    min_upload = at_least_zero-ge s.min_upload_mbps z;
    max_latency = at_least_zero-ge s.max_latency_ms z;
  }
