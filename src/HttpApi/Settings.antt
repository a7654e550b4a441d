-- ===== src/HttpApi/Settings.antt =====
-- `normalizeSettings` and `normalizeStringList` of services/api/internal/httpapi/api.go.
pub mod Bounds
pub mod Lists
mod Tests
use homelink_monitor.Base.{
  ℕ, ◌+◌, Bool, List, [], ◌∷◌, ◌++◌, Text, text_eq, is_empty, if◌then◌else◌, ltb, leb, length, take,
  any, ℤ, pos, ltb_ℤ, Floats, trim_space,
}
use homelink_monitor.Domain.{Settings}

-- `if len(s) > n { s = s[:n] }`, which counts bytes.
abbrev pub cut : ℕ → Text → Text
cut n s = if ltb n (length s) then take n s else s

-- `if v < lo { v = lo }; if v > hi { v = hi }`.
abbrev pub clamp : ℤ → ℤ → ℤ → ℤ
clamp lo hi v = let raised = if ltb_ℤ v lo then lo else v in if ltb_ℤ hi raised then hi else raised

-- `_, ok := seen[value]`, where `seen` holds what was put out.
abbrev pub is_seen : Text → List Text → Bool
is_seen value seen = any (text_eq value) seen

-- The loop of `normalizeStringList`; `out` is the result so far, in order.
unfoldable pub collect : ℕ → ℕ → List Text → List Text → List Text
collect max_items max_len out [] = out
collect max_items max_len out (value ∷ values) =
    let item = cut max_len (trim_space value) in
    let skipped = collect max_items max_len out values in
    let longer = collect max_items max_len (out ++ item ∷ []) values in
    if is_empty (trim_space value)
    then skipped
    else if is_seen item out
    then skipped
    else if leb max_items (length (out ++ item ∷ []))
    then out ++ item ∷ []
    else longer

unfoldable pub normalize_string_list : List Text → ℕ → ℕ → List Text
normalize_string_list values max_items max_len = collect max_items max_len [] values

module _ {F : Type 0} (fl : Floats F) where
  -- `if v < 0 { v = 0 }`.
  abbrev pub at_least_zero : F → F
  at_least_zero v = if fl.less v (fl.of_nat 0) then fl.of_nat 0 else v

  unfoldable pub normalize_settings : Settings F → Settings F
  normalize_settings s = record {
    speed_test_schedule_minutes = clamp (pos 0) (pos 10080) s.speed_test_schedule_minutes;
    speed_test_command = cut 500 (trim_space s.speed_test_command);
    latency_interval_seconds = clamp (pos 10) (pos 86400) s.latency_interval_seconds;
    dns_interval_seconds = clamp (pos 10) (pos 86400) s.dns_interval_seconds;
    router_traffic_enabled = s.router_traffic_enabled;
    router_traffic_interval_sec = clamp (pos 10) (pos 86400) s.router_traffic_interval_sec;
    router_traffic_url = cut 255 (trim_space s.router_traffic_url);
    router_traffic_username = cut 64 (trim_space s.router_traffic_username);
    router_traffic_password = cut 256 s.router_traffic_password;
    latency_targets = normalize_string_list s.latency_targets 20 255;
    dns_domains = normalize_string_list s.dns_domains 20 255;
    router_ip = cut 255 (trim_space s.router_ip);
    min_download_mbps = at_least_zero s.min_download_mbps;
    min_upload_mbps = at_least_zero s.min_upload_mbps;
    max_latency_ms = at_least_zero s.max_latency_ms;
    outage_failure_threshold = clamp (pos 1) (pos 100) s.outage_failure_threshold;
    monitoring_enabled = s.monitoring_enabled;
  }
