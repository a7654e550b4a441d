-- ===== src/Domain.antt =====
-- The types of services/api/internal/domain/domain.go, over a type `F` of float64 values.
-- A `time.Time` is a number of nanoseconds since Go's zero time, in UTC; a pointer is an option.
use homelink_monitor.Base.{
  ◌*◌, ℕ, ◌==◌, Bool, true, false, Option, List, [], ◌∷◌, ℤ, pos, Text, bytes,
}

abbrev pub Time : Type 0
Time = ℕ

-- `time.Time.IsZero`.
abbrev pub is_zero_time : Time → Bool
is_zero_time t = t == 0

abbrev pub second : Time
second = 1_000_000_000

abbrev pub minute : Time
minute = 60 * second

pub record Settings (F : Type 0) : Type 0 where
  pub speed_test_schedule_minutes : ℤ
  pub speed_test_command : Text
  pub latency_interval_seconds : ℤ
  pub dns_interval_seconds : ℤ
  pub router_traffic_enabled : Bool
  pub router_traffic_interval_sec : ℤ
  pub router_traffic_url : Text
  pub router_traffic_username : Text
  pub router_traffic_password : Text
  pub latency_targets : List Text
  pub dns_domains : List Text
  pub router_ip : Text
  pub min_download_mbps : F
  pub min_upload_mbps : F
  pub max_latency_ms : F
  pub outage_failure_threshold : ℤ
  pub monitoring_enabled : Bool

-- The three float literals 50, 10 and 100 are given by `of_nat`.
unfoldable pub default_settings : {F : Type 0} → (ℕ → F) → Settings F
default_settings of_nat = record {
  speed_test_schedule_minutes = pos 360;
  speed_test_command = bytes "speedtest --accept-license --accept-gdpr --format=json";
  latency_interval_seconds = pos 60;
  dns_interval_seconds = pos 120;
  router_traffic_enabled = false;
  router_traffic_interval_sec = pos 60;
  router_traffic_url = [];
  router_traffic_username = [];
  router_traffic_password = [];
  latency_targets = bytes "1.1.1.1:53" ∷ bytes "8.8.8.8:53" ∷ [];
  dns_domains = bytes "google.com" ∷ bytes "cloudflare.com" ∷ [];
  router_ip = [];
  min_download_mbps = of_nat 50;
  min_upload_mbps = of_nat 10;
  max_latency_ms = of_nat 100;
  outage_failure_threshold = pos 3;
  monitoring_enabled = true;
}

pub record SpeedTest (F : Type 0) : Type 0 where
  pub id : ℕ
  pub started_at : Time
  pub finished_at : Option Time
  pub download_mbps : Option F
  pub upload_mbps : Option F
  pub ping_ms : Option F
  pub jitter_ms : Option F
  pub server_name : Text
  pub server_location : Text
  pub success : Bool
  pub error : Text

pub record LatencyCheck (F : Type 0) : Type 0 where
  pub id : ℕ
  pub checked_at : Time
  pub target : Text
  pub latency_ms : Option F
  pub success : Bool
  pub error : Text

pub record DnsCheck (F : Type 0) : Type 0 where
  pub id : ℕ
  pub checked_at : Time
  pub domain : Text
  pub resolver : Text
  pub duration_ms : Option F
  pub success : Bool
  pub error : Text

pub record RouterTrafficSample (F : Type 0) : Type 0 where
  pub id : ℕ
  pub checked_at : Time
  pub provider : Text
  pub success : Bool
  pub error : Text
  pub client_count : ℕ
  pub download_bps : Option F
  pub upload_bps : Option F
  pub total_bps : Option F
  pub download_available : Bool
  pub upload_available : Bool
  pub total_traffic_available : Bool

pub record RouterTrafficClient (F : Type 0) : Type 0 where
  pub mac : Text
  pub ip : Text
  pub hostname : Text
  pub connection : Text
  pub download_bps : Option F
  pub upload_bps : Option F
  pub total_bps : Option F
  pub download_bytes : Option F
  pub upload_bytes : Option F
  pub total_bytes : Option F

pub record RouterTrafficCapability : Type 0 where
  pub provider : Text
  pub checked_at : Time
  pub reachable : Bool
  pub authenticated : Bool
  pub client_list_available : Bool
  pub download_available : Bool
  pub upload_available : Bool
  pub total_traffic_available : Bool
  pub error : Text
  pub sources : List Text

pub record Outage : Type 0 where
  pub id : ℕ
  pub started_at : Time
  pub ended_at : Option Time
  pub reason : Text

pub record LatencySummary (F : Type 0) : Type 0 where
  pub min_ms : Option F
  pub avg_ms : Option F
  pub max_ms : Option F
  pub packet_loss : F
  pub count : ℕ

pub record RouterTrafficCurrent (F : Type 0) : Type 0 where
  pub capability : RouterTrafficCapability
  pub latest : Option (RouterTrafficSample F)
  pub clients : List (RouterTrafficClient F)

pub record Summary (F : Type 0) : Type 0 where
  pub status : Text
  pub latest_speed_test : Option (SpeedTest F)
  pub latest_latency : Option (LatencyCheck F)
  pub latest_dns_check : Option (DnsCheck F)
  pub latency_24h : LatencySummary F
  pub outage_count_24h : ℕ
  pub active_outage : Option Outage
  pub min_download_24h_mbps : Option F
  pub max_download_24h_mbps : Option F
  pub min_upload_24h_mbps : Option F
  pub max_upload_24h_mbps : Option F
  pub settings : Settings F
  pub speed_test_is_running : Bool

pub record User : Type 0 where
  pub id : ℕ
  pub username : Text
  pub role : Text
  pub created_at : Time
  pub updated_at : Time

pub record NotificationEvent : Type 0 where
  pub id : Text
  pub severity : Text
  pub metric : Text
  pub title : Text
  pub message : Text
  pub timestamp : Time
