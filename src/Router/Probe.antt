-- ===== src/Router/Probe.antt =====
-- `ProbeAndCollect` of services/api/internal/router/tplink.go, and the snapshot that it returns.
pub mod Coherent
pub mod Valid
use homelink_monitor.Base.{
  ℕ, Bool, true, false, not, ◌&&◌, ◌||◌, Option, none, some, List, [], ◌∷◌, Text, bytes, is_empty,
  is_some, Result, ok, err, handle, if◌then◌else◌, length, trim_space, Floats,
}
use homelink_monitor.Domain.{
  Time, RouterTrafficClient, RouterTrafficSample, RouterTrafficCapability,
}
use homelink_monitor.Router.Library.{Library}
use homelink_monitor.Router.Clients.{
  EndpointResponse, extract_clients, sum_clients, any_client_has, source_names,
}
use homelink_monitor.Router.Provider.{
  RouterSettings, Hub, Readings, session, collect_at, retry_once, https_fallback_url,
  normalize_base_url,
}

pub record Snapshot (F : Type 0) : Type 0 where
  pub capability : RouterTrafficCapability
  pub sample : RouterTrafficSample F
  pub clients : List (RouterTrafficClient F)

abbrev pub should_retry_https : {F : Type 0} → Snapshot F → Bool
should_retry_https s = s.capability.authenticated && not s.sample.success

abbrev pub provider_name : Text
provider_name = bytes "tplink-web"

abbrev pub capability_of : Time → RouterTrafficCapability
capability_of checked = record {
  provider = provider_name;
  checked_at = checked;
  reachable = false;
  authenticated = false;
  client_list_available = false;
  download_available = false;
  upload_available = false;
  total_traffic_available = false;
  error = [];
  sources = [];
}

abbrev pub sample_of : {F : Type 0} → Time → RouterTrafficSample F
sample_of checked = record {
  id = 0;
  checked_at = checked;
  provider = provider_name;
  success = false;
  error = [];
  client_count = 0;
  download_bps = none;
  upload_bps = none;
  total_bps = none;
  download_available = false;
  upload_available = false;
  total_traffic_available = false;
}

-- A snapshot of an error.
abbrev pub failed_snapshot : {F : Type 0} → Time → Bool → Text → Snapshot F
failed_snapshot checked reachable e = record {
  capability = record (capability_of checked) { reachable = reachable; error = e };
  sample = record (sample_of checked) { error = e };
  clients = [];
}

module _ {F : Type 0} (fl : Floats F) (lib : Library F) where
  -- The sum of both directions stands in for a missing total.
  abbrev pub total_or_sum : Option F → Option F → Option F → Option F
  total_or_sum (some total) down up = some total
  total_or_sum none (some down) (some up) = some (fl.plus down up)
  total_or_sum none none up = none
  total_or_sum none (some down) none = none

  abbrev pub no_clients_error : List (RouterTrafficClient F) → Text
  no_clients_error [] =
      bytes "router responded, but no supported client traffic fields were detected"
  no_clients_error (c ∷ clients) = []

  abbrev pub has_clients : List (RouterTrafficClient F) → Bool
  has_clients [] = false
  has_clients (c ∷ clients) = true

  unfoldable pub snapshot_of : Time → List Text → List (RouterTrafficClient F) → Snapshot F
  snapshot_of checked sources clients =
      let down = any_client_has clients (λ c. is_some c.download_bps) in
      let up = any_client_has clients (λ c. is_some c.upload_bps) in
      let total = any_client_has clients (λ c. is_some c.total_bps || is_some c.total_bytes) in
      let down_sum = sum_clients fl (λ c. c.download_bps) clients in
      let up_sum = sum_clients fl (λ c. c.upload_bps) clients in
      record {
        capability = record {
          provider = provider_name;
          checked_at = checked;
          reachable = true;
          authenticated = true;
          client_list_available = has_clients clients;
          download_available = down;
          upload_available = up;
          total_traffic_available = total;
          error = no_clients_error clients;
          sources = sources;
        };
        sample = record {
          id = 0;
          checked_at = checked;
          provider = provider_name;
          success = has_clients clients;
          error = no_clients_error clients;
          client_count = length clients;
          download_bps = down_sum;
          upload_bps = up_sum;
          total_bps = total_or_sum (sum_clients fl (λ c. c.total_bps) clients) down_sum up_sum;
          download_available = down;
          upload_available = up;
          total_traffic_available = total;
        };
        clients = clients;
      }

  abbrev pub report : Time → List (EndpointResponse F) → Snapshot F
  report checked responses =
      snapshot_of checked (source_names responses) (extract_clients lib.parse_float responses)

  abbrev pub collect_and_report : RouterSettings → Text → Readings → ℕ → Hub → Snapshot F × Hub
  collect_and_report settings base_url times n h =
      let (responses, done) = retry_once lib settings base_url times n (collect_at lib n h) in
      (report times.checked responses, done)

  unfoldable pub probe_base_url : RouterSettings → Text → Readings → Hub → Snapshot F × Hub
  probe_base_url settings base_url times h =
      handle (session lib settings base_url times.first h)
        (λ e h'. (failed_snapshot times.checked true e, h'))
        (collect_and_report settings base_url times)

  -- The second snapshot counts if it got further.
  abbrev pub better_of : Snapshot F → Snapshot F × Hub → Snapshot F × Hub
  better_of first (second, h) =
      if second.capability.authenticated || second.sample.success then (second, h) else (first, h)

  abbrev pub retry_https :
      RouterSettings → Option Text → Readings → Snapshot F × Hub → Snapshot F × Hub
  retry_https settings none times (first, h) = (first, h)
  retry_https settings (some url) times (first, h) =
      let again = better_of first (probe_base_url settings url times h) in
      if should_retry_https first then again else (first, h)

  abbrev pub probe_url : RouterSettings → Result Text → Readings → Readings → Hub → Snapshot F × Hub
  probe_url settings (err e) times https_times h = (failed_snapshot times.checked false e, h)
  probe_url settings (ok base_url) times https_times h =
      retry_https settings (https_fallback_url lib base_url) https_times
        (probe_base_url settings base_url times h)

  unfoldable pub probe_and_collect : RouterSettings → Readings → Readings → Hub → Snapshot F × Hub
  probe_and_collect settings times https_times h =
      if is_empty (trim_space settings.url) || is_empty settings.password
      then (
        failed_snapshot times.checked false (bytes "router traffic URL and password are required"),
        h,
      )
      else probe_url settings (normalize_base_url lib settings.url) times https_times h
