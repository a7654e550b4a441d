-- ===== src/HttpApi/Reads.antt =====
-- The handlers of services/api/internal/httpapi/api.go that read the database, and those of the
-- settings, of the speed test and of the probe. `fmt` and echo's encoding of the answer are left out.
pub mod Quiet
pub mod Sound
pub mod Settled
pub mod Limited
use homelink_monitor.Base.{
  ℕ, Bool, true, false, not, Option, none, some, List, [], Text, bytes, Result, ok, err, Eff,
  handle, if◌then◌else◌, ltb, Floats,
}
use homelink_monitor.Domain.{
  Time, Settings, Summary, SpeedTest, LatencyCheck, LatencySummary, DnsCheck, Outage, User,
  RouterTrafficSample, RouterTrafficClient, RouterTrafficCapability, RouterTrafficCurrent,
}
use homelink_monitor.Store.Schema.{Db}
use homelink_monitor.Store.Settings.{Codec, settings, save_settings}
use homelink_monitor.Store.SpeedTests.{speed_tests, latest_speed_test}
use homelink_monitor.Store.Checks.{latency, dns_checks, latest_dns}
use homelink_monitor.Store.LatencyStats.{latency_summary}
use homelink_monitor.Store.Outages.{list_outages, active_outage}
use homelink_monitor.Store.RouterTraffic.{
  ClientsCodec, Stored, latest_router_traffic, router_traffic_samples,
}
use homelink_monitor.Monitoring.Service.{Service}
use homelink_monitor.Monitoring.Summary.{build_summary}
use homelink_monitor.Monitoring.Trigger.{Shared, trigger, speed_running}
use homelink_monitor.Monitoring.RouterTraffic.{RouterTools, ProbeTimes, probe_router_traffic}
use homelink_monitor.Router.Probe.{Snapshot, provider_name}
use homelink_monitor.HttpApi.Settings.{normalize_settings}
use homelink_monitor.HttpApi.Requests.{Request, Parsers, int_param, time_param}

-- The bodies of the answers; those with `items` hold a list.
pub data Payload (F : Type 0) : Type 0 where
  error : Text → Payload F
  health : Bool → Text → Payload F
  status : Text → Payload F
  one_user : User → Payload F
  summary : Summary F → Payload F
  one_speed_test : Option (SpeedTest F) → Payload F
  many_speed_tests : List (SpeedTest F) → Payload F
  many_latencies : List (LatencyCheck F) → Payload F
  latency_stats : LatencySummary F → Payload F
  one_dns : Option (DnsCheck F) → Payload F
  many_dns : List (DnsCheck F) → Payload F
  many_samples : List (RouterTrafficSample F) → Payload F
  traffic : RouterTrafficCurrent F → Payload F
  one_outage : Option Outage → Payload F
  many_outages : List Outage → Payload F
  of_settings : Settings F → Payload F

pub record Answer (F : Type 0) : Type 0 where
  pub code : ℕ
  pub payload : Payload F

abbrev pub json : {F : Type 0} → ℕ → Payload F → Answer F
json code payload = record { code = code; payload = payload }

abbrev pub fail_with : {F : Type 0} → ℕ → Text → Answer F
fail_with code e = json code (error e)

module _ {F : Type 0} where
  -- `respond`, after the call that it gets the value and the error of.
  unfoldable pub respond : {A : Type 0} → (A → Payload F) → Eff (Db F) A → Db F → Answer F × Db F
  respond payload call d =
      handle (call d) (λ e d'. (fail_with 500 e, d')) (λ a d'. (json 200 (payload a), d'))

  -- A parameter that is not a time is answered with 400.
  abbrev pub or_bad :
      {A : Type 0} → Result A → (A → Db F → Answer F × Db F) → Db F → Answer F × Db F
  or_bad (err e) next d = (fail_with 400 e, d)
  or_bad (ok a) next d = next a d

  -- `Ping` is a call of the library.
  unfoldable pub health_handler : Option Text → Answer F
  health_handler none = json 200 (health true [])
  health_handler (some e) = json 503 (health false e)

  unfoldable pub me : Option User → Answer F
  me none = fail_with 401 (bytes "authentication required")
  me (some user) = json 200 (one_user user)

  module _ (parsers : Parsers) (r : Request) where
    -- The parameters `from` and `to`.
    abbrev with_span : (Option Time → Option Time → Db F → Answer F × Db F) → Db F → Answer F × Db F
    with_span next =
        or_bad (time_param parsers r (bytes "from"))
          (λ from. or_bad (time_param parsers r (bytes "to")) (next from))

    unfoldable pub speed_tests_handler : Db F → Answer F × Db F
    speed_tests_handler = with_span (λ from to. respond many_speed_tests (
        speed_tests (int_param parsers r (bytes "limit") 50 200)
          (int_param parsers r (bytes "offset") 0 100000) from to))

    unfoldable pub latency_handler : Db F → Answer F × Db F
    latency_handler = with_span (λ from to.
        respond many_latencies (
          latency (r.query (bytes "target")) (int_param parsers r (bytes "limit") 200 1000) from
            to))

    unfoldable pub latency_summary_handler : Floats F → Db F → Answer F × Db F
    latency_summary_handler fl =
        with_span (λ from to. respond latency_stats (latency_summary fl from to))

    unfoldable pub dns_checks_handler : Db F → Answer F × Db F
    dns_checks_handler = respond many_dns (dns_checks (int_param parsers r (bytes "limit") 100 500))

    unfoldable pub router_traffic_handler : ClientsCodec F → Db F → Answer F × Db F
    router_traffic_handler codec =
        respond many_samples
          (router_traffic_samples codec (int_param parsers r (bytes "limit") 100 500))

    unfoldable pub outages_handler : Db F → Answer F × Db F
    outages_handler =
        respond many_outages (list_outages (int_param parsers r (bytes "limit") 100 500))

  unfoldable pub latest_speed_test_handler : Db F → Answer F × Db F
  latest_speed_test_handler = respond one_speed_test latest_speed_test

  unfoldable pub latest_dns_handler : Db F → Answer F × Db F
  latest_dns_handler = respond one_dns latest_dns

  unfoldable pub active_outage_handler : Db F → Answer F × Db F
  active_outage_handler = respond one_outage active_outage

  -- `runSpeedTest`.
  abbrev started : Bool × Shared F → Answer F × Shared F
  started (true, s) = (json 202 (status (bytes "started")), s)
  started (false, s) = (fail_with 409 (bytes "speed test already running"), s)

  unfoldable pub run_speed_test : Shared F → Answer F × Shared F
  run_speed_test s = started (trigger s)

module _ {F : Type 0} (fl : Floats F) (codec : Codec F) where
  unfoldable pub summary_handler : Time → Shared F → Db F → Answer F × Db F
  summary_handler now s = respond summary (build_summary fl codec (speed_running s) now)

  unfoldable pub settings_handler : Db F → Answer F × Db F
  settings_handler = respond of_settings (settings fl.of_nat codec)

  -- The body that was bound, or the error of binding it.
  unfoldable pub save_settings_handler : Result (Settings F) → Db F → Answer F × Db F
  save_settings_handler bound = or_bad bound (λ sent.
      respond (λ _. of_settings (normalize_settings fl sent))
        (save_settings codec (normalize_settings fl sent)))

  -- What is known of the router from the sample that was stored last. With none, `checkedAt` is the zero
  -- time, here 0.
  abbrev pub capability_of : Option (Stored F) → RouterTrafficCapability
  capability_of none = record {
    provider = provider_name;
    checked_at = 0;
    reachable = false;
    authenticated = false;
    client_list_available = false;
    download_available = false;
    upload_available = false;
    total_traffic_available = false;
    error = [];
    sources = [];
  }
  capability_of (some (sample, clients)) = record {
    provider = provider_name;
    checked_at = sample.checked_at;
    reachable = true;
    authenticated = sample.success;
    client_list_available = ltb 0 sample.client_count;
    download_available = sample.download_available;
    upload_available = sample.upload_available;
    total_traffic_available = sample.total_traffic_available;
    error = sample.error;
    sources = [];
  }

  abbrev sample_in : Option (Stored F) → Option (RouterTrafficSample F)
  sample_in none = none
  sample_in (some x) = some x.0

  abbrev clients_in : Option (Stored F) → List (RouterTrafficClient F)
  clients_in none = []
  clients_in (some x) = x.1

  unfoldable pub current_of : Settings F → Option (Stored F) → RouterTrafficCurrent F
  current_of x latest = record {
    capability =
        if not x.router_traffic_enabled
        then record (capability_of latest) { error = bytes "router traffic monitoring is disabled" }
        else capability_of latest;
    latest = sample_in latest;
    clients = clients_in latest;
  }

  unfoldable pub current_router_traffic : ClientsCodec F → Db F → Answer F × Db F
  current_router_traffic clients d =
      handle (settings fl.of_nat codec d) (λ e d'. (fail_with 500 e, d'))
        (λ x. respond (λ latest. traffic (current_of x latest)) (latest_router_traffic clients))

  abbrev probed : Snapshot F × Service F → Answer F × Service F
  probed (snapshot, s) = (
    json 200 (
        traffic (record {
          capability = snapshot.capability;
          latest = some snapshot.sample;
          clients = snapshot.clients;
        })),
    s,
  )

  abbrev probe_with :
      RouterTools F → ProbeTimes → Service F → Result (Settings F) × Db F → Answer F × Service F
  probe_with tools times s (err e, d) = (fail_with 500 e, record s { db = d })
  probe_with tools times s (ok x, d) =
      probed (probe_router_traffic tools (normalize_settings fl x) times (record s { db = d }))

  -- `probeRouterTraffic`, which stores nothing.
  unfoldable pub probe_router_traffic_handler :
      RouterTools F → ProbeTimes → Service F → Answer F × Service F
  probe_router_traffic_handler tools times s =
      probe_with tools times s (settings fl.of_nat codec s.db)
