-- ===== src/HttpApi/Reads/Quiet.antt =====
-- The handlers of GET requests leave every table as it is.
use homelink_monitor.Base.{refl, Option, Result, ok, err, Eff, Floats, bytes}
use homelink_monitor.Domain.{Time}
use homelink_monitor.Store.Schema.{Db}
use homelink_monitor.Store.Schema.Keeps.{tables, Keeps, handled-Keeps}
use homelink_monitor.Store.Quiet.{
  settings-Keeps, latest_speed_test-Keeps, speed_tests-Keeps, latency-Keeps, latency_summary-Keeps,
  dns_checks-Keeps, latest_dns-Keeps, active_outage-Keeps, list_outages-Keeps,
  latest_router_traffic-Keeps, router_traffic_samples-Keeps,
}
use homelink_monitor.Store.Settings.{Codec, settings}
use homelink_monitor.Store.RouterTraffic.{ClientsCodec, latest_router_traffic}
use homelink_monitor.Monitoring.Summary.Consistent.{build_summary-Keeps}
use homelink_monitor.Monitoring.Trigger.{Shared, speed_running}
use homelink_monitor.HttpApi.Requests.{Request, Parsers, time_param}
use homelink_monitor.HttpApi.Reads.{
  Answer, Payload, traffic, current_of, respond, or_bad, with_span, speed_tests_handler,
  latency_handler, latency_summary_handler, dns_checks_handler, router_traffic_handler,
  outages_handler, latest_speed_test_handler, latest_dns_handler, active_outage_handler,
  summary_handler, settings_handler, current_router_traffic,
}

module _ {F : Type 0} where
  pub respond-Keeps :
      {A : Type 0} (payload : A → Payload F) (call : Eff (Db F) A)
      → Keeps tables call
      → Keeps tables (respond payload call)
  unfolding respond
  respond-Keeps payload call k d =
      handled-Keeps tables d (call d) _ _ (k d) (λ e d'. refl) (λ a d'. refl)

  or_bad-Keeps :
      {A : Type 0} (r : Result A) (next : A → Db F → Answer F × Db F)
      → ((a : A) → Keeps tables (next a))
      → Keeps tables (or_bad r next)
  or_bad-Keeps (ok a) next k d = k a d
  or_bad-Keeps (err e) next k d = refl

  module _ (parsers : Parsers) (r : Request) where
    with_span-Keeps :
        (next : Option Time → Option Time → Db F → Answer F × Db F)
        → ((from to : Option Time) → Keeps tables (next from to))
        → Keeps tables (with_span parsers r next)
    with_span-Keeps next k =
        or_bad-Keeps (time_param parsers r (bytes "from")) _
          (λ from. or_bad-Keeps (time_param parsers r (bytes "to")) _ (k from))

    pub speed_tests_handler-Keeps : Keeps {F = F} tables (speed_tests_handler parsers r)
    unfolding speed_tests_handler
    speed_tests_handler-Keeps =
        with_span-Keeps _ (λ from to. respond-Keeps _ _ (speed_tests-Keeps _ _ from to))

    pub latency_handler-Keeps : Keeps {F = F} tables (latency_handler parsers r)
    unfolding latency_handler
    latency_handler-Keeps =
        with_span-Keeps _ (λ from to. respond-Keeps _ _ (latency-Keeps _ _ from to))

    pub latency_summary_handler-Keeps :
        (fl : Floats F) → Keeps tables (latency_summary_handler parsers r fl)
    unfolding latency_summary_handler
    latency_summary_handler-Keeps fl =
        with_span-Keeps _ (λ from to. respond-Keeps _ _ (latency_summary-Keeps fl from to))

    pub dns_checks_handler-Keeps : Keeps {F = F} tables (dns_checks_handler parsers r)
    unfolding dns_checks_handler
    dns_checks_handler-Keeps = respond-Keeps _ _ (dns_checks-Keeps _)

    pub router_traffic_handler-Keeps :
        (codec : ClientsCodec F) → Keeps tables (router_traffic_handler parsers r codec)
    unfolding router_traffic_handler
    router_traffic_handler-Keeps codec = respond-Keeps _ _ (router_traffic_samples-Keeps codec _)

    pub outages_handler-Keeps : Keeps {F = F} tables (outages_handler parsers r)
    unfolding outages_handler
    outages_handler-Keeps = respond-Keeps _ _ (list_outages-Keeps _)

  pub latest_speed_test_handler-Keeps : Keeps {F = F} tables latest_speed_test_handler
  unfolding latest_speed_test_handler
  latest_speed_test_handler-Keeps = respond-Keeps _ _ latest_speed_test-Keeps

  pub latest_dns_handler-Keeps : Keeps {F = F} tables latest_dns_handler
  unfolding latest_dns_handler
  latest_dns_handler-Keeps = respond-Keeps _ _ latest_dns-Keeps

  pub active_outage_handler-Keeps : Keeps {F = F} tables active_outage_handler
  unfolding active_outage_handler
  active_outage_handler-Keeps = respond-Keeps _ _ active_outage-Keeps

module _ {F : Type 0} (fl : Floats F) (codec : Codec F) where
  pub summary_handler-Keeps :
      (now : Time) (s : Shared F) → Keeps tables (summary_handler fl codec now s)
  unfolding summary_handler
  summary_handler-Keeps now s =
      respond-Keeps _ _ (build_summary-Keeps fl codec (speed_running s) now)

  pub settings_handler-Keeps : Keeps tables (settings_handler fl codec)
  unfolding settings_handler
  settings_handler-Keeps = respond-Keeps _ _ (settings-Keeps fl codec)

  pub current_router_traffic-Keeps :
      (clients : ClientsCodec F) → Keeps tables (current_router_traffic fl codec clients)
  unfolding current_router_traffic
  current_router_traffic-Keeps clients d =
      handled-Keeps tables d (settings fl.of_nat codec d) _ _ (settings-Keeps fl codec d)
        (λ e d'. refl)
        (λ x.
          respond-Keeps (λ latest. traffic (current_of fl codec x latest))
            (latest_router_traffic clients) (latest_router_traffic-Keeps clients))
