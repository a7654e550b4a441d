-- ===== src/HttpApi/Serve/Tests.antt =====
-- A request from another site, and one without a session.
use homelink_monitor.Base.{ℕ, refl, none, [], bytes, text_eq}
use homelink_monitor.HttpApi.Requests.{same_origin}
use homelink_monitor.HttpApi.Serve.{Call, serve}
use homelink_monitor.HttpApi.Serve.Unchanged.{IsUnchanged}
use homelink_monitor.HttpApi.Serve.CrossOrigin.{serve-IsUnchanged}
use homelink_monitor.HttpApi.Serve.Refused.{IsRefusal, serve-IsRefusal}
use homelink_monitor.HttpApi.Serve.Examples.{
  server, request, call, moment, state, echo, echo-MatchesMethods,
}

serve-IsUnchanged_example : IsUnchanged state (serve server call moment state).1
unfolding bytes same_origin
serve-IsUnchanged_example = serve-IsUnchanged server call moment state echo-MatchesMethods refl refl

-- The same request from this site, with no cookie.
abbrev anonymous : Call ℕ
anonymous = record call { cookie = none; request = record request { origin = [] } }

serve-IsRefusal_example :
    IsUnchanged state (serve server anonymous moment state).1
    × IsRefusal echo none (serve server anonymous moment state).0
unfolding bytes text_eq
serve-IsRefusal_example = serve-IsRefusal server anonymous moment state refl tt
