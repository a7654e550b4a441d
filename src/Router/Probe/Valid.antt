-- ===== src/Router/Probe/Valid.antt =====
-- A probe leaves the cache empty or pointing to a session with a token.
use homelink_monitor.Base.{
  Option, none, some, Text, is_empty, ◌||◌, Result, ok, err, if-either, trim_space, Floats,
}
use homelink_monitor.Router.Library.{Library}
use homelink_monitor.Router.Provider.{
  RouterSettings, Hub, Readings, session, collect_at, https_fallback_url, normalize_base_url,
}
use homelink_monitor.Router.Provider.Cache.{
  IsValid, session-IsOpened, collect_at-IsValid, retry_once-IsValid, handle-IsValid,
}
use homelink_monitor.Router.Probe.{
  Snapshot, probe_base_url, retry_https, probe_url, probe_and_collect, should_retry_https,
}

module _ {F : Type 0} (fl : Floats F) (lib : Library F) where
  probe_base_url-IsValid :
      (settings : RouterSettings) (base_url : Text) (times : Readings) (h : Hub)
      → IsValid h
      → IsValid (probe_base_url fl lib settings base_url times h).1
  unfolding probe_base_url
  probe_base_url-IsValid settings base_url times h valid =
      handle-IsValid (session lib settings base_url times.first h) _ _
        (session-IsOpened lib settings base_url times.first h valid) (λ e h' v. v)
        (λ n h' v.
          retry_once-IsValid lib settings base_url times n (collect_at lib n h')
            (collect_at-IsValid lib n h' v))

  retry_https-IsValid :
      (settings : RouterSettings) (url : Option Text) (times : Readings) (x : Snapshot F × Hub)
      → IsValid x.1
      → IsValid (retry_https fl lib settings url times x).1
  retry_https-IsValid settings none times (first, h) v = v
  retry_https-IsValid settings (some url) times (first, h) v =
      let again = probe_base_url fl lib settings url times h in
      if-either (λ (x : Snapshot F × Hub). IsValid x.1) (should_retry_https first) _ _
        (if-either (λ (x : Snapshot F × Hub). IsValid x.1)
          (again.0.capability.authenticated || again.0.sample.success) _ _
          (probe_base_url-IsValid settings url times h v)
          (probe_base_url-IsValid settings url times h v))
        v

  probe_url-IsValid :
      (settings : RouterSettings) (base_url : Result Text) (times https_times : Readings) (h : Hub)
      → IsValid h
      → IsValid (probe_url fl lib settings base_url times https_times h).1
  probe_url-IsValid settings (err e) times https_times h v = v
  probe_url-IsValid settings (ok base_url) times https_times h v =
      retry_https-IsValid settings (https_fallback_url lib base_url) https_times
        (probe_base_url fl lib settings base_url times h)
        (probe_base_url-IsValid settings base_url times h v)

  -- `ProbeAndCollect` keeps the invariant of the provider: no session is cached, or the cached
  -- pointer is to a session that has logged in and has a token.
  pub probe_and_collect-IsValid :
      (settings : RouterSettings) (times https_times : Readings) (h : Hub)
      → IsValid h
      → IsValid (probe_and_collect fl lib settings times https_times h).1
  unfolding probe_and_collect
  probe_and_collect-IsValid settings times https_times h v =
      if-either (λ (x : Snapshot F × Hub). IsValid x.1)
        (is_empty (trim_space settings.url) || is_empty settings.password) _ _ v
        (probe_url-IsValid settings (normalize_base_url lib settings.url) times https_times h v)
