-- ===== src/Router/Probe/Coherent.antt =====
-- Whatever the router answers, the parts of a snapshot agree.
use homelink_monitor.Base.{
  ℕ, ◌≡◌, refl, Bool, true, false, ◌||◌, Option, none, some, List, [], ◌∷◌, Text, bytes, is_empty,
  Result, ok, err, handle, Eff, length, Bool-cases, if-either, inl, inr, trim_space, Floats, arith,
}
use homelink_monitor.Domain.{Time, RouterTrafficClient}
use homelink_monitor.Router.Library.{Library}
use homelink_monitor.Router.Session.{Line}
use homelink_monitor.Router.SgLogin.{login_sg}
use homelink_monitor.Router.Login.{login_be550, login_legacy, login}
use homelink_monitor.Router.Provider.{
  RouterSettings, Hub, Readings, session, after_login, https_fallback_url, normalize_base_url,
  is_cached, session_key,
}
use homelink_monitor.Router.Probe.{
  Snapshot, failed_snapshot, snapshot_of, collect_and_report, probe_base_url, better_of,
  retry_https, probe_url, probe_and_collect, should_retry_https,
}

-- An error has a text.
abbrev pub IsSaid : {A S : Type 0} → Result A × S → Type 0
IsSaid (ok a, s) = Unit
IsSaid (err e, s) = is_empty e ≡ false

module _ {F : Type 0} (lib : Library F) where
  login_legacy-IsSaid : (failures : List Text) (l : Line) → IsSaid (login_legacy lib failures l)
  unfolding login_legacy bytes
  login_legacy-IsSaid failures l = ground arith

  or_else-IsSaid :
      (r : Result (Unit {0}) × Line) (g : Text → Eff Line (Unit {0}))
      → ((e : Text) (l : Line) → IsSaid (g e l))
      → IsSaid (handle r g (λ _ l'. (ok tt, l')))
  or_else-IsSaid (ok _, l) g bad = tt
  or_else-IsSaid (err e, l) g bad = bad e l

  login-IsSaid : (l : Line) → IsSaid (login lib l)
  unfolding login
  login-IsSaid l =
      or_else-IsSaid (login_be550 lib l) _
        (λ e l'. or_else-IsSaid (login_sg lib l') _ (λ e'. login_legacy-IsSaid _))

  after_login-IsSaid :
      (key : Text) (now : Time) (h : Hub) (r : Result (Unit {0}) × Line)
      → IsSaid r
      → IsSaid (after_login lib key now h r)
  after_login-IsSaid key now h (ok _, l) said = tt
  after_login-IsSaid key now h (err e, l) said = said

  session-IsSaid :
      (settings : RouterSettings) (base_url : Text) (now : Time) (h : Hub)
      → IsSaid (session lib settings base_url now h)
  unfolding session
  session-IsSaid settings base_url now h =
      elim (Bool-cases (is_cached h.provider (session_key lib settings base_url) now)) [
        | inl cached ↦ rw cached tt
        | inr new ↦ rw new (after_login-IsSaid _ now h _ (login-IsSaid _))
      ]

  normalize_base_url-IsSaid : (raw : Text) (h : Hub) → IsSaid (normalize_base_url lib raw, h)
  unfolding normalize_base_url bytes
  normalize_base_url-IsSaid raw h = ground arith

abbrev pub has_any : {A : Type 0} → List A → Bool
has_any [] = false
has_any (a ∷ list) = true

-- A snapshot: it succeeded exactly if it lists clients, and then it is authenticated and has no
-- error; else it has an error. The sample and the capability say the same.
pub record IsCoherent {F : Type 0} (s : Snapshot F) : Type 0 where
  pub counted : s.sample.client_count ≡ length s.clients
  pub listed : s.capability.client_list_available ≡ s.sample.success
  pub succeeded : s.sample.success ≡ has_any s.clients
  pub authenticated : s.sample.success ≡ true → s.capability.authenticated ≡ true
  pub reachable : s.capability.authenticated ≡ true → s.capability.reachable ≡ true
  pub explained : is_empty s.sample.error ≡ s.sample.success
  pub same_error : s.capability.error ≡ s.sample.error
  pub same_time : s.capability.checked_at ≡ s.sample.checked_at
  pub same_download : s.capability.download_available ≡ s.sample.download_available
  pub same_upload : s.capability.upload_available ≡ s.sample.upload_available
  pub same_total : s.capability.total_traffic_available ≡ s.sample.total_traffic_available

failed_snapshot-IsCoherent :
    {F : Type 0} (checked : Time) (reachable : Bool) (e : Text)
    → is_empty e ≡ false
    → IsCoherent (failed_snapshot {F = F} checked reachable e)
failed_snapshot-IsCoherent checked reachable e said = ground arith

module _ {F : Type 0} (fl : Floats F) (lib : Library F) where
  snapshot_of-IsCoherent :
      (checked : Time) (sources : List Text) (clients : List (RouterTrafficClient F))
      → IsCoherent (snapshot_of fl lib checked sources clients)
  unfolding snapshot_of bytes
  snapshot_of-IsCoherent checked sources [] = ground arith
  snapshot_of-IsCoherent checked sources (c ∷ clients) = ground arith

  session_snapshot-IsCoherent :
      (settings : RouterSettings) (base_url : Text) (times : Readings) (r : Result ℕ × Hub)
      → IsSaid r
      → IsCoherent
          (handle r
            (λ e h'. (failed_snapshot times.checked true e, h'))
            (collect_and_report fl lib settings base_url times)).0
  session_snapshot-IsCoherent settings base_url times (ok n, h) said =
      snapshot_of-IsCoherent times.checked _ _
  session_snapshot-IsCoherent settings base_url times (err e, h) said =
      failed_snapshot-IsCoherent times.checked true e said

  probe_base_url-IsCoherent :
      (settings : RouterSettings) (base_url : Text) (times : Readings) (h : Hub)
      → IsCoherent (probe_base_url fl lib settings base_url times h).0
  unfolding probe_base_url
  probe_base_url-IsCoherent settings base_url times h =
      session_snapshot-IsCoherent settings base_url times
        (session lib settings base_url times.first h)
        (session-IsSaid lib settings base_url times.first h)

  better_of-IsCoherent :
      (first : Snapshot F) (x : Snapshot F × Hub)
      → IsCoherent first
      → IsCoherent x.0
      → IsCoherent (better_of fl lib first x).0
  better_of-IsCoherent first (again, h) c d =
      if-either (λ (x : Snapshot F × Hub). IsCoherent x.0)
        (again.capability.authenticated || again.sample.success) _ _ d c

  retry_https-IsCoherent :
      (settings : RouterSettings) (url : Option Text) (times : Readings) (x : Snapshot F × Hub)
      → IsCoherent x.0
      → IsCoherent (retry_https fl lib settings url times x).0
  retry_https-IsCoherent settings none times (first, h) c = c
  retry_https-IsCoherent settings (some url) times (first, h) c =
      if-either (λ (x : Snapshot F × Hub). IsCoherent x.0) (should_retry_https first) _ _
        (better_of-IsCoherent first (probe_base_url fl lib settings url times h) c
          (probe_base_url-IsCoherent settings url times h))
        c

  probe_url-IsCoherent :
      (settings : RouterSettings) (base_url : Result Text) (times https_times : Readings) (h : Hub)
      → IsSaid (base_url, h)
      → IsCoherent (probe_url fl lib settings base_url times https_times h).0
  probe_url-IsCoherent settings (err e) times https_times h said =
      failed_snapshot-IsCoherent times.checked false e said
  probe_url-IsCoherent settings (ok base_url) times https_times h said =
      retry_https-IsCoherent settings (https_fallback_url lib base_url) https_times
        (probe_base_url fl lib settings base_url times h)
        (probe_base_url-IsCoherent settings base_url times h)

  -- Whatever the settings, the router's answers and the cached session: a snapshot of
  -- `ProbeAndCollect` succeeded exactly if it lists clients, and then it is authenticated and has
  -- no error; else it has the text of an error. Its client count is that of its clients, what is
  -- authenticated is reachable, and the sample and the capability agree.
  pub probe_and_collect-IsCoherent :
      (settings : RouterSettings) (times https_times : Readings) (h : Hub)
      → IsCoherent (probe_and_collect fl lib settings times https_times h).0
  unfolding probe_and_collect bytes
  probe_and_collect-IsCoherent settings times https_times h =
      if-either (λ (x : Snapshot F × Hub). IsCoherent x.0)
        (is_empty (trim_space settings.url) || is_empty settings.password) _ _
        (failed_snapshot-IsCoherent times.checked false _ refl)
        (probe_url-IsCoherent settings (normalize_base_url lib settings.url) times https_times h
          (normalize_base_url-IsSaid lib settings.url h))
