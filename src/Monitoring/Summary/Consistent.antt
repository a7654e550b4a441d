-- ===== src/Monitoring/Summary/Consistent.antt =====
-- A summary leaves the database as it is, and its status fits its other parts.
use homelink_monitor.Base.{
  ◌≡◌, refl, ◌∙◌, Bool, Result, ok, err, Eff, ◌>>=◌, Ends, proceed-Ends, Floats,
}
use homelink_monitor.Domain.{Time, Summary}
use homelink_monitor.Store.Schema.{Db}
use homelink_monitor.Store.Settings.{Codec, settings}
use homelink_monitor.Store.SpeedTests.{latest_speed_test}
use homelink_monitor.Store.Checks.{latest_latency, latest_dns}
use homelink_monitor.Store.LatencyStats.{latency_summary, speed_bounds_since}
use homelink_monitor.Store.Outages.{active_outage, outage_count_since}
use homelink_monitor.Store.Schema.Keeps.{tables, Keeps}
use homelink_monitor.Store.Quiet.{
  settings-Keeps, latest_speed_test-Keeps, latest_latency-Keeps, latest_dns-Keeps,
  latency_summary-Keeps, active_outage-Keeps, outage_count_since-Keeps, speed_bounds_since-Keeps,
}
use homelink_monitor.Monitoring.Summary.Status.{Describes, connection_status-Describes}
use homelink_monitor.Monitoring.Summary.{build_summary}

abbrev Any : {A : Type 0} → A → Type 0
Any a = Unit

module _ {F : Type 0} where
  -- The same tables.
  abbrev pub IsSame : Db F → Db F → Type 0
  IsSame d d' = tables d' ≡ tables d

  -- The outcome of a call that leaves the tables as they are, and yields what has the property.
  abbrev pub IsRead : {A : Type 0} → (A → Type 0) → Db F → Result A × Db F → Type 0
  IsRead P d r = Ends (λ a d'. P a × IsSame d d') (λ d'. IsSame d d') r

  abbrev pub Reads : {A : Type 0} → (A → Type 0) → Eff (Db F) A → Type 0
  Reads P m = (d : Db F) → IsRead P d (m d)

  IsRead-Ends : {A : Type 0} (d : Db F) (r : Result A × Db F) → IsSame d r.1 → IsRead Any d r
  IsRead-Ends d (ok a, d') e = (tt, e)
  IsRead-Ends d (err x, d') e = e

  -- What keeps the tables.
  kept-Reads : {A : Type 0} (m : Eff (Db F) A) → Keeps tables m → Reads Any m
  kept-Reads m k d = IsRead-Ends d (m d) (k d)

  after-IsRead :
      {B : Type 0} (P : B → Type 0) (d d' : Db F) (r : Result B × Db F)
      → IsSame d d'
      → IsRead P d' r
      → IsRead P d r
  after-IsRead P d d' (ok b, d'') e h = (h.0, h.1 ∙ e)
  after-IsRead P d d' (err x, d'') e h = h ∙ e

  bind-Reads :
      {A B : Type 0} (P : B → Type 0) (m : Eff (Db F) A) (f : A → Eff (Db F) B)
      → Reads Any m
      → ((a : A) → Reads P (f a))
      → Reads P (m >>= f)
  bind-Reads P m f first next d =
      proceed-Ends (λ a d'. Any a × IsSame d d') (λ b d'. P b × IsSame d d') (λ d'. IsSame d d')
        (m d) f (first d) (λ a d' h. after-IsRead P d d' (f a d') h.1 (next a d'))

module _ {F : Type 0} (fl : Floats F) (codec : Codec F) where
  -- The status says what the other parts of the same summary show.
  abbrev pub IsConsistent : Bool → Summary F → Type 0
  IsConsistent running s =
      Describes fl s.settings s.latest_speed_test s.latest_latency s.latest_dns_check
        s.active_outage s.status
      × (s.speed_test_is_running ≡ running)

  -- Whichever of its statements fail, `BuildSummary` leaves every table as it is. In a summary that
  -- it returns, the status is "down" exactly if the summary has an active outage, or its latest
  -- checks of latency and DNS both failed; it is "healthy" exactly if the summary has no active
  -- outage, its latest checks, if any, succeeded, the latency is not above the limit in its settings,
  -- and its latest speed test, if any, failed or is not below their rates; and else it is
  -- "degraded". The flag for a running speed test is the one given.
  pub build_summary-IsConsistent :
      (running : Bool) (now : Time) (d : Db F)
      → IsRead (IsConsistent running) d (build_summary fl codec running now d)
  unfolding build_summary
  build_summary-IsConsistent running now d =
      let P = IsConsistent running in
      bind-Reads P _ _ (kept-Reads (settings fl.of_nat codec) (settings-Keeps fl codec))
        (λ s. bind-Reads P _ _ (kept-Reads latest_speed_test latest_speed_test-Keeps) (λ t.
          bind-Reads P _ _ (kept-Reads latest_latency latest_latency-Keeps) (λ l.
            bind-Reads P _ _ (kept-Reads latest_dns latest_dns-Keeps) (λ c.
              bind-Reads P _ _ (kept-Reads (latency_summary fl _ _) (latency_summary-Keeps fl _ _))
                (λ m. bind-Reads P _ _ (kept-Reads active_outage active_outage-Keeps) (λ o.
                  bind-Reads P _ _ (kept-Reads (outage_count_since _) (outage_count_since-Keeps _))
                    (λ n.
                      bind-Reads P _ _
                        (kept-Reads (speed_bounds_since fl _) (speed_bounds_since-Keeps fl _))
                        (λ b d'. ((connection_status-Describes fl s t l c o, refl), refl)))))))))
        d

  pub build_summary-Keeps :
      (running : Bool) (now : Time) → Keeps tables (build_summary fl codec running now)
  build_summary-Keeps running now d =
      forget (build_summary fl codec running now d) (build_summary-IsConsistent running now d)
    where
      forget : (r : Result (Summary F) × Db F) → IsRead (IsConsistent running) d r → IsSame d r.1
      forget (ok a, d') h = h.1
      forget (err e, d') h = h
