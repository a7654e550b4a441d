-- ===== src/Monitoring/Outage/Frame.antt =====
-- The outage detector leaves the users, the latency checks and the router's session alone, and keeps a
-- sound database.
use homelink_monitor.Base.{
  ◌≡◌, refl, ap, ◌∙◌, Bool, Option, Text, Result, ok, err, is_some, if-either, ltb, if◌then◌else◌,
}
use homelink_monitor.Domain.{Time, Settings, Outage, NotificationEvent}
use homelink_monitor.Store.Schema.{Db, Table, UserRow, LatencyRow, query}
use homelink_monitor.Store.Schema.Keeps.{Keeps, bind-Keeps, statement-Keeps}
use homelink_monitor.Store.Quiet.{active_outage-Keeps}
use homelink_monitor.Store.Outages.{
  active_outage, open_outage, close_active_outage, insert_outage, end_outages, count_open,
}
use homelink_monitor.Store.Sound.{IsSound, outages_only, IsValid-outages}
use homelink_monitor.Monitoring.Decisions.{should_open_outage}
use homelink_monitor.Monitoring.Service.{Service, Setup, emit-db, emit-router}
use homelink_monitor.Monitoring.Outage.{
  announce, try_open, try_close, react, react_to, update_outage, next_count,
}
use homelink_monitor.Monitoring.Outage.Step.{update_outage-IsValid}

-- The tables that a round of the detector does not touch.
abbrev others_of : {F : Type 0} → Db F → Table UserRow × Table (LatencyRow F)
others_of d = (d.users, d.latency_checks)

module _ {F : Type 0} where
  open_outage-Keeps : (t : Time) (reason : Text) → Keeps {F = F} others_of (open_outage t reason)
  unfolding open_outage insert_outage
  open_outage-Keeps t reason =
      bind-Keeps others_of (query count_open) _
        (statement-Keeps others_of _ (λ d faults. refl) (λ d. refl))
        (λ active.
          if-either (λ (run : Db F → Result (Unit {0}) × Db F). Keeps others_of run) (ltb 0 active)
            _ _ (λ d. refl) (statement-Keeps others_of _ (λ d faults. refl) (λ d. refl)))

  close_active_outage-Keeps : (t : Time) → Keeps {F = F} others_of (close_active_outage t)
  unfolding close_active_outage end_outages
  close_active_outage-Keeps t = statement-Keeps others_of _ (λ d faults. refl) (λ d. refl)

  -- The same users and latency checks, and the same router.
  abbrev IsFramed : Service F → Service F → Type 0
  IsFramed s t = (others_of t.db ≡ others_of s.db) × (t.router ≡ s.router)

  IsFramed-trans : (s t u : Service F) → IsFramed s t → IsFramed t u → IsFramed s u
  IsFramed-trans s t u (tables, router) (tables', router') = (tables' ∙ tables, router' ∙ router)

module _ {F : Type 0} (env : Setup F) where
  announce-IsFramed :
      (now : Time) (event : NotificationEvent) (s : Service F) (r : Result (Unit {0}) × Db F)
      → others_of r.1 ≡ others_of s.db
      → IsFramed s (announce env now event s r)
  announce-IsFramed now event s (err e, d) h = (h, refl)
  announce-IsFramed now event s (ok _, d) h =
      (ap others_of (emit-db env now event _) ∙ h, emit-router env now event _)

  try_open-IsFramed : (now : Time) (s : Service F) → IsFramed s (try_open env now s)
  unfolding try_open
  try_open-IsFramed now s = announce-IsFramed now _ s _ (open_outage-Keeps now _ s.db)

  try_close-IsFramed : (now : Time) (s : Service F) → IsFramed s (try_close env now s)
  unfolding try_close
  try_close-IsFramed now s = announce-IsFramed now _ s _ (close_active_outage-Keeps now s.db)

  react-IsFramed :
      (settings : Settings F) (any_success : Bool) (now : Time) (active : Bool) (s : Service F)
      → IsFramed s (react env settings any_success now active s)
  unfolding react
  react-IsFramed settings any_success now active s =
      let opened =
        if should_open_outage s.fail_count settings.outage_failure_threshold active
        then try_open env now s
        else s in
      let first : IsFramed s opened =
        if-either (λ (t : Service F). IsFramed s t) _ _ _ (try_open-IsFramed now s) (refl, refl) in
      if-either (λ (t : Service F). IsFramed s t) _ _ _
        (IsFramed-trans s opened (try_close env now opened) first (try_close-IsFramed now opened))
        first

  react_to-IsFramed :
      (settings : Settings F) (all_failed any_success : Bool) (now : Time) (s : Service F)
      (r : Result (Option Outage) × Db F)
      → others_of r.1 ≡ others_of s.db
      → IsFramed s (react_to env settings all_failed any_success now s r)
  react_to-IsFramed settings all_failed any_success now s (err e, d) h = (h, refl)
  react_to-IsFramed settings all_failed any_success now s (ok active, d) h =
      let counted = record s { db = d; fail_count = next_count all_failed s.fail_count } in
      IsFramed-trans s counted (react env settings any_success now (is_some active) counted)
        (h, refl) (react-IsFramed settings any_success now (is_some active) counted)

  update_outage-IsFramed :
      (settings : Settings F) (all_failed any_success : Bool) (now : Time) (s : Service F)
      → IsFramed s (update_outage env settings all_failed any_success now s)
  unfolding update_outage
  update_outage-IsFramed settings all_failed any_success now s =
      react_to-IsFramed settings all_failed any_success now s (active_outage s.db)
        (ap others_of (active_outage-Keeps s.db))

  pub update_outage-router :
      (settings : Settings F) (all_failed any_success : Bool) (now : Time) (s : Service F)
      → (update_outage env settings all_failed any_success now s).router ≡ s.router
  update_outage-router settings all_failed any_success now s =
      (update_outage-IsFramed settings all_failed any_success now s).1

  pub update_outage-IsSound :
      (settings : Settings F) (all_failed any_success : Bool) (now : Time) (s : Service F)
      → IsSound s.db
      → IsSound (update_outage env settings all_failed any_success now s).db
  update_outage-IsSound settings all_failed any_success now s ((keys, valid), some_) =
      let (same, _) = update_outage-IsFramed settings all_failed any_success now s in
      let valid' =
        update_outage-IsValid env settings all_failed any_success now s
          (IsValid-outages (outages_only s.db.outages) s.db refl valid) in
      let users : (update_outage env settings all_failed any_success now s).db.users ≡ s.db.users =
        ap (λ (x : Table UserRow × Table (LatencyRow F)). x.0) same in
      ((rw users keys, IsValid-outages _ (outages_only _) refl valid'), rw users some_)

  pub update_outage-latency_checks :
      (settings : Settings F) (all_failed any_success : Bool) (now : Time) (s : Service F)
      → (update_outage env settings all_failed any_success now s).db.latency_checks
        ≡ s.db.latency_checks
  update_outage-latency_checks settings all_failed any_success now s =
      ap (λ (x : Table UserRow × Table (LatencyRow F)). x.1)
        (update_outage-IsFramed settings all_failed any_success now s).0
