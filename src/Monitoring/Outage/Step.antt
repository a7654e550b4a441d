-- ===== src/Monitoring/Outage/Step.antt =====
-- One round of `updateOutage`: what it keeps, whatever fails, and what it does when nothing fails.
use homelink_monitor.Base.{
  ◌≡◌, refl, sym, subst, Bool, Option, bytes, Result, ok, err, is_some, if-either,
}
use homelink_monitor.Domain.{Time, Settings, Outage, NotificationEvent}
use homelink_monitor.Store.Schema.{Db}
use homelink_monitor.Store.Outages.{active_outage}
use homelink_monitor.Store.Outages.Laws.{
  IsValid, open_outage-IsValid, close_active_outage-IsValid, active_outage-IsValid,
}
use homelink_monitor.Monitoring.Decisions.{should_open_outage, should_close_outage}
use homelink_monitor.Monitoring.Service.{Service, Setup, emit-db, emit-fail_count}
use homelink_monitor.Monitoring.Outage.{
  announce, outage_opened, outage_closed, try_open, try_close, react, next_count, react_to,
  update_outage,
}

module _ {F : Type 0} (env : Setup F) where
  pub announce-db :
      (now : Time) (event : NotificationEvent) (s : Service F) (r : Result (Unit {0}) × Db F)
      → (announce env now event s r).db ≡ r.1
  announce-db now event s (err e, d) = refl
  announce-db now event s (ok _, d) = emit-db env now event (record s { db = d })

  pub announce-fail_count :
      (now : Time) (event : NotificationEvent) (s : Service F) (r : Result (Unit {0}) × Db F)
      → (announce env now event s r).fail_count ≡ s.fail_count
  announce-fail_count now event s (err e, d) = refl
  announce-fail_count now event s (ok _, d) = emit-fail_count env now event (record s { db = d })

  try_open-IsValid : (now : Time) (s : Service F) → IsValid s.db → IsValid (try_open env now s).db
  unfolding try_open
  try_open-IsValid now s v =
      subst IsValid (sym (announce-db now (outage_opened env now) s _))
        (open_outage-IsValid now (bytes "all latency targets failed") s.db v)

  try_close-IsValid : (now : Time) (s : Service F) → IsValid s.db → IsValid (try_close env now s).db
  unfolding try_close
  try_close-IsValid now s v =
      subst IsValid (sym (announce-db now (outage_closed env now) s _))
        (close_active_outage-IsValid now s.db v)

  react-IsValid :
      (settings : Settings F) (any_success : Bool) (now : Time) (active : Bool) (s : Service F)
      → IsValid s.db
      → IsValid (react env settings any_success now active s).db
  unfolding react
  react-IsValid settings any_success now active s v =
      let opened =
        if-either (λ (t : Service F). IsValid t.db)
          (should_open_outage s.fail_count settings.outage_failure_threshold active)
          (try_open env now s) s (try_open-IsValid now s v) v in
      if-either (λ (t : Service F). IsValid t.db) (should_close_outage any_success active) _ _
        (try_close-IsValid now _ opened) opened

  react_to-IsValid :
      (settings : Settings F) (all_failed any_success : Bool) (now : Time) (s : Service F)
      (r : Result (Option Outage) × Db F)
      → IsValid r.1
      → IsValid (react_to env settings all_failed any_success now s r).db
  react_to-IsValid settings all_failed any_success now s (err e, d) v = v
  react_to-IsValid settings all_failed any_success now s (ok active, d) v =
      react-IsValid settings any_success now (is_some active)
        (record s { db = d; fail_count = next_count all_failed s.fail_count }) v

  -- A round keeps the outages valid: at most one is open and every row can be read back, whichever
  -- of its statements fail, and whatever is written to the outbox.
  pub update_outage-IsValid :
      (settings : Settings F) (all_failed any_success : Bool) (now : Time) (s : Service F)
      → IsValid s.db
      → IsValid (update_outage env settings all_failed any_success now s).db
  unfolding update_outage
  update_outage-IsValid settings all_failed any_success now s v =
      react_to-IsValid settings all_failed any_success now s (active_outage s.db)
        (active_outage-IsValid s.db v)
