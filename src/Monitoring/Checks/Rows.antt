-- ===== src/Monitoring/Checks/Rows.antt =====
-- What a latency round stores, and what it does to the outage.
use mathlib.Core.List.{append_assoc, append-nil}
use homelink_monitor.Base.{
  if-either, Result, ℕ, suc, ◌+◌, ◌≡◌, refl, sym, ap, ◌∙◌, Bool, true, false, not, ◌&&◌, ◌||◌, List,
  [], ◌∷◌, ◌++◌, Text, arith, if◌then◌else◌, ok, any, is_empty, ℤ, Bool-cases, inl, inr,
}
use homelink_monitor.Domain.{Time, Settings, LatencyCheck}
use homelink_monitor.Store.Schema.{Db, Table, LatencyRow}
use homelink_monitor.Store.Schema.Rules.{execute_of_nil}
use homelink_monitor.Store.Checks.{insert_latency, add_latency, latency_row}
use homelink_monitor.Monitoring.Service.{Service, Setup, emit-db, emit-fail_count}
use homelink_monitor.Monitoring.Checks.{
  Reply, tcp_latency, latency_event, record_latency, probe_targets, all_targets, check_all,
  check_latency,
}
use homelink_monitor.Store.Outages.{count_open}
use homelink_monitor.Store.Outages.Laws.{IsValid}
use homelink_monitor.Store.Sound.{IsValid-outages}
use homelink_monitor.Monitoring.Outage.Rounds.{Link, link, spec_round, update_outage-refines}
use homelink_monitor.Monitoring.Outage.Frame.{update_outage-latency_checks}

module _ {F : Type 0} where
  abbrev pub any_ok : List (LatencyCheck F) → Bool
  any_ok = any (λ c. c.success)

  -- The rows of the results, with keys from `k` on.
  abbrev pub numbered : ℕ → List (LatencyCheck F) → List (LatencyRow F)
  numbered k [] = []
  numbered k (c ∷ cs) = latency_row c (k + 1) ∷ numbered (k + 1) cs

  -- The targets of the settings, and the router last if it has an address.
  abbrev pub round_targets : Settings F → List Text
  round_targets settings =
      settings.latency_targets
      ++ (if is_empty settings.router_ip then [] else settings.router_ip ∷ [])

  -- The outage and the count after a round: with no target, as before; else what the machine does
  -- when no target, or some target, was reached.
  abbrev pub link_after : ℤ → List Text → List (LatencyCheck F) → Link → Link
  link_after threshold [] cs l = l
  link_after threshold (target ∷ targets) cs l =
      spec_round threshold (not (any_ok cs)) (any_ok cs) l

module _ {F : Type 0} (env : Setup F) (dial : ℕ → Text → Reply F) where
  -- The results of a round, in the order of the targets.
  abbrev pub results : ℕ → List Text → List (LatencyCheck F)
  results n [] = []
  results n (target ∷ targets) = tcp_latency target (dial n target) ∷ results (suc n) targets

  flags_step :
      (good all_failed any_success rest : Bool)
      → ◌≡◌ {A = Bool × Bool}
          (
            (if good then false else all_failed) && not rest,
            (if good then true else any_success) || rest,
          )
          (all_failed && not (good || rest), any_success || (good || rest))
  flags_step good all_failed any_success rest = ground arith

  -- The flags of the loop: all failed until one succeeds, and the other way round.
  probe_targets-flags :
      (n : ℕ) (targets : List Text) (all_failed any_success : Bool) (s : Service F)
      → (probe_targets env dial n targets all_failed any_success s).0 ≡ (
        all_failed && not (any_ok (results n targets)),
        any_success || any_ok (results n targets),
      )
  unfolding probe_targets
  probe_targets-flags n [] all_failed any_success s = ground arith
  probe_targets-flags n (target ∷ targets) all_failed any_success s =
      let c = tcp_latency target (dial n target) in
      probe_targets-flags (suc n) targets (if c.success then false else all_failed)
        (if c.success then true else any_success) (record_latency env c s)
      ∙ flags_step c.success all_failed any_success (any_ok (results (suc n) targets))

  record_latency-db :
      (c : LatencyCheck F) (s : Service F)
      → s.db.faults ≡ []
      → (record_latency env c s).db ≡ add_latency c s.db
  unfolding record_latency insert_latency
  record_latency-db c s f =
      let stored =
        ap (λ (r : Result ℕ × Db F). r.1)
          (execute_of_nil (λ d. (ok (d.latency_checks.last_id + 1), add_latency c d)) s.db f) in
      if-either (λ (t : Service F). t.db ≡ add_latency c s.db) (not c.success) _ _
        (emit-db env c.checked_at (latency_event env c) _ ∙ stored) stored

  record_latency-fail_count :
      (c : LatencyCheck F) (s : Service F) → (record_latency env c s).fail_count ≡ s.fail_count
  unfolding record_latency
  record_latency-fail_count c s =
      if-either (λ (t : Service F). t.fail_count ≡ s.fail_count) (not c.success) _ _
        (emit-fail_count env c.checked_at (latency_event env c) _) refl

  add_latency-faults : (c : LatencyCheck F) (d : Db F) → (add_latency c d).faults ≡ d.faults
  unfolding add_latency
  add_latency-faults c d = refl

  add_latency-numbered :
      (c : LatencyCheck F) (d : Db F) (rest : List (LatencyCheck F))
      → (add_latency c d).latency_checks.rows
          ++ numbered (add_latency c d).latency_checks.last_id rest
        ≡ d.latency_checks.rows ++ numbered d.latency_checks.last_id (c ∷ rest)
  unfolding add_latency
  add_latency-numbered c d rest = append_assoc d.latency_checks.rows _ _

  probe_targets-rows :
      (n : ℕ) (targets : List Text) (all_failed any_success : Bool) (s : Service F)
      → s.db.faults ≡ []
      → (probe_targets env dial n targets all_failed any_success s).1.db.latency_checks.rows
        ≡ s.db.latency_checks.rows ++ numbered s.db.latency_checks.last_id (results n targets)
  unfolding probe_targets
  probe_targets-rows n [] all_failed any_success s f = sym (append-nil s.db.latency_checks.rows)
  probe_targets-rows n (target ∷ targets) all_failed any_success s f =
      let c = tcp_latency target (dial n target) in
      let e = record_latency-db c s f in
      let rest = results (suc n) targets in
      probe_targets-rows (suc n) targets (if c.success then false else all_failed)
        (if c.success then true else any_success) (record_latency env c s)
        (ap (λ (d : Db F). d.faults) e ∙ add_latency-faults c s.db ∙ f)
      ∙ ap (λ (d : Db F). d.latency_checks.rows ++ numbered d.latency_checks.last_id rest) e
      ∙ add_latency-numbered c s.db rest

  -- What the loop leaves for the outage detector: no failing statement, and the outages and the count
  -- of failures as they were.
  abbrev IsLeft : Service F → Service F → Type 0
  IsLeft s t = (t.db.faults ≡ []) × (t.db.outages ≡ s.db.outages) × (t.fail_count ≡ s.fail_count)

  record_latency-IsLeft :
      (c : LatencyCheck F) (s : Service F) → s.db.faults ≡ [] → IsLeft s (record_latency env c s)
  unfolding add_latency
  record_latency-IsLeft c s f =
      let e = record_latency-db c s f in
      (
        ap (λ (d : Db F). d.faults) e ∙ f,
        ap (λ (d : Db F). d.outages) e,
        record_latency-fail_count c s,
      )

  probe_targets-IsLeft :
      (n : ℕ) (targets : List Text) (all_failed any_success : Bool) (s : Service F)
      → s.db.faults ≡ []
      → IsLeft s (probe_targets env dial n targets all_failed any_success s).1
  unfolding probe_targets
  probe_targets-IsLeft n [] all_failed any_success s f = (f, refl, refl)
  probe_targets-IsLeft n (target ∷ targets) all_failed any_success s f =
      let c = tcp_latency target (dial n target) in
      let (f', outages, count) = record_latency-IsLeft c s f in
      let (f'', outages', count') =
        probe_targets-IsLeft (suc n) targets (if c.success then false else all_failed)
          (if c.success then true else any_success) (record_latency env c s) f' in
      (f'', outages' ∙ outages, count' ∙ count)

  all_targets-round_targets :
      (settings : Settings F) → all_targets settings ≡ round_targets settings
  unfolding all_targets
  all_targets-round_targets settings = elim (Bool-cases (is_empty settings.router_ip)) [
    | inl e ↦ rw e (sym (append-nil settings.latency_targets))
    | inr e ↦ rw e refl
  ]

  abbrev IsRound : Settings F → List Text → Service F → Service F → Type 0
  IsRound settings targets s done =
      (done.db.latency_checks.rows
        ≡ s.db.latency_checks.rows ++ numbered s.db.latency_checks.last_id (results 0 targets))
      × (link done
          ≡ link_after settings.outage_failure_threshold targets (results 0 targets) (link s))

  check_all-IsRound :
      (settings : Settings F) (now : Time) (targets : List Text) (s : Service F)
      → IsValid s.db
      → s.db.faults ≡ []
      → IsRound settings targets s (check_all env dial settings now targets s)
  unfolding count_open
  check_all-IsRound settings now [] s v f = (sym (append-nil s.db.latency_checks.rows), refl)
  check_all-IsRound settings now (target ∷ targets) s v f =
      let all = target ∷ targets in
      let good = any_ok (results 0 all) in
      let threshold = settings.outage_failure_threshold in
      let ((all_failed, any_success), done) = probe_targets env dial 0 all true false s in
      let flags = probe_targets-flags 0 all true false s in
      let (f', outages, count) = probe_targets-IsLeft 0 all true false s f in
      let same : link done ≡ link s = rw (outages, count) refl in
      let step =
        update_outage-refines env settings all_failed any_success now done
          (IsValid-outages s.db done.db outages v) f' in
      (
        ap (λ (t : Table (LatencyRow F)). t.rows)
              (update_outage-latency_checks env settings all_failed any_success now done)
            ∙ probe_targets-rows 0 all true false s f,
        step.0
            ∙ ap (λ (b : Bool × Bool). spec_round threshold b.0 b.1 (link done)) flags
            ∙ ap (spec_round threshold (not good) good) same,
      )

  -- A round of `checkLatency` from a valid database, when every statement runs. It adds one row for
  -- each target of the settings, the router's address last, in order and with consecutive keys, each
  -- with the answer of its own target. With no target, the open outage and the count of
  -- failures stay. With some, they become what the machine of the outage detector makes of a round
  -- in which no target, or some target, was reached, as the answers say.
  pub check_latency_lem :
      (settings : Settings F) (now : Time) (s : Service F)
      → IsValid s.db
      → s.db.faults ≡ []
      → let targets = round_targets settings in
        let done = check_latency env dial settings now s in
        (done.db.latency_checks.rows
          ≡ s.db.latency_checks.rows ++ numbered s.db.latency_checks.last_id (results 0 targets))
        × (link done
            ≡ link_after settings.outage_failure_threshold targets (results 0 targets) (link s))
  unfolding check_latency
  check_latency_lem settings now s v f =
      rw (all_targets-round_targets settings)
        (check_all-IsRound settings now (round_targets settings) s v f)
