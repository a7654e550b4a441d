-- ===== src/Monitoring/Outage/Rounds.antt =====
-- The outage detector as a small machine, and that `updateOutage` implements it.
use homelink_monitor.Base.{
  ℕ, ◌+◌, ◌≡◌, ap, ◌∙◌, Bool, true, false, not, ◌&&◌, List, [], ◌∷◌, bytes, arith, if◌then◌else◌,
  ltb, Result, ℤ, pos, negsuc, ltb_ℤ, Bool-cases, inl, inr,
}
use homelink_monitor.Domain.{Time, Settings}
use homelink_monitor.Store.Schema.{Db}
use homelink_monitor.Store.Outages.{count_open, insert_outage, end_outages}
use homelink_monitor.Store.Outages.Laws.{
  IsValid, active_outage-found, open_outage_runs, close_active_outage_runs,
  count_open-insert_outage, count_open-end_outages,
}
use homelink_monitor.Monitoring.Decisions.{should_open_outage, should_close_outage}
use homelink_monitor.Monitoring.Service.{Service, Setup}
use homelink_monitor.Monitoring.Outage.{
  outage_opened, outage_closed, try_open, try_close, react, next_count, update_outage,
}
use homelink_monitor.Monitoring.Outage.Step.{
  announce-db, announce-fail_count, update_outage-IsValid,
}

-- What matters of the service: whether an outage is open, and the failures in a row.
pub record Link : Type 0 where
  pub is_down : Bool
  pub fails : ℕ

abbrev pub link : {F : Type 0} → Service F → Link
link s = record { is_down = ltb 0 (count_open s.db); fails = s.fail_count }

-- Whether `n` failures in a row reach a positive threshold.
abbrev pub reaches : ℕ → ℤ → Bool
reaches n threshold = ltb_ℤ (pos 0) threshold && not (ltb_ℤ (pos n) threshold)

abbrev pub spec_round : ℤ → Bool → Bool → Link → Link
spec_round threshold all_failed any_success l = record {
  is_down =
      if l.is_down then not any_success else reaches (next_count all_failed l.fails) threshold;
  fails = next_count all_failed l.fails;
}

module _ {F : Type 0} (env : Setup F) where
  try_open-db :
      (now : Time) (s : Service F)
      → s.db.faults ≡ []
      → count_open s.db ≡ 0
      → (try_open env now s).db ≡ insert_outage now (bytes "all latency targets failed") s.db
  unfolding try_open
  try_open-db now s f c =
      announce-db env now (outage_opened env now) s _
      ∙ ap (λ (r : Result (Unit {0}) × Db F). r.1)
          (open_outage_runs now (bytes "all latency targets failed") s.db f c)

  try_open-fail_count :
      (now : Time) (s : Service F) → (try_open env now s).fail_count ≡ s.fail_count
  unfolding try_open
  try_open-fail_count now s = announce-fail_count env now (outage_opened env now) s _

  try_close-db :
      (now : Time) (s : Service F)
      → s.db.faults ≡ []
      → (try_close env now s).db ≡ end_outages now s.db
  unfolding try_close
  try_close-db now s f =
      announce-db env now (outage_closed env now) s _
      ∙ ap (λ (r : Result (Unit {0}) × Db F). r.1) (close_active_outage_runs now s.db f)

  try_close-fail_count :
      (now : Time) (s : Service F) → (try_close env now s).fail_count ≡ s.fail_count
  unfolding try_close
  try_close-fail_count now s = announce-fail_count env now (outage_closed env now) s _

  try_open-link :
      (now : Time) (s : Service F)
      → s.db.faults ≡ []
      → count_open s.db ≡ 0
      → (link (try_open env now s) ≡ record { is_down = true; fails = s.fail_count })
        × ((try_open env now s).db.faults ≡ [])
  unfolding insert_outage
  try_open-link now s f c = ground (
    arith,
    try_open-db now s f c,
    try_open-fail_count now s,
    count_open-insert_outage now (bytes "all latency targets failed") s.db,
  )

  try_close-link :
      (now : Time) (s : Service F)
      → s.db.faults ≡ []
      → (link (try_close env now s) ≡ record { is_down = false; fails = s.fail_count })
        × ((try_close env now s).db.faults ≡ [])
  unfolding end_outages
  try_close-link now s f =
      ground
        (arith, try_close-db now s f, try_close-fail_count now s, count_open-end_outages now s.db)

  react-link :
      (settings : Settings F) (any_success : Bool) (now : Time) (s : Service F)
      → s.db.faults ≡ []
      → let done = react env settings any_success now (ltb 0 (count_open s.db)) s in
        (link done ≡ record {
          is_down =
              if ltb 0 (count_open s.db)
              then not any_success
              else reaches s.fail_count settings.outage_failure_threshold;
          fails = s.fail_count;
        })
        × (done.db.faults ≡ [])
  unfolding react should_open_outage should_close_outage
  react-link settings any_success now s f = elim (Bool-cases (ltb 0 (count_open s.db))) [
    | inl open_ ↦ ground (arith, try_close-link now s f)
    | inr shut ↦ ground (arith, try_open-link now s f)
  ]

  -- A round whose statements all run does to the open outage and the failure count what the machine
  -- does, from every valid state.
  pub update_outage-refines :
      (settings : Settings F) (all_failed any_success : Bool) (now : Time) (s : Service F)
      → IsValid s.db
      → s.db.faults ≡ []
      → let done = update_outage env settings all_failed any_success now s in
        (link done ≡ spec_round settings.outage_failure_threshold all_failed any_success (link s))
        × (done.db.faults ≡ [])
  unfolding update_outage
  update_outage-refines settings all_failed any_success now s v f =
      let (o, loaded, found) = active_outage-found s.db v f in
      rw (loaded, found)
        (react-link settings any_success now
          (record s { fail_count = next_count all_failed s.fail_count }) f)

machine_round :
    (threshold : ℤ) (all_failed : Bool) (l : Link) (k : ℕ)
    → l.fails ≡ k
    → l.is_down ≡ reaches k threshold
    → let l' = spec_round threshold all_failed (not all_failed) l in
      let k' = if all_failed then k + 1 else 0 in
      (l'.fails ≡ k') × (l'.is_down ≡ reaches k' threshold)
machine_round (pos n) all_failed l k e d = ground arith
machine_round (negsuc n) all_failed l k e d = ground arith

-- The failed rounds before the first round that succeeded, in a history with the newest first.
abbrev pub failures_in_a_row : List (Bool × Time) → ℕ
failures_in_a_row [] = 0
failures_in_a_row ((all_failed, now) ∷ earlier) =
    let rest = failures_in_a_row earlier in if all_failed then rest + 1 else 0

module _ {F : Type 0} (env : Setup F) (settings : Settings F) where
  -- The rounds of a history, whose first entry is the newest. Each round probes some target, so any
  -- target was reached exactly if not all failed.
  unfoldable pub run_rounds : List (Bool × Time) → Service F → Service F
  run_rounds [] s = s
  run_rounds ((all_failed, now) ∷ earlier) s =
      update_outage env settings all_failed (not all_failed) now (run_rounds earlier s)

  run_rounds-inv :
      (history : List (Bool × Time)) (s : Service F)
      → IsValid s.db
      → s.db.faults ≡ []
      → count_open s.db ≡ 0
      → s.fail_count ≡ 0
      → let done = run_rounds history s in
        IsValid done.db
        × (done.db.faults ≡ [])
        × (done.fail_count ≡ failures_in_a_row history)
        × (ltb 0 (count_open done.db)
            ≡ reaches (failures_in_a_row history) settings.outage_failure_threshold)
  unfolding run_rounds
  run_rounds-inv [] s v f c n = (v, f, n, ground arith)
  run_rounds-inv ((all_failed, now) ∷ earlier) s v f c n =
      let (v', f', n', o') = run_rounds-inv earlier s v f c n in
      let before = run_rounds earlier s in
      let step = update_outage-refines env settings all_failed (not all_failed) now before v' f' in
      (
        update_outage-IsValid env settings all_failed (not all_failed) now before v',
        step.1,
        ap (λ (l : Link). l.fails) step.0
            ∙ (machine_round settings.outage_failure_threshold all_failed (link before) _ n' o').0,
        ap (λ (l : Link). l.is_down) step.0
            ∙ (machine_round settings.outage_failure_threshold all_failed (link before) _ n' o').1,
      )

  -- From a valid database with no open outage and a count of 0, and as long as every statement runs:
  -- after any rounds an outage is open exactly if the threshold is positive and at least that many
  -- of the latest rounds failed in a row. So a run of failures opens one outage, in the round that
  -- reaches the threshold, and the first success ends it.
  pub outage_iff :
      (history : List (Bool × Time)) (s : Service F)
      → IsValid s.db
      → s.db.faults ≡ []
      → count_open s.db ≡ 0
      → s.fail_count ≡ 0
      → ltb 0 (count_open (run_rounds history s).db)
        ≡ reaches (failures_in_a_row history) settings.outage_failure_threshold
  outage_iff history s v f c n = (run_rounds-inv history s v f c n).3
