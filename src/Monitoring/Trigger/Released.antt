-- ===== src/Monitoring/Trigger/Released.antt =====
-- Each speed test ends, and gives the flag back.
use homelink_monitor.Base.{
  ℕ, suc, ◌≤◌, ◌≡◌, ◌-◌, refl, ap, ◌∙◌, sym, true, false, List, [], ◌∷◌, ◌++◌, arith, length,
  Result, ok, err,
}
use homelink_monitor.Domain.{Settings}
use homelink_monitor.Store.Schema.{Db, bool_int}
use homelink_monitor.Store.Settings.{settings}
use homelink_monitor.Monitoring.Service.{Service}
use homelink_monitor.Monitoring.Trigger.{
  Job, starting, running, storing, announcing, ending, Shared, speed_running, Tools, Outside,
  trigger, advance, loaded, Step, ends, Reachable,
}
use homelink_monitor.Monitoring.Trigger.Single.{Reachable-IsSingle}

module _ {F : Type 0} (tools : Tools F) where
  -- What may happen from `s` on until the flag is given back: `n` moves of jobs, and between them
  -- calls of `TriggerSpeedTest` and any work of others on the service.
  pub data Run (s : Shared F) : ℕ → Shared F → Type 0 where
    here : Run s 0 s
    move :
        {n : ℕ} {t : Shared F}
        → Run s n t
        → (o : Outside) (before : List (Job F)) (job : Job F) (after : List (Job F))
        → t.jobs ≡ before ++ job ∷ after
        → Run s (suc n) (record t {
          service = (advance tools o job t.service).1;
          jobs = before ++ (advance tools o job t.service).0 ∷ after;
        })
    again : {n : ℕ} {t : Shared F} → Run s n t → Run s n (trigger t).1
    work :
        {n : ℕ} {t : Shared F}
        → Run s n t
        → (service : Service F) → Run s n (record t { service = service })

  abbrev rank : Job F → ℕ
  rank starting = 4
  rank (running x) = 3
  rank (storing r) = 2
  rank (announcing r) = 1
  rank ending = 0

  rank-loaded : (s : Service F) (r : Result (Settings F) × Db F) → rank (loaded tools s r).0 ≤ 3
  rank-loaded s (ok x, d) = omega arith
  rank-loaded s (err e, d) = omega arith

  rank-advance :
      (o : Outside) (job : Job F) (s : Service F) → rank (advance tools o job s).0 ≤ rank job - 1
  unfolding advance
  rank-advance o starting s = rank-loaded s (settings tools.floats.of_nat tools.codec s.db)
  rank-advance o (running x) s = omega arith
  rank-advance o (storing r) s = omega arith
  rank-advance o (announcing r) s = omega arith
  rank-advance o ending s = omega arith

  ending_of_rank : (job : Job F) → rank job ≡ 0 → job ≡ ending
  ending_of_rank starting h = absurd (omega arith)
  ending_of_rank (running x) h = absurd (omega arith)
  ending_of_rank (storing r) h = absurd (omega arith)
  ending_of_rank (announcing r) h = absurd (omega arith)
  ending_of_rank ending h = refl

  rank-le : (job : Job F) → rank job ≤ 4
  rank-le starting = omega arith
  rank-le (running x) = omega arith
  rank-le (storing r) = omega arith
  rank-le (announcing r) = omega arith
  rank-le ending = omega arith

  -- The flag is set for the one job, which has at most `4 - n` moves before it.
  abbrev HasLeft : ℕ → Shared F → Type 0
  HasLeft n t = (job : Job F) × (t.jobs ≡ job ∷ []) × (t.speed_active ≡ true) × (rank job ≤ 4 - n)

  one_job :
      (jobs : List (Job F)) → length jobs ≡ 1 → (job : Job F) × (jobs ≡ job ∷ []) × (rank job ≤ 4)
  one_job [] h = absurd (omega arith)
  one_job (job ∷ []) h = (job, refl, rank-le job)
  one_job (job ∷ other ∷ rest) h = absurd (omega arith)

  move-HasLeft :
      (n : ℕ) (o : Outside) (s : Service F) (moved job : Job F) (before after : List (Job F))
      → job ∷ [] ≡ before ++ moved ∷ after
      → rank job ≤ 4 - n
      → (next : Job F) × (before ++ (advance tools o moved s).0 ∷ after ≡ next ∷ [])
        × (rank next ≤ 4 - suc n)
  move-HasLeft n o s moved job [] [] e h = (
    (advance tools o moved s).0,
    refl,
    let same : moved ≡ job = cc in
        let less : rank moved ≤ 4 - n = rw same h in omega (arith, rank-advance o moved s, less),
  )
  move-HasLeft n o s moved job [] (other ∷ rest) e h = cc
  move-HasLeft n o s moved job (first ∷ []) after e h = cc
  move-HasLeft n o s moved job (first ∷ second ∷ rest) after e h = cc

  Run-HasLeft : (s t : Shared F) (n : ℕ) → HasLeft 0 s → Run s n t → HasLeft n t
  unfolding trigger
  Run-HasLeft s _ _ h here = h
  Run-HasLeft s _ _ h (move {n} {t} run o before moved after e) =
      let (job, one, flag, less) = Run-HasLeft s t n h run in
      let (next, one', less') =
        move-HasLeft n o t.service moved job before after (sym one ∙ e) less in
      (next, one', flag, less')
  Run-HasLeft s _ n h (again {t} run) =
      let (job, one, flag, less) = Run-HasLeft s t n h run in rw flag (job, one, refl, less)
  Run-HasLeft s _ n h (work {t} run service) = Run-HasLeft s t n h run

  -- From any state that the service reaches with a speed test running: once its job has made four
  -- moves or more, whatever the outside answers, whichever calls fail, and whatever others do in
  -- between (they may also call `TriggerSpeedTest`), a step of the job is left that ends it. After
  -- that step no job is there, `SpeedRunning` says so, and `TriggerSpeedTest` is accepted again.
  pub speed_test-IsReleased :
      {start : Service F} (s t : Shared F) (n : ℕ)
      → Reachable tools start s
      → speed_running s ≡ true
      → Run s n t
      → 4 ≤ n
      → (u : Shared F) × Step tools t u
        × (u.service ≡ t.service)
        × (u.jobs ≡ [])
        × (speed_running u ≡ false)
        × ((trigger u).0 ≡ true)
  unfolding trigger
  speed_test-IsReleased s t n reached busy run enough =
      let single : length s.jobs ≡ bool_int s.speed_active = Reachable-IsSingle tools s reached in
      let (first, one, few) = one_job s.jobs (single ∙ ap bool_int busy) in
      let (job, last, flag, less) = Run-HasLeft s t n (first, one, busy, few) run in
      let at_end : job ≡ ending = ending_of_rank job (omega arith) in
      (
        record t { speed_active = false; jobs = [] },
        ends [] [] (last ∙ ap (λ (j : Job F). j ∷ []) at_end),
        refl,
        refl,
        refl,
        refl,
      )
