-- ===== src/Monitoring/Trigger/Single.antt =====
-- One speed test runs at a time.
use homelink_monitor.Base.{
  suc, ◌+◌, ◌≤◌, ◌≡◌, ◌↔◌, refl, ap, ◌∙◌, sym, true, List, [], ◌∷◌, ◌++◌, arith, if◌then◌else◌,
  length, length-append, Bool-cases, inl, inr,
}
use homelink_monitor.Store.Schema.{bool_int}
use homelink_monitor.Monitoring.Service.{Service}
use homelink_monitor.Monitoring.Trigger.{
  Job, starting, ending, Shared, speed_running, Tools, trigger, advance, Step, triggers, moves,
  ends, others, Reachable, at_start, after,
}

-- The flag is set exactly while one job is there, and there is never a second.
abbrev pub IsSingle : {F : Type 0} → Shared F → Type 0
IsSingle s = length s.jobs ≡ bool_int s.speed_active

module _ {F : Type 0} where
  length-middle :
      (before rest : List (Job F)) (job : Job F)
      → length (before ++ job ∷ rest) ≡ suc (length before + length rest)
  length-middle before rest job = omega (arith, length-append before (job ∷ rest))

  at_most_one : (s : Shared F) → IsSingle s → length s.jobs ≤ 1
  at_most_one s h = ground arith

  nil_of_length : (jobs : List (Job F)) → length jobs ≡ 0 → jobs ≡ []
  nil_of_length [] h = refl
  nil_of_length (job ∷ jobs) h = absurd (omega arith)

  none_of_accepted : (s : Shared F) → IsSingle s → (trigger s).0 ≡ true → s.jobs ≡ []
  unfolding trigger
  none_of_accepted s h accepted = nil_of_length s.jobs (ground arith)

  accepted_of_none : (s : Shared F) → IsSingle s → s.jobs ≡ [] → (trigger s).0 ≡ true
  unfolding trigger
  accepted_of_none s h none_left =
      let no_job : length s.jobs ≡ 0 = ap length none_left in ground arith

  pub trigger-IsSingle : (s : Shared F) → IsSingle s → IsSingle (trigger s).1
  unfolding trigger
  trigger-IsSingle s h = elim (Bool-cases s.speed_active) [
    | inl busy ↦ rw (trigger, busy) (rw busy at h)
    | inr idle ↦
        rw (trigger, idle) (length-append s.jobs (starting ∷ []) ∙ ap (λ n. n + 1) (rw idle at h))
  ]

module _ {F : Type 0} (tools : Tools F) where
  pub Step-IsSingle : (s t : Shared F) → Step tools s t → IsSingle s → IsSingle t
  Step-IsSingle s _ triggers h = trigger-IsSingle s h
  Step-IsSingle s _ (moves o before job rest e) h =
      length-middle before rest (advance tools o job s.service).0
      ∙ sym (ap length e ∙ length-middle before rest job)
      ∙ h
  Step-IsSingle s _ (ends before rest e) h =
      let all_jobs : length s.jobs ≡ suc (length before + length rest) =
        ap length e ∙ length-middle before rest ending in
      omega (arith, length-append before rest, at_most_one s h)
  Step-IsSingle s _ (others service) h = h

  pub Reachable-IsSingle : {start : Service F} (s : Shared F) → Reachable tools start s → IsSingle s
  Reachable-IsSingle s at_start = refl
  Reachable-IsSingle s (after {s = r} reached step) =
      Step-IsSingle r s step (Reachable-IsSingle r reached)

  -- In every state that the service reaches, whatever the order of the steps, at most one speed test
  -- runs, `SpeedRunning` tells whether one does, and `TriggerSpeedTest` is accepted exactly if none
  -- does.
  pub trigger_iff :
      {start : Service F} (s : Shared F)
      → Reachable tools start s
      → (length s.jobs ≡ (if speed_running s then 1 else 0))
        × (((trigger s).0 ≡ true) ↔ (s.jobs ≡ []))
  unfolding trigger
  trigger_iff s reached =
      let single : length s.jobs ≡ bool_int s.speed_active = Reachable-IsSingle s reached in
      (
        single,
        (
          λ accepted. none_of_accepted s single accepted,
          λ none_left. accepted_of_none s single none_left,
        ),
      )
