-- ===== src/Monitoring/Loops/Delays.antt =====
-- The timer of a loop, and the speed test that is due.
use homelink_monitor.Base.{
  ℕ, suc, ◌*◌, ◌<◌, ◌≤◌, ◌≡◌, refl, true, Option, List, [], ◌∷◌, ◌++◌, ok, Bool, false, ◌&&◌,
  if◌then◌else◌, ℤ, pos, negsuc, ltb_ℤ, ◌≤ℤ◌, zero, ◌+◌, none, some, replicate, ◌↔◌, ◌⊎◌,
  wrap_64_small, Bool-cases, inl, inr, arith, Floats,
}
use homelink_monitor.Domain.{Time, second, minute, Settings, SpeedTest}
use homelink_monitor.Store.Schema.{Db}
use homelink_monitor.Store.Settings.{Codec, settings}
use homelink_monitor.Store.SpeedTests.{latest_speed_test}
use homelink_monitor.Monitoring.Decisions.{speed_test_due}
use homelink_monitor.Monitoring.Trigger.{Shared, trigger, speed_running}
use homelink_monitor.Monitoring.Loops.{seconds, delay_of, Wake, fired, done, loop, speed_round}

delay_of_positive : (next : ℤ) → ltb_ℤ (pos 0) (delay_of next) ≡ true
unfolding delay_of
delay_of_positive next = elim (Bool-cases (ltb_ℤ (pos 0) next)) [
  | inl e ↦ rw e e
  | inr e ↦ rw e refl
]

delay_of_kept : (next : ℤ) → ltb_ℤ (pos 0) next ≡ true → delay_of next ≡ next
unfolding delay_of
delay_of_kept next e = rw e refl

-- An interval from 1 s to 9,223,372,036 s is waited for as it is.
pub delay_of-seconds :
    (n : ℕ) → 0 < n → n ≤ 9223372036 → delay_of (seconds (pos n)) ≡ pos (n * second)
unfolding delay_of
delay_of-seconds n positive fits =
    let some : ltb_ℤ (pos 0) (pos (n * second)) ≡ true = ground arith in
    rw (wrap_64_small (n * second) (omega arith), some) refl

module _ {S : Type 0} (round : ℕ → S → ℤ × S) where
  -- `k` rounds one after the other, from the `n`-th on, whatever delays they return.
  abbrev pub rounds : ℕ → ℕ → S → S
  rounds n zero s = s
  rounds n (suc k) s = rounds (suc n) k (round n s).1

  loop-rounds :
      (n k : ℕ) (more : List Wake) (s : S)
      → (loop round n (replicate k fired ++ done ∷ more) s).1 ≡ rounds n k s
  unfolding loop
  loop-rounds n zero more s = refl
  loop-rounds n (suc k) more s = loop-rounds (suc n) k more (round n s).1

  -- One delay for each of the `k` rounds: positive, and what the round returned if that is positive.
  abbrev pub Waits : ℕ → ℕ → S → List ℤ → Type 0
  Waits n zero s [] = Unit
  Waits n zero s (delay ∷ delays) = ⊥
  Waits n (suc k) s [] = ⊥
  Waits n (suc k) s (delay ∷ delays) =
      (ltb_ℤ (pos 0) delay ≡ true)
      × (ltb_ℤ (pos 0) (round n s).0 ≡ true → delay ≡ (round n s).0)
      × Waits (suc n) k (round n s).1 delays

  loop-Waits :
      (n k : ℕ) (more : List Wake) (s : S)
      → Waits n k s (loop round n (replicate k fired ++ done ∷ more) s).0
  unfolding loop
  loop-Waits n zero more s = tt
  loop-Waits n (suc k) more s = (
    delay_of_positive (round n s).0,
    delay_of_kept (round n s).0,
    loop-Waits (suc n) k more (round n s).1,
  )

  -- If the timer fires `k` times before the context is done, then `loop` runs exactly `k` rounds,
  -- whatever these return, and no more, whatever comes later; and after each of them it resets the
  -- timer to a positive delay, the one that the round returned if that is positive.
  pub loop_lem :
      (n k : ℕ) (more : List Wake) (s : S)
      → let (delays, end) = loop round n (replicate k fired ++ done ∷ more) s in
        (end ≡ rounds n k s) × Waits n k s delays
  loop_lem n k more s = (loop-rounds n k more s, loop-Waits n k more s)

-- The latest test, if any, started at least `m` minutes ago.
abbrev pub IsDue : {F : Type 0} → Time → Option (SpeedTest F) → ℕ → Type 0
IsDue now none m = Unit
IsDue now (some t) m = t.started_at + m * minute ≤ now

abbrev pub IsScheduled : {F : Type 0} → Time → Option (SpeedTest F) → ℤ → Type 0
IsScheduled now latest (pos m) = (0 < m) × IsDue now latest m
IsScheduled now latest (negsuc m) = ⊥

speed_test_due_iff :
    {F : Type 0} (now : Time) (latest : Option (SpeedTest F)) (minutes : ℤ)
    → minutes ≤ℤ pos 153722867
    → (speed_test_due now latest minutes ≡ true) ↔ IsScheduled now latest minutes
unfolding speed_test_due
speed_test_due_iff now latest (negsuc m) fits = (λ h. ground arith, λ h. absurd h)
speed_test_due_iff now none (pos m) fits = (λ h. ground arith, λ h. ground arith)
speed_test_due_iff now (some t) (pos m) fits =
    rw (wrap_64_small (m * minute) (omega arith)) (λ h. ground arith, λ h. ground arith)

module _ {F : Type 0} (fl : Floats F) (codec : Codec F) where
  trigger-IsRunning : (s : Shared F) → speed_running (trigger s).1 ≡ true
  unfolding trigger
  trigger-IsRunning s = ground arith

  gate_due :
      (enabled : Bool) (t u : Shared F) {P : Type 0}
      → P
      → speed_running t ≡ true
      → (speed_running (if enabled && true then t else u) ≡ true)
        ↔ ((speed_running u ≡ true) ⊎ ((enabled ≡ true) × P))
  gate_due true t u p running = (λ h. inr (refl, p), λ h. running)
  gate_due false t u p running =
      (λ h. inl h, λ h. elim h [ inl e ↦ e | inr e ↦ absurd (ground (arith, e.0)) ])

  gate_later :
      (gate enabled : Bool) (t u s : Shared F) {P : Type 0}
      → speed_running t ≡ speed_running s
      → speed_running u ≡ speed_running s
      → ¬ P
      → (speed_running (if gate then t else u) ≡ true)
        ↔ ((speed_running s ≡ true) ⊎ ((enabled ≡ true) × P))
  gate_later gate enabled t u s same same' never =
      (λ h. inl (ground arith), λ h. elim h [ inl e ↦ ground arith | inr e ↦ absurd (never e.1) ])

  positive_of_scheduled :
      (now : Time) (latest : Option (SpeedTest F)) (minutes : ℤ)
      → IsScheduled now latest minutes
      → ltb_ℤ (pos 0) minutes ≡ true
  positive_of_scheduled now latest (pos m) h = ground arith
  positive_of_scheduled now latest (negsuc m) h = absurd h

  -- If the settings and the latest speed test are read, and the schedule is at most 153,722,867
  -- minutes (what a duration holds): after the round of the loop a speed test is running exactly if
  -- one was running before, or monitoring is enabled, the schedule is positive, and the latest
  -- test, if there is one, started at least that many minutes ago.
  pub speed_round_iff :
      (now : Time) (s : Shared F) (x : Settings F) (latest : Option (SpeedTest F)) (d d' : Db F)
      → settings fl.of_nat codec s.service.db ≡ (ok x, d)
      → latest_speed_test d ≡ (ok latest, d')
      → x.speed_test_schedule_minutes ≤ℤ pos 153722867
      → (speed_running (speed_round fl codec now s).1 ≡ true) ↔ (
          (speed_running s ≡ true)
          ⊎ ((x.monitoring_enabled ≡ true) × IsScheduled now latest x.speed_test_schedule_minutes))
  unfolding speed_round
  speed_round_iff now s x latest d d' read last fits =
      let minutes = x.speed_test_schedule_minutes in
      let loaded = record s { service = record (s.service) { db = d' } } in
      let unchanged = record s { service = record (s.service) { db = d } } in
      let iff = speed_test_due_iff now latest minutes fits in
      rw (read, last)
        (elim (Bool-cases (speed_test_due now latest minutes)) [
          | inl due ↦
              rw (due, positive_of_scheduled now latest minutes (iff.0 due))
                (gate_due x.monitoring_enabled (trigger loaded).1 unchanged (iff.0 due)
                  (trigger-IsRunning loaded))
          | inr later ↦ rw later (
              gate_later (x.monitoring_enabled && ltb_ℤ (pos 0) minutes) x.monitoring_enabled loaded
                unchanged s refl refl (λ h. absurd (ground (arith, iff.1 h, later))))
        ])
