-- ===== src/Runner/Outcome.antt =====
-- What a run of the speed test returns.
use homelink_monitor.Base.{
  ◌≡◌, refl, true, false, ◌||◌, Option, none, some, List, [], ◌∷◌, Text, bytes, is_empty, is_some,
  if◌then◌else◌, Result, ok, err, Bool-cases, inl, inr, trim_space, Floats,
}
use homelink_monitor.Domain.{Time, SpeedTest}
use homelink_monitor.Runner.{
  Process, Ookla, Simple, Decoder, parse_simple, parse_ookla, parse, after_parse, after_process,
  run_parts, fields, run,
}

-- A test that succeeded has a rate and no error; one that failed has no rate and an error.
abbrev pub IsOutcome : {F : Type 0} → SpeedTest F → Type 0
IsOutcome r =
    if r.success
    then (is_some r.download_mbps || is_some r.upload_mbps ≡ true) × (r.error ≡ [])
    else (is_some r.download_mbps || is_some r.upload_mbps ≡ false) × (is_empty r.error ≡ false)

module _ {F : Type 0} (fl : Floats F) (decoder : Decoder F) (started finished : Time) where
  parse_simple-IsOutcome :
      (s : Result (Simple F))
      → IsOutcome (after_parse fl decoder started finished (parse_simple fl decoder s))
  unfolding bytes
  parse_simple-IsOutcome (err e) = (refl, refl)
  parse_simple-IsOutcome (ok s) =
      elim (Bool-cases (is_some s.download_mbps || is_some s.upload_mbps)) [
        | inl rate ↦ rw rate (rate, refl)
        | inr nothing ↦ rw nothing (refl, refl)
      ]

  parse_ookla-IsOutcome :
      (o : Result (Ookla F)) (s : Result (Simple F))
      → IsOutcome (after_parse fl decoder started finished (parse_ookla fl decoder o s))
  parse_ookla-IsOutcome (err e) s = parse_simple-IsOutcome s
  parse_ookla-IsOutcome (ok o) s =
      elim (Bool-cases (fl.less (fl.of_nat 0) o.download || fl.less (fl.of_nat 0) o.upload)) [
        | inl rate ↦ rw rate (refl, refl)
        | inr nothing ↦ rw nothing (parse_simple-IsOutcome s)
      ]

  after_process-IsOutcome :
      (p : Process) (failure : Option Text)
      → ((e : Text) → failure ≡ some e → is_empty e ≡ false)
      → IsOutcome (after_process fl decoder started finished p failure)
  unfolding parse
  after_process-IsOutcome p none says =
      parse_ookla-IsOutcome (decoder.ookla p.stdout) (decoder.simple p.stdout)
  after_process-IsOutcome p (some e) says = elim (Bool-cases (is_empty (trim_space p.stderr))) [
    | inl quiet ↦ rw quiet (refl, says e refl)
    | inr loud ↦ rw loud (refl, loud)
  ]

  run_parts-IsOutcome :
      (exec : List Text → Process) (parts : List Text)
      → ((parts : List Text) (e : Text) → (exec parts).failure ≡ some e → is_empty e ≡ false)
      → IsOutcome (run_parts fl decoder exec started finished parts)
  unfolding bytes
  run_parts-IsOutcome exec [] says = (refl, refl)
  run_parts-IsOutcome exec (part ∷ parts) says =
      after_process-IsOutcome (exec (part ∷ parts)) (exec (part ∷ parts)).failure
        (says (part ∷ parts))

-- If the errors of processes have texts that are not empty, a run of the speed test that succeeds
-- has a download or an upload rate and no error, and one that fails has neither rate and an error
-- that is not empty, whatever the command, its output and the decoders.
pub run-IsOutcome :
    {F : Type 0} (fl : Floats F) (decoder : Decoder F) (exec : List Text → Process)
    (started finished : Time) (command : Text)
    → ((parts : List Text) (e : Text) → (exec parts).failure ≡ some e → is_empty e ≡ false)
    → IsOutcome (run fl decoder exec started finished command)
unfolding run
run-IsOutcome fl decoder exec started finished command says =
    run_parts-IsOutcome fl decoder started finished exec (fields command) says
