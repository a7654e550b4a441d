-- ===== src/Runner.antt =====
-- services/api/internal/speedtest/speedtest.go. What the command does (os/exec), and what
-- encoding/json makes of its output, are parameters.
pub mod Outcome
mod Tests
use homelink_monitor.Base.{
  ℕ, zero, suc, true, false, ◌||◌, Option, none, some, List, [], ◌∷◌, ◌++◌, Text, bytes, is_empty,
  is_some, if◌then◌else◌, Result, ok, err, length, drop, space_width, trim_space, Floats,
}
use homelink_monitor.Domain.{Time, SpeedTest}

-- What a process leaves: the error of `cmd.Run`, and its two outputs.
pub record Process : Type 0 where
  pub failure : Option Text
  pub stdout : Text
  pub stderr : Text

pub record Ookla (F : Type 0) : Type 0 where
  pub latency : F
  pub jitter : F
  pub download : F
  pub upload : F
  pub name : Text
  pub location : Text

pub record Simple (F : Type 0) : Type 0 where
  pub download_mbps : Option F
  pub upload_mbps : Option F
  pub ping_ms : Option F
  pub jitter_ms : Option F
  pub server_name : Text
  pub server_location : Text

-- `json.Unmarshal` into each of the two structs.
pub record Decoder (F : Type 0) : Type 0 where
  pub ookla : Text → Result (Ookla F)
  pub simple : Text → Result (Simple F)

-- `strings.Fields`: the words between white space. `word` is the word so far, and the rounds are
-- bounded by the length of the text.
unfoldable pub fields_from : ℕ → Text → Text → List Text
fields_from zero word s = if is_empty word then [] else word ∷ []
fields_from (suc fuel) word [] = if is_empty word then [] else word ∷ []
fields_from (suc fuel) word (a ∷ s) = elim (space_width (a ∷ s)) [
  | zero ↦ fields_from fuel (word ++ a ∷ []) s
  | suc k ↦ let rest = fields_from fuel [] (drop k s) in if is_empty word then rest else word ∷ rest
]

unfoldable pub fields : Text → List Text
fields s = fields_from (length s) [] s

abbrev pub parse_error : Text
parse_error =
    bytes
      "could not parse speed test JSON output; configure a command that emits Ookla JSON or simple JSON"

module _ {F : Type 0} (fl : Floats F) (decoder : Decoder F) where
  unfoldable pub bytes_per_second_to_mbps : F → F
  bytes_per_second_to_mbps v = fl.over (fl.times v (fl.of_nat 8)) (fl.of_nat 1000000)

  abbrev pub from_ookla : Ookla F → SpeedTest F
  from_ookla o = record {
    id = 0;
    started_at = 0;
    finished_at = none;
    download_mbps = some (bytes_per_second_to_mbps o.download);
    upload_mbps = some (bytes_per_second_to_mbps o.upload);
    ping_ms = some o.latency;
    jitter_ms = some o.jitter;
    server_name = o.name;
    server_location = o.location;
    success = false;
    error = [];
  }

  abbrev pub from_simple : Simple F → SpeedTest F
  from_simple s = record {
    id = 0;
    started_at = 0;
    finished_at = none;
    download_mbps = s.download_mbps;
    upload_mbps = s.upload_mbps;
    ping_ms = s.ping_ms;
    jitter_ms = s.jitter_ms;
    server_name = s.server_name;
    server_location = s.server_location;
    success = false;
    error = [];
  }

  abbrev pub parse_simple : Result (Simple F) → Result (SpeedTest F)
  parse_simple (err e) = err parse_error
  parse_simple (ok s) =
      if is_some s.download_mbps || is_some s.upload_mbps
      then ok (from_simple s)
      else err parse_error

  abbrev pub parse_ookla : Result (Ookla F) → Result (Simple F) → Result (SpeedTest F)
  parse_ookla (err e) next = parse_simple next
  parse_ookla (ok o) next =
      if fl.less (fl.of_nat 0) o.download || fl.less (fl.of_nat 0) o.upload
      then ok (from_ookla o)
      else parse_simple next

  unfoldable pub parse : Text → Result (SpeedTest F)
  parse raw = parse_ookla (decoder.ookla raw) (decoder.simple raw)

  abbrev pub failed : Time → Time → Text → SpeedTest F
  failed started finished e = record {
    id = 0;
    started_at = started;
    finished_at = some finished;
    download_mbps = none;
    upload_mbps = none;
    ping_ms = none;
    jitter_ms = none;
    server_name = [];
    server_location = [];
    success = false;
    error = e;
  }

  abbrev pub after_parse : Time → Time → Result (SpeedTest F) → SpeedTest F
  after_parse started finished (err e) = failed started finished e
  after_parse started finished (ok r) = record r {
    started_at = started;
    finished_at = some finished;
    success = true;
  }

  abbrev pub after_process : Time → Time → Process → Option Text → SpeedTest F
  after_process started finished p none = after_parse started finished (parse p.stdout)
  after_process started finished p (some e) =
      failed started finished (if is_empty (trim_space p.stderr) then e else trim_space p.stderr)

  abbrev pub run_parts : (List Text → Process) → Time → Time → List Text → SpeedTest F
  run_parts exec started finished [] = failed started finished (bytes "speed test command is empty")
  run_parts exec started finished (part ∷ parts) =
      after_process started finished (exec (part ∷ parts)) (exec (part ∷ parts)).failure

  -- `Run`, between the two readings of the clock.
  unfoldable pub run : (List Text → Process) → Time → Time → Text → SpeedTest F
  run exec started finished command = run_parts exec started finished (fields command)
