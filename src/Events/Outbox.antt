-- ===== src/Events/Outbox.antt =====
-- `Outbox` of services/api/internal/events/outbox.go. What encoding/json and `Time.Format` return
-- are parameters. A path `filepath.Join(o.dir, name)` is kept as `name`: a safe name has no
-- separator, so the file lies in the directory.
pub mod Laws
mod Tests
use homelink_monitor.Base.{
  Bool, not, ◌||◌, Option, none, some, [], ◌∷◌, ◌++◌, Text, is_empty, bytes, Result, Eff, ◌>>=◌,
  ◌>>◌, pure, fail, if◌then◌else◌, trim_space,
}
use homelink_monitor.Domain.{Time, NotificationEvent, is_zero_time}
use homelink_monitor.Events.SafeName.{safe_name}
use homelink_monitor.Events.Disk.{Disk, mkdir_all, write_file, rename}

pub record Outbox : Type 0 where
  pub dir : Text

unfoldable pub enabled : Outbox → Bool
enabled o = not (is_empty (trim_space o.dir))

unfoldable pub has_missing_field : NotificationEvent → Bool
has_missing_field e =
    is_empty e.id
    || is_empty e.severity
    || is_empty e.metric
    || is_empty e.title
    || is_empty e.message

-- The event with its time set, if it had none.
unfoldable pub stamped : Time → NotificationEvent → NotificationEvent
stamped now e = if is_zero_time e.timestamp then record e { timestamp = now } else e

unfoldable pub temp_name : Text → Text
temp_name name = b'.' ∷ name ++ bytes ".tmp"

-- The file is written under a hidden name, and then renamed.
unfoldable pub store_file : Text → Text → Eff Disk (Unit {0})
store_file name raw = do write_file (temp_name name) (raw ++ 10 ∷ []); rename (temp_name name) name

-- json.MarshalIndent, and `Time.Format` with the layout of the file names.
pub record Encoding : Type 0 where
  pub marshal : NotificationEvent → Result Text
  pub format : Time → Text

module _ (enc : Encoding) where
  unfoldable pub event_name : NotificationEvent → Text
  event_name e = safe_name (enc.format e.timestamp ++ b'-' ∷ e.id ++ bytes ".json")

  -- What `Write` does once the event is complete.
  unfoldable pub write_event : NotificationEvent → Eff Disk (Unit {0})
  write_event e = do mkdir_all; raw ← (λ d. (enc.marshal e, d)); store_file (event_name e) raw

  -- `cancelled` is `ctx.Err()`.
  unfoldable pub write : Outbox → Option Text → Time → NotificationEvent → Eff Disk (Unit {0})
  write o none now e =
      if not (enabled o)
      then pure tt
      else if has_missing_field e
      then fail (bytes "notification event is missing required fields")
      else write_event (stamped now e)
  write o (some cancelled) now e = if not (enabled o) then pure tt else fail cancelled
