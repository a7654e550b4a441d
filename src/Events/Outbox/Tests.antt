-- ===== src/Events/Outbox/Tests.antt =====
-- Events written to a small directory.
use homelink_monitor.Base.{
  ◌≡◌, ◌≤◌, refl, true, none, some, [], ◌∷◌, ◌++◌, ok, All, length, trim_space, trim_left,
  trim_right,
}
use homelink_monitor.Domain.{NotificationEvent}
use homelink_monitor.Events.SafeName.{safe_name, safe_name_lem, IsSafe}
use homelink_monitor.Events.Disk.{Disk}
use homelink_monitor.Events.Outbox.{Outbox, Encoding, enabled, stamped, event_name, write}
use homelink_monitor.Events.Outbox.Laws.{Publishes, write-Publishes}

abbrev encoding : Encoding
encoding = record { marshal = λ e. ok (b'{' ∷ e.id ++ b'}' ∷ []); format = λ t. b'2' ∷ [] }

abbrev outbox : Outbox
outbox = record { dir = b'd' ∷ [] }

abbrev event : NotificationEvent
event = record {
  id = b'x' ∷ b'/' ∷ [];
  severity = b'i' ∷ [];
  metric = b'm' ∷ [];
  title = b't' ∷ [];
  message = b'w' ∷ [];
  timestamp = 5;
}

-- The second call, the write, fails after two bytes.
abbrev full_disk : Disk
full_disk = record { files = (b'o' ∷ [], b'1' ∷ []) ∷ []; faults = none ∷ some (b'e' ∷ [], 2) ∷ [] }

outbox-enabled : enabled outbox ≡ true
unfolding enabled trim_space trim_left trim_right
outbox-enabled = refl

write-Publishes_example :
    Publishes
      (event_name encoding (stamped 9 event))
      (b'{' ∷ b'x' ∷ b'/' ∷ b'}' ∷ 10 ∷ [])
      full_disk
      (write encoding outbox none 9 event full_disk)
unfolding stamped
write-Publishes_example = write-Publishes encoding outbox none 9 event full_disk outbox-enabled refl

safe_name_lem_example :
    All IsSafe (safe_name (b'a' ∷ b'/' ∷ []))
    × (length (safe_name (b'a' ∷ b'/' ∷ [])) ≤ 2)
    × (All IsSafe (b'a' ∷ b'/' ∷ []) → safe_name (b'a' ∷ b'/' ∷ []) ≡ b'a' ∷ b'/' ∷ [])
    × (safe_name (safe_name (b'a' ∷ b'/' ∷ [])) ≡ safe_name (b'a' ∷ b'/' ∷ []))
safe_name_lem_example = safe_name_lem (b'a' ∷ b'/' ∷ [])
