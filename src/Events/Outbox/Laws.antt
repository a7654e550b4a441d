-- ===== src/Events/Outbox/Laws.antt =====
-- What `Write` leaves in the outbox directory on each of its paths.
use homelink_monitor.Base.{
  ◌≡◌, ◌≢◌, inl, inr, refl, true, false, Option, none, some, List, [], ◌∷◌, ◌++◌, Text, text_eq,
  Result, ok, err, arith, Bool-cases, if◌then◌else◌, text_eq_refl, take, ℕ,
}
use homelink_monitor.Domain.{Time, NotificationEvent}
use homelink_monitor.Events.Disk.{
  Disk, read_file, put_file, remove_file, mkdir_all, write_file, rename, read_file-put_file,
  read_file-remove_file,
}
use homelink_monitor.Events.Outbox.{
  Outbox, enabled, has_missing_field, stamped, temp_name, Encoding, event_name, store_file,
  write_event, write,
}

-- A name that a reader of the directory looks at: no hidden file.
abbrev pub IsVisible : Text → Type 0
IsVisible [] = Unit
IsVisible (a ∷ s) = a ≢ b'.'

temp_name-ne : (name j : Text) → IsVisible j → text_eq (temp_name name) j ≡ false
unfolding temp_name text_eq
temp_name-ne name [] h = refl
temp_name-ne name (a ∷ s) h = ground arith

-- What a call that began at `d` may have done to the visible files: put `content` under `name`, if
-- it ended well, and nothing if it failed.
abbrev pub Publishes : Text → Text → Disk → Result (Unit {0}) × Disk → Type 0
Publishes name content d (ok _, d') =
    (j : Text)
    → IsVisible j
    → read_file j d'.files ≡ (if text_eq name j then some content else read_file j d.files)
Publishes name content d (err _, d') =
    (j : Text) → IsVisible j → read_file j d'.files ≡ read_file j d.files

read_file-put_temp :
    (name c j : Text) (files : List (Text × Text))
    → IsVisible j
    → read_file j (put_file (temp_name name) c files) ≡ read_file j files
read_file-put_temp name c j files h =
    rw (read_file-put_file (temp_name name) j c files, temp_name-ne name j h) refl

read_file-renamed :
    (name c j : Text) (files : List (Text × Text))
    → IsVisible j
    → read_file j
        (put_file name c (remove_file (temp_name name) (put_file (temp_name name) c files)))
      ≡ (if text_eq name j then some c else read_file j files)
read_file-renamed name c j files h =
    rw
      (
        read_file-put_file name j c
            (remove_file (temp_name name) (put_file (temp_name name) c files)),
        read_file-remove_file (temp_name name) j (put_file (temp_name name) c files),
        temp_name-ne name j h,
        read_file-put_temp name c j files h,
      )
      refl

read_file-put_self :
    (k c : Text) (files : List (Text × Text)) → read_file k (put_file k c files) ≡ some c
read_file-put_self k c files = rw (read_file-put_file k k c files, text_eq_refl k) refl

abbrev disk_of : List (Text × Text) → List (Option (Text × ℕ)) → Disk
disk_of files faults = record { files = files; faults = faults }

-- By the outcomes of the write and of the rename.
store_file-Publishes_of :
    (name raw : Text) (files : List (Text × Text)) (faults : List (Option (Text × ℕ)))
    → Publishes name
        (raw ++ 10 ∷ [])
        (disk_of files faults)
        (store_file name raw (disk_of files faults))
unfolding store_file write_file rename
store_file-Publishes_of name raw files [] =
    rw (read_file-put_self (temp_name name) (raw ++ 10 ∷ []) files)
      (λ j h. read_file-renamed name (raw ++ 10 ∷ []) j files h)
store_file-Publishes_of name raw files (some (e, n) ∷ faults) =
    λ j h. read_file-put_temp name (take n (raw ++ 10 ∷ [])) j files h
store_file-Publishes_of name raw files (none ∷ []) =
    rw (read_file-put_self (temp_name name) (raw ++ 10 ∷ []) files)
      (λ j h. read_file-renamed name (raw ++ 10 ∷ []) j files h)
store_file-Publishes_of name raw files (none ∷ none ∷ faults) =
    rw (read_file-put_self (temp_name name) (raw ++ 10 ∷ []) files)
      (λ j h. read_file-renamed name (raw ++ 10 ∷ []) j files h)
store_file-Publishes_of name raw files (none ∷ some (e, n) ∷ faults) =
    λ j h. read_file-put_temp name (raw ++ 10 ∷ []) j files h

module _ (enc : Encoding) {e : NotificationEvent} {raw : Text}
    (encoded : enc.marshal e ≡ ok raw) where
  write_event-Publishes_of :
      (files : List (Text × Text)) (faults : List (Option (Text × ℕ)))
      → Publishes
          (event_name enc e)
          (raw ++ 10 ∷ [])
          (disk_of files faults)
          (write_event enc e (disk_of files faults))
  unfolding write_event mkdir_all
  write_event-Publishes_of files [] =
      rw encoded (store_file-Publishes_of (event_name enc e) raw files [])
  write_event-Publishes_of files (none ∷ faults) =
      rw encoded (store_file-Publishes_of (event_name enc e) raw files faults)
  write_event-Publishes_of files (some (x, n) ∷ faults) = λ j h. refl

-- With an outbox that is enabled and an event that can be encoded, `Write` ends in one of two ways
-- only. It returns no error, and then the encoded event and a line end are the whole content of the
-- event's file; or it returns an error, whichever call failed. In both, no other file whose name
-- begins without a dot has changed, so that a reader never sees a part of an event.
pub write-Publishes :
    (enc : Encoding) (o : Outbox) (cancelled : Option Text) (now : Time) (e : NotificationEvent)
    {raw : Text} (d : Disk)
    → enabled o ≡ true
    → enc.marshal (stamped now e) ≡ ok raw
    → Publishes (event_name enc (stamped now e)) (raw ++ 10 ∷ []) d (write enc o cancelled now e d)
unfolding write
write-Publishes enc o (some x) now e d on encoded = rw on (λ j h. refl)
write-Publishes enc o none now e d on encoded = elim (Bool-cases (has_missing_field e)) [
  | inl missing ↦ rw (on, missing) (λ j h. refl)
  | inr complete ↦ rw (on, complete) (write_event-Publishes_of enc encoded d.files d.faults)
]
