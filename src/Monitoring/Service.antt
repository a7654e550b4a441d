-- ===== src/Monitoring/Service.antt =====
-- `Service` and `emit` of services/api/internal/monitoring/service.go. The log is not modelled.
use homelink_monitor.Base.{◌≡◌, arith, ℕ, not, Option, none, some, Text, if◌then◌else◌}
use homelink_monitor.Domain.{Time, NotificationEvent}
use homelink_monitor.Store.Schema.{Db}
use homelink_monitor.Router.Provider.{Hub}
use homelink_monitor.Events.Disk.{Disk}
use homelink_monitor.Events.Outbox.{Outbox, Encoding, enabled, write}

-- What the service holds (the provider `router` with the wire to the router), with the database and the outbox directory that it writes to.
pub record Service (F : Type 0) : Type 0 where
  pub db : Db F
  pub disk : Disk
  pub fail_count : ℕ
  pub router : Hub

-- What is fixed while a check runs: the outbox, `ctx.Err()`, and the texts that fmt and
-- encoding/json make.
pub record Setup (F : Type 0) : Type 0 where
  pub outbox : Option Outbox
  pub cancelled : Option Text
  pub encoding : Encoding
  pub unix_nano : Time → Text
  pub one_decimal : F → Text

module _ {F : Type 0} (env : Setup F) where
  abbrev emit_to : Option Outbox → Time → NotificationEvent → Service F → Service F
  emit_to none now event s = s
  emit_to (some o) now event s =
      if not (enabled o)
      then s
      else record s { disk = (write env.encoding o env.cancelled now event s.disk).1 }

  -- An error of the outbox is only logged.
  unfoldable pub emit : Time → NotificationEvent → Service F → Service F
  emit now event s = emit_to env.outbox now event s

  pub emit-db :
      (now : Time) (event : NotificationEvent) (s : Service F) → (emit now event s).db ≡ s.db
  unfolding emit
  emit-db now event s = ground arith

  pub emit-fail_count :
      (now : Time) (event : NotificationEvent) (s : Service F)
      → (emit now event s).fail_count ≡ s.fail_count
  unfolding emit
  emit-fail_count now event s = ground arith

  pub emit-router :
      (now : Time) (event : NotificationEvent) (s : Service F)
      → (emit now event s).router ≡ s.router
  unfolding emit
  emit-router now event s = ground arith
