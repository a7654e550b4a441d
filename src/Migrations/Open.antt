-- ===== src/Migrations/Open.antt =====
-- `Open` of services/api/internal/db/db.go. The driver is a parameter: the error of `sql.Open`, and
-- the PRAGMA statements, which set the connection only, as a call that may fail. The settings of the
-- pool and the closing of a connection that failed are left out.
use homelink_monitor.Base.{ℕ, Option, none, some, List, Text, Result, err, Eff, handle}
use homelink_monitor.Migrations.{Catalog, Database, call, touch, migrate}

module _ {T : Type 0} (show : ℕ → Text) (run : Text → Catalog T → Result (Catalog T)) where
  unfoldable pub open_database : Option Text → List Text → Eff (Database T) (Unit {0})
  open_database (some e) migrations d = (err e, d)
  open_database none migrations d =
      handle (call touch d) (λ e d'. (err e, d')) (λ _. migrate show run migrations)
