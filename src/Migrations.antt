-- ===== src/Migrations.antt =====
-- `Migrate` of services/api/internal/db/db.go. What a statement of a migration does is a parameter:
-- SQLite runs it. Each call of the transaction takes the next entry of `faults`, and fails with it
-- if it is one.
pub mod Open
mod Recorded
pub mod Settled
mod Tests
use homelink_monitor.Base.{
  ℕ, suc, ◌+◌, Bool, Option, none, some, List, [], ◌∷◌, ◌++◌, Text, bytes, Result, ok, err, Eff,
  handle, ◌>>=◌, ◌>>◌, fail, if◌then◌else◌, any, ◌==◌,
}

-- The tables, and the versions in `schema_migrations`, if that table is there.
pub record Catalog (T : Type 0) : Type 0 where
  pub tables : T
  pub versions : Option (List ℕ)

pub record Database (T : Type 0) : Type 0 where
  pub catalog : Catalog T
  pub faults : List (Option Text)

abbrev pub no_table : Text
no_table = bytes "no such table: schema_migrations"

-- `SELECT COUNT(*) … WHERE version = ?`, which is 0 or 1 as the version is the key.
unfoldable pub has_version : ℕ → Option (List ℕ) → Result Bool
has_version v none = err no_table
has_version v (some versions) = ok (any (λ w. w == v) versions)

-- `INSERT OR IGNORE`.
unfoldable pub add_version : ℕ → Option (List ℕ) → Result (Option (List ℕ))
add_version v none = err no_table
add_version v (some versions) =
    ok (some (if any (λ w. w == v) versions then versions else versions ++ v ∷ []))

module _ {T : Type 0} where
  abbrev pub landed :
      {A : Type 0} → Catalog T → List (Option Text) → Result (A × Catalog T) → Result A × Database T
  landed c faults (err e) = (err e, record { catalog = c; faults = faults })
  landed c faults (ok x) = (ok x.0, record { catalog = x.1; faults = faults })

  abbrev pub call_with :
      {A : Type 0}
      → (Catalog T → Result (A × Catalog T))
      → List (Option Text)
      → Catalog T
      → Result A × Database T
  call_with run (some e ∷ faults) c = (err e, record { catalog = c; faults = faults })
  call_with run (none ∷ faults) c = landed c faults (run c)
  call_with run [] c = landed c [] (run c)

  abbrev pub call : {A : Type 0} → (Catalog T → Result (A × Catalog T)) → Eff (Database T) A
  call run d = call_with run d.faults d.catalog

  abbrev pub select_version : ℕ → Catalog T → Result (Bool × Catalog T)
  select_version v c = elim (has_version v c.versions) [ err e ↦ err e | ok b ↦ ok (b, c) ]

  abbrev pub insert_version : ℕ → Catalog T → Result (Unit {0} × Catalog T)
  insert_version v c = elim (add_version v c.versions) [
    | err e ↦ err e
    | ok versions ↦ ok (tt, record c { versions = versions })
  ]

  -- `BeginTx` and `Commit` change nothing that the transaction sees.
  abbrev pub touch : Catalog T → Result (Unit {0} × Catalog T)
  touch c = ok (tt, c)

-- `show` is %d of fmt.
module _ {T : Type 0} (show : ℕ → Text) (run : Text → Catalog T → Result (Catalog T)) where
  abbrev pub run_statement : Text → ℕ → Catalog T → Result (Unit {0} × Catalog T)
  run_statement migration v c = elim (run migration c) [ err e ↦ err e | ok c' ↦ ok (tt, c') ]

  abbrev pub explained : ℕ → Text → Text
  explained v e = bytes "migration " ++ show v ++ bytes ": " ++ e

  unfoldable pub apply : Text → ℕ → Eff (Database T) (Unit {0})
  apply migration v d =
      handle (call (run_statement migration v) d) (λ e. fail (explained v e))
        (λ _. call (insert_version v))

  -- An error of the query does not matter for the first version, whose migration makes the table.
  unfoldable pub migrate_from : List Text → ℕ → Eff (Database T) (Unit {0})
  migrate_from [] v d = (ok tt, d)
  migrate_from (migration ∷ migrations) v d =
      let rest = migrate_from migrations (suc v) in
      handle (call (select_version v) d)
        (λ e. if v == 1 then (apply migration v >> rest) else fail e)
        (λ exists. if exists then rest else (apply migration v >> rest))

  -- The deferred `Rollback`, which does nothing after a commit.
  abbrev pub finish : Catalog T → Result (Unit {0}) × Database T → Result (Unit {0}) × Database T
  finish before (err e, d) = (err e, record d { catalog = before })
  finish before (ok _, d) =
      handle (call touch d) (λ e d'. (err e, record d' { catalog = before })) (λ _ d'. (ok tt, d'))

  unfoldable pub migrate : List Text → Eff (Database T) (Unit {0})
  migrate migrations d =
      handle (call touch d) (λ e d'. (err e, d'))
        (λ _ d'. finish d'.catalog (migrate_from migrations 1 d'))
