-- ===== src/Migrations/Tests.antt =====
-- Two migrations of an empty database: the first makes the table of the versions.
use homelink_monitor.Base.{
  ℕ, ◌≡◌, subst, ap, true, arith, Option, none, some, List, [], ◌∷◌, ◌++◌, Text, Result, ok, err,
  bytes,
}
use homelink_monitor.Migrations.{Catalog, Database, migrate}
use homelink_monitor.Migrations.Recorded.{Has, recorded}
use homelink_monitor.Migrations.Settled.{IsWhole, migrate-IsWhole}

-- The table of the versions is made if it is missing, and the names of the statements are kept.
abbrev or_empty : Option (List ℕ) → Option (List ℕ)
or_empty none = some []
or_empty (some versions) = some versions

abbrev run : Text → Catalog (List Text) → Result (Catalog (List Text))
run migration c =
    ok (record { tables = c.tables ++ migration ∷ []; versions = or_empty c.versions })

abbrev versions_in : Result (Catalog (List Text)) → Option (List ℕ)
versions_in (ok c) = c.versions
versions_in (err e) = none

or_empty_keeps :
    (v : ℕ) (versions : Option (List ℕ))
    → recorded v versions ≡ true
    → recorded v (or_empty versions) ≡ true
or_empty_keeps v none h = ground arith
or_empty_keeps v (some versions) h = h

keeps :
    (migration : Text) (c c' : Catalog (List Text))
    → run migration c ≡ ok c'
    → (v : ℕ) → Has v c
    → Has v c'
keeps migration c c' e v h =
    subst (λ o. recorded v o ≡ true) (ap versions_in e) (or_empty_keeps v c.versions h)

abbrev empty : Database (List Text)
empty = record { catalog = record { tables = []; versions = none }; faults = [] }

migrate-IsWhole_example :
    IsWhole
      (λ n. [])
      run
      (bytes "a" ∷ bytes "b" ∷ [])
      empty.catalog
      (migrate (λ n. []) run (bytes "a" ∷ bytes "b" ∷ []) empty)
migrate-IsWhole_example = migrate-IsWhole (λ n. []) run (bytes "a" ∷ bytes "b" ∷ []) keeps empty
