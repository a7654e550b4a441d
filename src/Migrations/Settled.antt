-- ===== src/Migrations/Settled.antt =====
-- A run of the migrations happens whole or not at all, and a second one changes nothing.
use homelink_monitor.Base.{
  ℕ, suc, ◌≡◌, refl, sym, subst, ap, ◌∙◌, true, Option, Option-cases, none, some, List, [], ◌∷◌,
  Text, Result, ok, err, handle, any, ◌==◌, inl, inr, arith,
}
use homelink_monitor.Migrations.{
  Catalog, Database, has_version, call_with, call, touch, migrate_from, finish, migrate,
}
use homelink_monitor.Migrations.Recorded.{
  Has, Keeps, AllHas, Leaves, recorded, call_with-Leaves, migrate_from-IsDone,
}

module _ {T : Type 0} where
  -- What beginning a transaction leaves.
  abbrev IsBegun : Catalog T → Result (Unit {0}) × Database T → Type 0
  IsBegun c (r, d) = d.catalog ≡ c

  touch-IsBegun :
      (faults : List (Option Text)) (c : Catalog T) → IsBegun c (call_with touch faults c)
  touch-IsBegun (some e ∷ faults) c = refl
  touch-IsBegun (none ∷ faults) c = refl
  touch-IsBegun [] c = refl

module _ {T : Type 0} (show : ℕ → Text) (run : Text → Catalog T → Result (Catalog T)) where
  -- A run over recorded versions leaves the catalog as it is.
  migrate_from_again :
      (migrations : List Text) (v : ℕ) (c : Catalog T)
      → AllHas migrations v c
      → migrate_from show run migrations v (record { catalog = c; faults = [] })
        ≡ (ok tt, record { catalog = c; faults = [] })
  unfolding migrate_from has_version
  migrate_from_again [] v c h = refl
  migrate_from_again (migration ∷ migrations) v c (has, h) = elim (Option-cases c.versions) [
    | inl nothing ↦ absurd (ground (arith, ap (λ o. recorded v o) nothing, has))
    | inr (versions, e) ↦
        let found : any (λ w. w == v) versions ≡ true = sym (ap (λ o. recorded v o) e) ∙ has in
        rw (e, found)
          (migrate_from_again migrations (suc v) (record c { versions = some versions })
            (subst (λ o. AllHas migrations (suc v) (record c { versions = o })) e h))
  ]

  module _ (migrations : List Text) where
    migrate_again :
        (c : Catalog T)
        → AllHas migrations 1 c
        → migrate show run migrations (record { catalog = c; faults = [] })
          ≡ (ok tt, record { catalog = c; faults = [] })
    unfolding migrate
    migrate_again c h = rw (migrate_from_again migrations 1 c h) refl

    -- A run that ends in an error leaves the catalog as it was; one that succeeds records every version,
    -- and a second run with no failing call then succeeds and changes nothing.
    abbrev pub IsWhole : Catalog T → Result (Unit {0}) × Database T → Type 0
    IsWhole before (err e, d) = d.catalog ≡ before
    IsWhole before (ok _, d) =
        AllHas migrations 1 d.catalog
        × (migrate show run migrations (record d { faults = [] })
            ≡ (ok tt, record d { faults = [] }))

    committed-IsWhole :
        (before : Catalog T) (x : Result (Unit {0}) × Database T)
        → Leaves (λ _ c. AllHas migrations 1 c) x
        → IsWhole before
            (handle x (λ e d'. (err e, record d' { catalog = before })) (λ _ d'. (ok tt, d')))
    committed-IsWhole before (ok _, d) h = (h, migrate_again d.catalog h)
    committed-IsWhole before (err e, d) h = refl

    finish-IsWhole :
        (before : Catalog T) (x : Result (Unit {0}) × Database T)
        → Leaves (λ _ c. Keeps before c × AllHas migrations 1 c) x
        → IsWhole before (finish show run before x)
    finish-IsWhole before (err e, d) h = refl
    finish-IsWhole before (ok _, d) h =
        committed-IsWhole before (call touch d)
          (call_with-Leaves (λ _ c. AllHas migrations 1 c) touch d.faults d.catalog h.1)

    module _
        (keeps : (migration : Text) (c c' : Catalog T)
          → run migration c ≡ ok c'
          → (v : ℕ) → Has v c
          → Has v c') where
      begun-IsWhole :
          (before : Catalog T) (x : Result (Unit {0}) × Database T)
          → IsBegun before x
          → IsWhole before (
              handle x
                (λ e d'. (err e, d'))
                (λ _ d'. finish show run d'.catalog (migrate_from show run migrations 1 d')))
      begun-IsWhole before (err e, d) h = h
      begun-IsWhole before (ok _, d) h =
          subst (λ c. IsWhole c (finish show run d.catalog (migrate_from show run migrations 1 d)))
            h
            (finish-IsWhole d.catalog (migrate_from show run migrations 1 d)
              (migrate_from-IsDone show run keeps migrations 1 d))

      -- If no migration drops a recorded version: when `Migrate` returns an error, whichever call
      -- failed, the database is as it was; when it succeeds, every version is recorded, and `Migrate`
      -- run again, with no failing call, succeeds and changes nothing.
      pub migrate-IsWhole : (d : Database T) → IsWhole d.catalog (migrate show run migrations d)
      unfolding migrate
      migrate-IsWhole d = begun-IsWhole d.catalog (call touch d) (touch-IsBegun d.faults d.catalog)
