-- ===== src/Store/Schema/Preserves.antt =====
-- Rules for code that keeps an invariant of the database, whichever of its statements fail.
use homelink_monitor.Base.{
  sym, subst, Option, none, some, List, [], ◌∷◌, Text, Result, ok, err, Eff, ◌>>=◌, handle, proceed,
}
use homelink_monitor.Store.Schema.{Db, execute, statement, returns, exec}
use homelink_monitor.Store.Schema.Keeps.{tables, Keeps, same_but_faults}
use homelink_monitor.Store.Schema.Rules.{IgnoresFaults}

module _ {F : Type 0} (P : Db F → Type 0) where
  abbrev pub Preserves : {A : Type 0} → (Db F → A × Db F) → Type 0
  Preserves run = (d : Db F) → P d → P (run d).1

  pub returns-Preserves : {A : Type 0} (r : Result A) → Preserves (returns r)
  returns-Preserves r d h = h

  pub handled-Preserves :
      {A B : Type 0} (x : Result A × Db F) (bad : Text → Db F → B × Db F)
      (good : A → Db F → B × Db F)
      → P x.1
      → ((e : Text) → Preserves (bad e))
      → ((a : A) → Preserves (good a))
      → P (handle x bad good).1
  handled-Preserves (ok a, d) bad good h kb kg = kg a d h
  handled-Preserves (err x, d) bad good h kb kg = kb x d h

  bound-Preserves :
      {A B : Type 0} (x : Result A × Db F) (f : A → Eff (Db F) B)
      → P x.1
      → ((a : A) → Preserves (f a))
      → P (proceed x f).1
  bound-Preserves (ok a, d) f h k = k a d h
  bound-Preserves (err x, d) f h k = h

  pub bind-Preserves :
      {A B : Type 0} (call : Eff (Db F) A) (f : A → Eff (Db F) B)
      → Preserves call
      → ((a : A) → Preserves (f a))
      → Preserves (call >>= f)
  bind-Preserves call f k next d h = bound-Preserves (call d) f (k d h) next

  module _ (stable : IgnoresFaults P) where
    execute-Preserves :
        {A : Type 0} (run : Db F → Result A × Db F) (faults : List (Option Text))
        → Preserves run
        → Preserves (execute faults run)
    execute-Preserves run [] k d h = k d h
    execute-Preserves run (none ∷ faults) k d h =
        k (record d { faults = faults }) (stable d faults h)
    execute-Preserves run (some e ∷ faults) k d h = stable d faults h

    pub statement-Preserves :
        {A : Type 0} (run : Db F → Result A × Db F) → Preserves run → Preserves (statement run)
    statement-Preserves run k d h = execute-Preserves run d.faults k d h

    pub exec-Preserves :
        (change : Db F → Db F) → ((d : Db F) → P d → P (change d)) → Preserves (exec change)
    exec-Preserves change k = statement-Preserves (λ d. (ok tt, change d)) k

    -- What keeps all tables keeps the invariant.
    pub tables-Preserves : {A : Type 0} (run : Db F → A × Db F) → Keeps tables run → Preserves run
    tables-Preserves run k d h =
        subst P (sym (same_but_faults d (run d).1 (k d))) (stable d (run d).1.faults h)
