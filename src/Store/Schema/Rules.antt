-- ===== src/Store/Schema/Rules.antt =====
-- The rule of postconditions for one statement: the fault that it takes does not matter to a
-- predicate that does not read the faults.
use homelink_monitor.Base.{Option, none, some, List, [], ◌∷◌, Text, Result, ok, err, Ends, ◌≡◌, ap}
use homelink_monitor.Store.Schema.{Db, execute, returns}

module _ {F : Type 0} where
  abbrev pub IgnoresFaults : (Db F → Type 0) → Type 0
  IgnoresFaults P =
      (d : Db F) (faults : List (Option Text)) → P d → P (record d { faults = faults })

  pub execute-Ends :
      {A : Type 0} (P E : Db F → Type 0) (Q : A → Db F → Type 0) (run : Db F → Result A × Db F)
      (faults : List (Option Text)) (d : Db F)
      → IgnoresFaults P
      → ((d : Db F) → P d → E d)
      → ((d : Db F) → P d → Ends Q E (run d))
      → P d
      → Ends Q E (execute faults run d)
  execute-Ends P E Q run [] d stable fails keep h = keep d h
  execute-Ends P E Q run (none ∷ faults) d stable fails keep h = keep _ (stable d faults h)
  execute-Ends P E Q run (some e ∷ faults) d stable fails keep h = fails _ (stable d faults h)

  -- A statement with no fault ahead runs.
  pub execute_of_nil :
      {A : Type 0} (run : Db F → Result A × Db F) (d : Db F)
      → d.faults ≡ []
      → execute d.faults run d ≡ run d
  execute_of_nil run d f = ap (λ faults. execute faults run d) f

  pub returns-Ends :
      {A : Type 0} (P : Db F → Type 0) (r : Result A) (d : Db F)
      → P d
      → Ends (λ _ s. P s) P (returns r d)
  returns-Ends P (ok a) d h = h
  returns-Ends P (err e) d h = h
