-- ===== src/Store/Schema/Keeps.antt =====
-- Rules for code that leaves a view of the database as it is: all its tables, or some of them.
use homelink_monitor.Base.{
  ◌≡◌, refl, ◌∙◌, Option, none, some, List, [], ◌∷◌, Text, Result, ok, err, Eff, ◌>>=◌, handle,
  proceed, ap,
}
use homelink_monitor.Store.Schema.{
  Db, Table, UserRow, OutageRow, execute, statement, query, returns, exec,
}

-- All tables: the faults to come are not part of them.
abbrev pub tables : {F : Type 0} → Db F → Db F
tables d = record d { faults = [] }

-- The tables that hold the users and the outages.
abbrev pub core : {F : Type 0} → Db F → Table UserRow × Table OutageRow
core d = (d.users, d.outages)

module _ {F C : Type 0} (view : Db F → C) where
  abbrev pub Keeps : {A : Type 0} → (Db F → A × Db F) → Type 0
  Keeps run = (d : Db F) → view (run d).1 ≡ view d

  abbrev pub IsBlind : Type 0
  IsBlind = (d : Db F) (faults : List (Option Text)) → view (record d { faults = faults }) ≡ view d

  pub returns-Keeps : {A : Type 0} (r : Result A) → Keeps (returns r)
  returns-Keeps r d = refl

  pub handled-Keeps :
      {A B : Type 0} (d : Db F) (x : Result A × Db F) (bad : Text → Db F → B × Db F)
      (good : A → Db F → B × Db F)
      → view x.1 ≡ view d
      → ((e : Text) → Keeps (bad e))
      → ((a : A) → Keeps (good a))
      → view (handle x bad good).1 ≡ view d
  handled-Keeps d (ok a, d') bad good e kb kg = kg a d' ∙ e
  handled-Keeps d (err x, d') bad good e kb kg = kb x d' ∙ e

  pub bound-Keeps :
      {A B : Type 0} (d : Db F) (x : Result A × Db F) (f : A → Eff (Db F) B)
      → view x.1 ≡ view d
      → ((a : A) → Keeps (f a))
      → view (proceed x f).1 ≡ view d
  bound-Keeps d (ok a, d') f e k = k a d' ∙ e
  bound-Keeps d (err x, d') f e k = e

  pub bind-Keeps :
      {A B : Type 0} (call : Eff (Db F) A) (f : A → Eff (Db F) B)
      → Keeps call
      → ((a : A) → Keeps (f a))
      → Keeps (call >>= f)
  bind-Keeps call f k next d = bound-Keeps d (call d) f (k d) next

  execute-Keeps :
      {A : Type 0} (run : Db F → Result A × Db F) (faults : List (Option Text))
      → IsBlind
      → Keeps run
      → Keeps (execute faults run)
  execute-Keeps run [] blind k d = k d
  execute-Keeps run (none ∷ faults) blind k d = k (record d { faults = faults }) ∙ blind d faults
  execute-Keeps run (some e ∷ faults) blind k d = blind d faults

  pub statement-Keeps :
      {A : Type 0} (run : Db F → Result A × Db F) → IsBlind → Keeps run → Keeps (statement run)
  statement-Keeps run blind k d = execute-Keeps run d.faults blind k d

module _ {F : Type 0} where
  pub query-Keeps : {A : Type 0} (read : Db F → A) → Keeps tables (query read)
  query-Keeps read = statement-Keeps tables (λ d. (ok (read d), d)) (λ d faults. refl) (λ d. refl)

  pub scanned-Keeps :
      {A B : Type 0} (read : Db F → A) (scan : A → Result B)
      → Keeps tables (query read >>= λ a. returns (scan a))
  scanned-Keeps read scan =
      bind-Keeps tables (query read) (λ a. returns (scan a)) (query-Keeps read)
        (λ a. returns-Keeps tables (scan a))

  -- A statement that changes neither users nor outages.
  pub exec-Keeps :
      (change : Db F → Db F) → ((d : Db F) → core (change d) ≡ core d) → Keeps core (exec change)
  exec-Keeps change k = statement-Keeps core (λ d. (ok tt, change d)) (λ d faults. refl) k

  pub core_of_tables : (d d' : Db F) → tables d' ≡ tables d → core d' ≡ core d
  core_of_tables d d' e = ap core e

  -- Equal tables: only the faults differ.
  pub same_but_faults : (d d' : Db F) → tables d' ≡ tables d → d' ≡ record d { faults = d'.faults }
  same_but_faults d d' e = ap (λ (x : Db F). record x { faults = d'.faults }) e
