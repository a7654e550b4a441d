-- ===== src/Migrations/Recorded.antt =====
-- Each version that a run of the migrations goes through is recorded.
use homelink_monitor.Base.{
  ℕ, suc, ◌≡◌, refl, sym, subst, Bool, true, false, Option, Option-cases, none, some, List, [], ◌∷◌,
  ◌++◌, Text, Result, ok, err, Eff, handle, proceed, ◌>>◌, fail, if◌then◌else◌, any, ◌==◌,
  Bool-cases, if-either, inl, inr, arith,
}
use homelink_monitor.Migrations.{
  Catalog, Database, has_version, add_version, landed, call_with, call, select_version,
  insert_version, run_statement, explained, apply, migrate_from,
}

any_append_left :
    (v : ℕ) (xs ys : List ℕ) → any (λ w. w == v) xs ≡ true → any (λ w. w == v) (xs ++ ys) ≡ true
any_append_left v [] ys h = ground arith
any_append_left v (x ∷ xs) ys h = elim (Bool-cases (x == v)) [
  | inl e ↦ rw e refl
  | inr e ↦ rw e (any_append_left v xs ys (ground arith))
]

any_append_last : (v : ℕ) (xs : List ℕ) → any (λ w. w == v) (xs ++ v ∷ []) ≡ true
any_append_last v [] = ground arith
any_append_last v (x ∷ xs) = elim (Bool-cases (x == v)) [
  | inl e ↦ rw e refl
  | inr e ↦ rw e (any_append_last v xs)
]

abbrev pub recorded : ℕ → Option (List ℕ) → Bool
recorded v none = false
recorded v (some versions) = any (λ w. w == v) versions

abbrev with_version : ℕ → List ℕ → List ℕ
with_version v versions = if any (λ w. w == v) versions then versions else versions ++ v ∷ []

with_version_keeps :
    (v w : ℕ) (versions : List ℕ)
    → any (λ x. x == w) versions ≡ true
    → any (λ x. x == w) (with_version v versions) ≡ true
with_version_keeps v w versions h =
    if-either (λ vs. any (λ x. x == w) vs ≡ true) (any (λ x. x == v) versions) versions
      (versions ++ v ∷ []) h (any_append_left w versions (v ∷ []) h)

with_version_has : (v : ℕ) (versions : List ℕ) → any (λ w. w == v) (with_version v versions) ≡ true
with_version_has v versions = elim (Bool-cases (any (λ w. w == v) versions)) [
  | inl e ↦ rw e e
  | inr e ↦ rw e (any_append_last v versions)
]

module _ {T : Type 0} where
  -- The version is recorded.
  abbrev pub Has : ℕ → Catalog T → Type 0
  Has v c = recorded v c.versions ≡ true

  -- Each version that is recorded stays so.
  abbrev pub Keeps : Catalog T → Catalog T → Type 0
  Keeps c c' = (w : ℕ) → Has w c → Has w c'

  abbrev Lands : {A : Type 0} → (A → Catalog T → Type 0) → Result (A × Catalog T) → Type 0
  Lands Q (ok x) = Q x.0 x.1
  Lands Q (err e) = Unit

  abbrev pub Leaves : {A : Type 0} → (A → Catalog T → Type 0) → Result A × Database T → Type 0
  Leaves Q (ok a, d) = Q a d.catalog
  Leaves Q (err e, d) = Unit

  landed-Leaves :
      {A : Type 0} (Q : A → Catalog T → Type 0) (c : Catalog T) (faults : List (Option Text))
      (r : Result (A × Catalog T))
      → Lands Q r
      → Leaves Q (landed c faults r)
  landed-Leaves Q c faults (ok x) h = h
  landed-Leaves Q c faults (err e) h = tt

  pub call_with-Leaves :
      {A : Type 0} (Q : A → Catalog T → Type 0) (run : Catalog T → Result (A × Catalog T))
      (faults : List (Option Text)) (c : Catalog T)
      → Lands Q (run c)
      → Leaves Q (call_with run faults c)
  call_with-Leaves Q run (some e ∷ faults) c h = tt
  call_with-Leaves Q run (none ∷ faults) c h = landed-Leaves Q c faults (run c) h
  call_with-Leaves Q run [] c h = landed-Leaves Q c [] (run c) h

  insert_version-Lands :
      (v : ℕ) (c : Catalog T) → Lands (λ _ c'. Keeps c c' × Has v c') (insert_version v c)
  unfolding has_version add_version
  insert_version-Lands v c = elim (Option-cases c.versions) [
    | inl nothing ↦ rw nothing tt
    | inr (versions, e) ↦
        rw e (λ w h. with_version_keeps v w versions h, with_version_has v versions)
  ]

  -- Each version from the given one is recorded.
  abbrev pub AllHas : List Text → ℕ → Catalog T → Type 0
  AllHas [] v c = Unit
  AllHas (migration ∷ migrations) v c = Has v c × AllHas migrations (suc v) c

  -- What the query leaves: the same catalog, and a version that it finds is recorded.
  abbrev pub Selects : ℕ → Catalog T → Result Bool × Database T → Type 0
  Selects v c (ok exists, d) = (d.catalog ≡ c) × (exists ≡ true → Has v c)
  Selects v c (err e, d) = d.catalog ≡ c

  landed-Selects :
      (v : ℕ) (c : Catalog T) (faults : List (Option Text))
      → Selects v c (landed c faults (select_version v c))
  unfolding has_version
  landed-Selects v c faults = elim (Option-cases c.versions) [
    | inl nothing ↦ rw nothing refl
    | inr (versions, e) ↦ rw e (refl, λ b. b)
  ]

  select_version-Selects :
      (v : ℕ) (faults : List (Option Text)) (c : Catalog T)
      → Selects v c (call_with (select_version v) faults c)
  select_version-Selects v (some e ∷ faults) c = refl
  select_version-Selects v (none ∷ faults) c = landed-Selects v c faults
  select_version-Selects v [] c = landed-Selects v c []

module _ {T : Type 0} (show : ℕ → Text) (run : Text → Catalog T → Result (Catalog T))
    (keeps : (migration : Text) (c c' : Catalog T) → run migration c ≡ ok c' → Keeps c c') where
  run_statement-Lands :
      (migration : Text) (v : ℕ) (c : Catalog T)
      → Lands (λ _ c'. Keeps c c') (run_statement show run migration v c)
  run_statement-Lands migration v c = landed_of (run migration c) (keeps migration c)
    where
      landed_of :
          (r : Result (Catalog T))
          → ((c' : Catalog T) → r ≡ ok c' → Keeps c c')
          → Lands (λ (_ : Unit {0}) c'. Keeps c c') (elim r [ err e ↦ err e | ok c' ↦ ok (tt, c') ])
      landed_of (ok c') h = h c' refl
      landed_of (err e) h = tt

  -- What follows a call that keeps the versions.
  after-Leaves :
      {A : Type 0} (Q : Catalog T → Type 0) (c c' : Catalog T) (x : Result A × Database T)
      → Keeps c c'
      → Leaves (λ _ c''. Keeps c' c'' × Q c'') x
      → Leaves (λ _ c''. Keeps c c'' × Q c'') x
  after-Leaves Q c c' (ok _, d) k h = (λ w i. h.0 w (k w i), h.1)
  after-Leaves Q c c' (err e, d) k h = tt

  then_insert :
      (v : ℕ) (c : Catalog T) (x : Result (Unit {0}) × Database T)
      → Leaves (λ _ c'. Keeps c c') x
      → Leaves
          (λ _ c'. Keeps c c' × Has v c')
          (handle x (λ e. fail (explained show run v e)) (λ _. call (insert_version v)))
  then_insert v c (ok _, d) k = after-Leaves (Has v) c d.catalog (call (insert_version v) d) k (
      call_with-Leaves (λ _ c'. Keeps d.catalog c' × Has v c') (insert_version v) d.faults d.catalog
        (insert_version-Lands v d.catalog))
  then_insert v c (err e, d) k = tt

  apply-Leaves :
      (migration : Text) (v : ℕ) (d : Database T)
      → Leaves (λ _ c'. Keeps d.catalog c' × Has v c') (apply show run migration v d)
  unfolding apply
  apply-Leaves migration v d =
      then_insert v d.catalog (call (run_statement show run migration v) d) (
        call_with-Leaves (λ _ c'. Keeps d.catalog c') (run_statement show run migration v) d.faults
          d.catalog (run_statement-Lands migration v d.catalog))

  abbrev pub IsDone : List Text → ℕ → Catalog T → Result (Unit {0}) × Database T → Type 0
  IsDone migrations v c r = Leaves (λ _ c'. Keeps c c' × AllHas migrations v c') r

  -- The first version is recorded, and the rest is done.
  one_more :
      (migration : Text) (migrations : List Text) (v : ℕ) (c c' : Catalog T)
      (r : Result (Unit {0}) × Database T)
      → Keeps c c'
      → Has v c'
      → IsDone migrations (suc v) c' r
      → IsDone (migration ∷ migrations) v c r
  one_more migration migrations v c c' (ok _, d) k h done =
      (λ w i. done.0 w (k w i), (done.0 v h, done.1))
  one_more migration migrations v c c' (err e, d) k h done = tt

  module _ (migration : Text) (migrations : List Text) (v : ℕ) (rest : Eff (Database T) (Unit {0}))
      (rest_done : (d : Database T) → IsDone migrations (suc v) d.catalog (rest d)) where
    applied_rest :
        (c : Catalog T) (x : Result (Unit {0}) × Database T)
        → Leaves (λ _ c'. Keeps c c' × Has v c') x
        → IsDone (migration ∷ migrations) v c (proceed x (λ _. rest))
    applied_rest c (ok _, d) h =
        one_more migration migrations v c d.catalog (rest d) h.0 h.1 (rest_done d)
    applied_rest c (err e, d) h = tt

    apply_rest :
        (d : Database T)
        → IsDone (migration ∷ migrations) v d.catalog ((apply show run migration v >> rest) d)
    apply_rest d =
        applied_rest d.catalog (apply show run migration v d) (apply-Leaves migration v d)

    selected :
        (c : Catalog T) (x : Result Bool × Database T)
        → Selects v c x
        → IsDone (migration ∷ migrations) v c (
            handle x
              (λ e. if v == 1 then (apply show run migration v >> rest) else fail e)
              (λ exists. if exists then rest else (apply show run migration v >> rest)))
    selected c (ok true, d) (e, h) =
        one_more migration migrations v c d.catalog (rest d)
          (subst (λ x. Keeps c x) (sym e) (λ w i. i)) (subst (λ x. Has v x) (sym e) (h refl))
          (rest_done d)
    selected c (ok false, d) (e, h) =
        subst (λ x. IsDone (migration ∷ migrations) v x ((apply show run migration v >> rest) d)) e
          (apply_rest d)
    selected c (err x, d) e =
        if-either (λ (m : Eff (Database T) (Unit {0})). IsDone (migration ∷ migrations) v c (m d))
          (v == 1) (apply show run migration v >> rest) (fail x)
          (subst (λ x. IsDone (migration ∷ migrations) v x ((apply show run migration v >> rest) d))
            e (apply_rest d))
          tt

  pub migrate_from-IsDone :
      (migrations : List Text) (v : ℕ) (d : Database T)
      → IsDone migrations v d.catalog (migrate_from show run migrations v d)
  unfolding migrate_from
  migrate_from-IsDone [] v d = ((λ w i. i), tt)
  migrate_from-IsDone (migration ∷ migrations) v d =
      selected migration migrations v (migrate_from show run migrations (suc v))
        (migrate_from-IsDone migrations (suc v)) d.catalog (call (select_version v) d)
        (select_version-Selects v d.faults d.catalog)
