-- ===== src/Main/Started.antt =====
-- What a start that succeeds leaves: the users, and the state that the program begins with.
use homelink_monitor.Base.{
  ℕ, ◌+◌, ◌≤◌, ◌≡◌, refl, ◌∙◌, arith, true, false, ◌||◌, List, [], ◌∷◌, Text, bytes, trim_space,
  is_empty, Result, ok, err, Ends, proceed-Ends, Eff, pure, fail, if◌then◌else◌, if-either, length,
  ltb, Bool-cases, inl, inr,
}
use homelink_monitor.Domain.{Time}
use homelink_monitor.Store.Stamp.{ts}
use homelink_monitor.Store.Schema.{Db, UserRow}
use homelink_monitor.Store.Schema.Rules.{execute-Ends}
use homelink_monitor.Store.Users.{has_username, user_count, create_user, add_user}
use homelink_monitor.Store.Sound.{IsKeyed, IsSound, add_user-IsSound}
use homelink_monitor.Auth.{
  Bcrypt, validate_username, hash_password, create_admin, ensure_initial_admin,
}
use homelink_monitor.Events.Disk.{Disk}
use homelink_monitor.Config.{Config, load}
use homelink_monitor.Migrations.{Database}
use homelink_monitor.Monitoring.Sound.{IsSafe}
use homelink_monitor.Main.{Host, Running, serving, new_state, seeded, opened, open_on, start}

-- The row of the administrator of the configuration, whose name and password passed the checks.
pub record IsAdmin (bcrypt : Bcrypt) (username password : Text) (r : UserRow) : Type 0 where
  pub named : r.username ≡ trim_space username
  pub as_admin : r.role ≡ bytes "admin"
  pub valid : validate_username username ≡ ok tt
  pub hashed : hash_password bcrypt password ≡ ok r.password_hash

-- The users after a start: those before it, or the administrator if there was none.
abbrev pub IsSeeded : Bcrypt → Text → Text → List UserRow → List UserRow → Type 0
IsSeeded bcrypt username password [] after =
    (r : UserRow) × (after ≡ r ∷ []) × IsAdmin bcrypt username password r
IsSeeded bcrypt username password (r ∷ before) after = after ≡ r ∷ before

IsSeeded-same :
    (bcrypt : Bcrypt) (username password : Text) (rows : List UserRow)
    → 1 ≤ length rows
    → IsSeeded bcrypt username password rows rows
IsSeeded-same bcrypt username password [] h = absurd (omega arith)
IsSeeded-same bcrypt username password (r ∷ rows) h = refl

nil_of_length : (rows : List UserRow) → length rows ≡ 0 → rows ≡ []
nil_of_length [] h = refl
nil_of_length (r ∷ rows) h = absurd (omega arith)

valued-Ends :
    {S A : Type 0} (r : Result A) (s : S) → Ends (λ a t. (r ≡ ok a) × (t ≡ s)) (λ t. Unit) (r, s)
valued-Ends (ok a) s = (refl, refl)
valued-Ends (err e) s = tt

-- The invariant of the database, and the users that a start leaves.
abbrev IsDone : {F : Type 0} → Bcrypt → Text → Text → List UserRow → Db F → Type 0
IsDone bcrypt username password before s =
    IsSound s × IsSeeded bcrypt username password before s.users.rows

abbrev admin_row : Text → Text → Time → ℕ → UserRow
admin_row username hash now n = record {
  id = n;
  username = trim_space username;
  password_hash = hash;
  role = bytes "admin";
  created_at = ts now;
  updated_at = ts now;
}

module _ {F : Type 0} (bcrypt : Bcrypt) (username password : Text) (now : Time) where
  -- The administrator's row is added to no other.
  add_user-IsDone :
      (hash : Text) (d : Db F)
      → IsKeyed d
      → d.users.rows ≡ []
      → validate_username username ≡ ok tt
      → hash_password bcrypt password ≡ ok hash
      → IsDone bcrypt username password []
          (add_user (trim_space username) hash (bytes "admin") now d)
  unfolding add_user
  add_user-IsDone hash d keyed empty valid hashed = (
    add_user-IsSound (trim_space username) hash (bytes "admin") now d keyed,
    (
      admin_row username hash now (d.users.last_id + 1),
      rw empty refl,
      record { named = refl; as_admin = refl; valid = valid; hashed = hashed },
    ),
  )

  create_user-IsDone :
      (hash : Text) (d : Db F)
      → IsKeyed d
      → d.users.rows ≡ []
      → validate_username username ≡ ok tt
      → hash_password bcrypt password ≡ ok hash
      → Ends
          (λ _ s. IsDone bcrypt username password [] s)
          (λ s. Unit)
          (create_user (trim_space username) hash (bytes "admin") now d)
  unfolding create_user
  create_user-IsDone hash d keyed empty valid hashed =
      execute-Ends (λ s. IsKeyed s × (s.users.rows ≡ [])) (λ s. Unit)
        (λ (n : ℕ) s. IsDone bcrypt username password [] s) _ d.faults d (λ s faults h. h)
        (λ s h. tt)
        (λ s h. elim (Bool-cases (has_username (trim_space username) s.users.rows)) [
          | inl taken ↦ rw taken tt
          | inr free ↦ rw free (add_user-IsDone hash s h.0 h.1 valid hashed)
        ])
        (keyed, empty)

  create_admin-IsDone :
      (d : Db F)
      → IsKeyed d
      → d.users.rows ≡ []
      → Ends
          (λ _ s. IsDone bcrypt username password [] s)
          (λ s. Unit)
          (create_admin bcrypt username password now d)
  unfolding create_admin
  create_admin-IsDone d keyed empty =
      proceed-Ends (λ (_ : Unit {0}) s. (validate_username username ≡ ok tt) × (s ≡ d))
        (λ (_ : Unit {0}) s. IsDone bcrypt username password [] s) (λ s. Unit)
        (validate_username username, d) _ (valued-Ends (validate_username username) d)
        (λ _ s valid.
          proceed-Ends (λ hash t. (hash_password bcrypt password ≡ ok hash) × (t ≡ s))
            (λ (_ : Unit {0}) s. IsDone bcrypt username password [] s) (λ s. Unit)
            (hash_password bcrypt password, s) _ (valued-Ends (hash_password bcrypt password) s)
            (λ hash t hashed.
              let same : t ≡ d = hashed.1 ∙ valid.1 in
              proceed-Ends (λ (n : ℕ) u. IsDone bcrypt username password [] u)
                (λ (_ : Unit {0}) u. IsDone bcrypt username password [] u) (λ u. Unit)
                (create_user (trim_space username) hash (bytes "admin") now t) _
                (create_user-IsDone hash t (rw same keyed) (rw same empty) valid.0 hashed.0)
                (λ n u done. done)))

  after_count-IsDone :
      (rows : List UserRow) (n : ℕ) (s : Db F)
      → (n ≡ length s.users.rows) × IsKeyed s × (s.users.rows ≡ rows)
      → Ends
          (λ _ t. IsDone bcrypt username password rows t)
          (λ t. Unit)
          ((if ltb 0 n
              then pure tt
              else if is_empty (trim_space username) || is_empty password
              then fail (
                  bytes
                    "ADMIN_USERNAME and ADMIN_PASSWORD are required when creating the first user")
              else create_admin bcrypt username password now)
            s)
  after_count-IsDone [] n s (e, keyed, same) = rw (count_nil) (
      if-either
        (λ (run : Eff (Db F) (Unit {0})).
          Ends (λ _ t. IsDone bcrypt username password [] t) (λ t. Unit) (run s))
        (is_empty (trim_space username) || is_empty password) _ _ tt
        (create_admin-IsDone s keyed same))
    where
      count_nil : ltb 0 n ≡ false
      count_nil = rw (e, same) refl
  after_count-IsDone (r ∷ rows) n s (e, keyed, same) =
      rw some_ ((keyed, rw same (omega arith)), same)
    where
      len : n ≡ length rows + 1
      len = rw (e, same) (omega arith)

      some_ : ltb 0 n ≡ true
      some_ = ground arith

  ensure_initial_admin-IsDone :
      (d : Db F)
      → IsKeyed d
      → Ends
          (λ _ s. IsDone bcrypt username password d.users.rows s)
          (λ s. Unit)
          (ensure_initial_admin bcrypt username password now d)
  unfolding ensure_initial_admin user_count
  ensure_initial_admin-IsDone d keyed =
      proceed-Ends
        (λ (n : ℕ) s. (n ≡ length s.users.rows) × IsKeyed s × (s.users.rows ≡ d.users.rows))
        (λ (_ : Unit {0}) s. IsDone bcrypt username password d.users.rows s) (λ s. Unit)
        (user_count d) _
        (execute-Ends (λ s. IsKeyed s × (s.users.rows ≡ d.users.rows)) (λ s. Unit)
          (λ (n : ℕ) s. (n ≡ length s.users.rows) × IsKeyed s × (s.users.rows ≡ d.users.rows)) _
          d.faults d (λ s faults h. h) (λ s h. tt) (λ s h. (refl, h.0, h.1)) (keyed, refl))
        (after_count-IsDone d.users.rows)

module _ {F : Type 0} (host : Host F) (disk : Disk) (r : Running F) where
  abbrev cfg : Config
  cfg = load host.getenv

  -- The state of a program that serves: safe, and with the users that a start leaves.
  abbrev pub IsReady : List UserRow → Type 0
  IsReady before =
      IsSafe r.state
      × IsSeeded host.bcrypt cfg.admin_username cfg.admin_password before
          r.state.service.db.users.rows

  seeded-IsReady :
      (before : List UserRow) (x : Result (Unit {0}) × Db F)
      → Ends
          (λ _ s. IsDone host.bcrypt cfg.admin_username cfg.admin_password before s)
          (λ s. Unit)
          x
      → seeded cfg disk x ≡ serving r
      → IsReady before
  seeded-IsReady before (err e, db) h same = cc
  seeded-IsReady before (ok _, db) (sound, is_seeded) same =
      rw (state_same) (((sound, tt), refl), is_seeded)
    where
      state_same : r.state ≡ new_state db disk
      state_same = cc

  opened-IsReady :
      (x : Result (Unit {0}) × Database (Db F))
      → IsKeyed x.1.catalog.tables
      → opened host cfg disk x ≡ serving r
      → IsReady x.1.catalog.tables.users.rows
  opened-IsReady (err e, d) keyed same = cc
  opened-IsReady (ok _, d) keyed same =
      seeded-IsReady d.catalog.tables.users.rows
        (ensure_initial_admin host.bcrypt cfg.admin_username cfg.admin_password host.now
          d.catalog.tables)
        (ensure_initial_admin-IsDone host.bcrypt cfg.admin_username cfg.admin_password host.now
          d.catalog.tables keyed)
        same

-- If the program serves, on tables whose users have keys of their own and whose outages are valid
-- once the migrations have run: there is a user, and the state is safe; the users are those that were
-- stored, or, if none was, the one of the configuration, with the role admin, a valid name, and a hash
-- of the configured password that passed its checks.
pub start-IsReady :
    {F : Type 0} (host : Host F) (disk : Disk) (d : Database (Db F)) (r : Running F)
    → IsKeyed (open_on host d).1.catalog.tables
    → start host disk d ≡ serving r
    → IsReady host disk r (open_on host d).1.catalog.tables.users.rows
unfolding start
start-IsReady host disk d r keyed same = opened-IsReady host disk r (open_on host d) keyed same
