-- ===== src/Store/Schema.antt =====
-- The tables of services/api/internal/db/db.go as lists of rows, and how a statement runs on them
-- (`ExecContext`, `QueryContext`, `QueryRowContext`). SQLite itself is not part of the program: a
-- statement runs whole or fails with the next error of `faults` and changes nothing.
pub mod Keeps
pub mod Order
pub mod Preserves
pub mod Rules
use homelink_monitor.Base.{
  ℕ, ◌+◌, Bool, false, Option, none, some, List, [], ◌∷◌, ◌++◌, Text, Result, ok, err, Eff,
  if◌then◌else◌, ◌||◌, ltb,
}
use homelink_monitor.Store.Stamp.{Stamp, stamp_lt}

-- A table with an AUTOINCREMENT key: the largest key ever given is remembered.
pub record Table (R : Type 0) : Type 0 where
  pub rows : List R
  pub last_id : ℕ

pub record SpeedTestRow (F : Type 0) : Type 0 where
  pub id : ℕ
  pub started_at : Stamp
  pub finished_at : Option Stamp
  pub download_mbps : Option F
  pub upload_mbps : Option F
  pub ping_ms : Option F
  pub jitter_ms : Option F
  pub server_name : Text
  pub server_location : Text
  pub success : ℕ
  pub error : Text

pub record LatencyRow (F : Type 0) : Type 0 where
  pub id : ℕ
  pub checked_at : Stamp
  pub target : Text
  pub latency_ms : Option F
  pub success : ℕ
  pub error : Text

pub record DnsRow (F : Type 0) : Type 0 where
  pub id : ℕ
  pub checked_at : Stamp
  pub domain : Text
  pub resolver : Text
  pub duration_ms : Option F
  pub success : ℕ
  pub error : Text

pub record OutageRow : Type 0 where
  pub id : ℕ
  pub started_at : Stamp
  pub ended_at : Option Stamp
  pub reason : Text

pub record UserRow : Type 0 where
  pub id : ℕ
  pub username : Text
  pub password_hash : Text
  pub role : Text
  pub created_at : Stamp
  pub updated_at : Stamp

pub record SessionRow : Type 0 where
  pub id : ℕ
  pub token_hash : Text
  pub user_id : ℕ
  pub created_at : Stamp
  pub expires_at : Stamp

pub record SettingRow : Type 0 where
  pub key : Text
  pub value : Text

pub record RouterTrafficRow (F : Type 0) : Type 0 where
  pub id : ℕ
  pub checked_at : Stamp
  pub provider : Text
  pub success : ℕ
  pub error : Text
  pub client_count : ℕ
  pub download_bps : Option F
  pub upload_bps : Option F
  pub total_bps : Option F
  pub download_available : ℕ
  pub upload_available : ℕ
  pub total_traffic_available : ℕ
  pub clients_json : Text

-- The database, with what the next statements do: `none` runs, `some e` fails with `e`; past the
-- end of the list every statement runs.
pub record Db (F : Type 0) : Type 0 where
  pub settings : List SettingRow
  pub speed_tests : Table (SpeedTestRow F)
  pub latency_checks : Table (LatencyRow F)
  pub dns_checks : Table (DnsRow F)
  pub outages : Table OutageRow
  pub users : Table UserRow
  pub sessions : Table SessionRow
  pub router_traffic : Table (RouterTrafficRow F)
  pub faults : List (Option Text)

abbrev pub empty_table : {R : Type 0} → Table R
empty_table = record { rows = []; last_id = 0 }

abbrev pub empty_db : {F : Type 0} → Db F
empty_db = record {
  settings = [];
  speed_tests = empty_table;
  latency_checks = empty_table;
  dns_checks = empty_table;
  outages = empty_table;
  users = empty_table;
  sessions = empty_table;
  router_traffic = empty_table;
  faults = [];
}

module _ {F : Type 0} {A : Type 0} where
  abbrev pub execute : List (Option Text) → (Db F → Result A × Db F) → Db F → Result A × Db F
  execute [] run d = run d
  execute (none ∷ faults) run d = run (record d { faults = faults })
  execute (some e ∷ faults) run d = (err e, record d { faults = faults })

  -- One statement: it takes the next fault, and runs if there is none.
  abbrev pub statement : (Db F → Result A × Db F) → Eff (Db F) A
  statement run d = execute d.faults run d

module _ {F : Type 0} where
  -- A statement that changes the tables and cannot break a constraint.
  abbrev pub exec : (Db F → Db F) → Eff (Db F) (Unit {0})
  exec change = statement (λ d. (ok tt, change d))

  abbrev pub query : {A : Type 0} → (Db F → A) → Eff (Db F) A
  query read = statement (λ d. (ok (read d), d))

  -- A step of the program after the statement, which changes no table.
  abbrev pub returns : {A : Type 0} → Result A → Eff (Db F) A
  returns r d = (r, d)

-- `INSERT INTO`: the row gets the next key.
abbrev pub insert_row : {R : Type 0} → (ℕ → R) → Table R → Table R
insert_row row t = record { rows = t.rows ++ row (t.last_id + 1) ∷ []; last_id = t.last_id + 1 }

-- `UPDATE … SET … WHERE`: each row for which the test holds is changed.
abbrev pub update_where : {R : Type 0} → (R → Bool) → (R → R) → List R → List R
update_where test change [] = []
update_where test change (r ∷ rows) =
    (if test r then change r else r) ∷ update_where test change rows

-- `ORDER BY stamp DESC, id DESC`: whether the first key stands before the second.
abbrev pub newer : Stamp × ℕ → Stamp × ℕ → Bool
newer (s, i) (t, j) = stamp_lt t s || (if stamp_lt s t then false else ltb j i)

module _ {R : Type 0} (key : R → Stamp × ℕ) where
  unfoldable pub insert_ordered : R → List R → List R
  insert_ordered r [] = r ∷ []
  insert_ordered r (x ∷ rows) =
      let later = insert_ordered r rows in if newer (key x) (key r) then x ∷ later else r ∷ x ∷ rows

  unfoldable pub newest_first : List R → List R
  newest_first [] = []
  newest_first (r ∷ rows) = insert_ordered r (newest_first rows)

-- `for rows.Next() { item, err := scan(rows); … }`: the first error ends the loop.
unfoldable pub scan_all : {R A : Type 0} → (R → Result A) → List R → Result (List A)
scan_all scan [] = ok []
scan_all scan (r ∷ rows) = elim (scan r) [
  | err e ↦ err e
  | ok a ↦ elim (scan_all scan rows) [ err e ↦ err e | ok items ↦ ok (a ∷ items) ]
]

-- `boolInt`.
abbrev pub bool_int : Bool → ℕ
bool_int b = if b then 1 else 0
