-- ===== src/Store/Users.antt =====
-- The statements on `users` and `sessions` (services/api/internal/store/users.go). SHA-256 in hex is
-- a parameter, `digest`. Whether a deletion cascades to the sessions is one too: the program sets
-- `foreign_keys` on the connection that it opens, and the pool may replace that connection.
pub mod Accounts
pub mod Keys
use homelink_monitor.Base.{
  ℕ, ◌+◌, Bool, false, not, ◌&&◌, Option, none, some, List, [], ◌∷◌, Text, text_eq, bytes, Result,
  ok, err, Eff, ◌>>=◌, if◌then◌else◌, length, select, find, any, ◌==◌, ℤ, pos, negsuc,
}
use homelink_monitor.Domain.{Time, User}
use homelink_monitor.Store.Stamp.{ts, parse_ts, stamp_lt, stamp_le, text_lt}
use homelink_monitor.Store.Schema.{
  Db, UserRow, SessionRow, statement, exec, query, returns, insert_row, update_where, scan_all,
}

pub record UserWithPassword : Type 0 where
  pub user : User
  pub password_hash : Text

-- A key given by a client is a signed integer; the keys of rows are positive.
abbrev pub is_key : ℤ → ℕ → Bool
is_key (pos n) m = n == m
is_key (negsuc n) m = false

abbrev user_of : UserRow → Time → Time → User
user_of r created updated = record {
  id = r.id;
  username = r.username;
  role = r.role;
  created_at = created;
  updated_at = updated;
}

unfoldable pub scan_user : UserRow → Result User
scan_user r = elim (parse_ts r.created_at) [
  | err e ↦ err e
  | ok created ↦ elim (parse_ts r.updated_at) [
    | err e ↦ err e
    | ok updated ↦ ok (user_of r created updated)
  ]
]

-- No row (`sql.ErrNoRows`) is no user.
unfoldable pub scan_user_row : Option UserRow → Result (Option User)
scan_user_row none = ok none
scan_user_row (some r) = elim (scan_user r) [ err e ↦ err e | ok u ↦ ok (some u) ]

unfoldable pub scan_user_with_password : Option UserRow → Result (Option UserWithPassword)
scan_user_with_password none = ok none
scan_user_with_password (some r) = elim (scan_user r) [
  | err e ↦ err e
  | ok u ↦ ok (some (record { user = u; password_hash = r.password_hash }))
]

-- `ORDER BY username ASC`.
unfoldable pub insert_by_name : UserRow → List UserRow → List UserRow
insert_by_name r [] = r ∷ []
insert_by_name r (x ∷ rows) =
    let later = insert_by_name r rows in
    if text_lt x.username r.username then x ∷ later else r ∷ x ∷ rows

unfoldable pub by_name : List UserRow → List UserRow
by_name [] = []
by_name (r ∷ rows) = insert_by_name r (by_name rows)

abbrev pub has_username : Text → List UserRow → Bool
has_username name rows = any (λ r. text_eq r.username name) rows

-- The columns that an `UPDATE` sets; without a hash the old one stays.
abbrev pub updated_row : Text → Text → Option Text → Time → UserRow → UserRow
updated_row username role none now r = record r {
  username = username;
  role = role;
  updated_at = ts now;
}
updated_row username role (some hash) now r = record r {
  username = username;
  role = role;
  password_hash = hash;
  updated_at = ts now;
}

-- Another user of the new name breaks the UNIQUE constraint, if there is a row to update.
abbrev pub name_clash : ℤ → Text → List UserRow → Bool
name_clash id username rows =
    any (λ r. is_key id r.id) rows
    && any (λ r. not (is_key id r.id) && text_eq r.username username) rows

-- The sessions that a user still stands behind.
unfoldable pub join_users : List UserRow → List SessionRow → List UserRow
join_users rows [] = []
join_users rows (s ∷ sessions) = elim (find (λ u. u.id == s.user_id) rows) [
  | none ↦ join_users rows sessions
  | some u ↦ u ∷ join_users rows sessions
]

abbrev pub is_live : (Text → Text) → Text → Time → SessionRow → Bool
is_live digest token now s = text_eq s.token_hash (digest token) && stamp_lt (ts now) s.expires_at

module _ {F : Type 0} where
  unfoldable pub user_count : Eff (Db F) ℕ
  user_count = query (λ d. length d.users.rows)

  unfoldable pub add_user : Text → Text → Text → Time → Db F → Db F
  add_user username hash role now d = record d {
    users =
        insert_row
          (λ n. record {
            id = n;
            username = username;
            password_hash = hash;
            role = role;
            created_at = ts now;
            updated_at = ts now;
          })
          d.users;
  }

  -- A second user of the name breaks the UNIQUE constraint.
  unfoldable pub create_user : Text → Text → Text → Time → Eff (Db F) ℕ
  create_user username hash role now = statement (λ d.
      if has_username username d.users.rows
      then (err (bytes "UNIQUE constraint failed: users.username"), d)
      else (ok (d.users.last_id + 1), add_user username hash role now d))

  unfoldable pub users : Eff (Db F) (List User)
  users = do rows ← query (λ d. by_name d.users.rows); returns (scan_all scan_user rows)

  unfoldable pub user_by_username : Text → Eff (Db F) (Option UserWithPassword)
  user_by_username username = do
    row ← query (λ d. find (λ r. text_eq r.username username) d.users.rows)
    returns (scan_user_with_password row)

  unfoldable pub user_by_id : ℤ → Eff (Db F) (Option User)
  user_by_id id = do
    row ← query (λ d. find (λ r. is_key id r.id) d.users.rows)
    returns (scan_user_row row)

  unfoldable pub set_user : ℤ → Text → Text → Option Text → Time → Db F → Db F
  set_user id username role hash now d = record d {
    users = record (d.users) {
      rows = update_where (λ r. is_key id r.id) (updated_row username role hash now) d.users.rows;
    };
  }

  unfoldable pub update_user : ℤ → Text → Text → Option Text → Time → Eff (Db F) (Unit {0})
  update_user id username role hash now = statement (λ d.
      if name_clash id username d.users.rows
      then (err (bytes "UNIQUE constraint failed: users.username"), d)
      else (ok tt, set_user id username role hash now d))

  abbrev pub keep_sessions : (SessionRow → Bool) → Db F → Db F
  keep_sessions keep d = record d {
    sessions = record (d.sessions) { rows = select keep d.sessions.rows };
  }

  unfoldable pub remove_user : ℤ → Db F → Db F
  remove_user id d = record d {
    users = record (d.users) { rows = select (λ r. not (is_key id r.id)) d.users.rows };
  }

  unfoldable pub delete_user : Bool → ℤ → Eff (Db F) (Unit {0})
  delete_user cascade id = exec (λ d.
      if cascade
      then keep_sessions (λ s. not (is_key id s.user_id)) (remove_user id d)
      else remove_user id d)

  unfoldable pub delete_sessions_for_user : ℤ → Eff (Db F) (Unit {0})
  delete_sessions_for_user id = exec (keep_sessions (λ s. not (is_key id s.user_id)))

  unfoldable pub delete_expired_sessions : Time → Eff (Db F) (Unit {0})
  delete_expired_sessions now = exec (keep_sessions (λ s. not (stamp_le s.expires_at (ts now))))

module _ {F : Type 0} (digest : Text → Text) where
  unfoldable pub add_session : Text → ℕ → Time → Time → Db F → Db F
  add_session token user_id now expires d = record d {
    sessions =
        insert_row
          (λ n. record {
            id = n;
            token_hash = digest token;
            user_id = user_id;
            created_at = ts now;
            expires_at = ts expires;
          })
          d.sessions;
  }

  unfoldable pub create_session : Text → ℕ → Time → Time → Eff (Db F) (Unit {0})
  create_session token user_id now expires = statement (λ d.
      if any (λ s. text_eq s.token_hash (digest token)) d.sessions.rows
      then (err (bytes "UNIQUE constraint failed: sessions.token_hash"), d)
      else (ok tt, add_session token user_id now expires d))

  unfoldable pub session_user : Text → Time → Db F → Option UserRow
  session_user token now d =
      elim (join_users d.users.rows (select (is_live digest token now) d.sessions.rows)) [
        | [] ↦ none
        | u ∷ rest ↦ some u
      ]

  unfoldable pub user_by_session : Text → Time → Eff (Db F) (Option User)
  user_by_session token now = do row ← query (session_user token now); returns (scan_user_row row)

  unfoldable pub delete_session : Text → Eff (Db F) (Unit {0})
  delete_session token = exec (keep_sessions (λ s. not (text_eq s.token_hash (digest token))))
