-- ===== src/HttpApi/Users/Login/Opened.antt =====
-- The session that a login makes, as the guard finds it.
use homelink_monitor.Base.{
  ℕ, ◌+◌, ◌≡◌, refl, true, false, ◌&&◌, some, List, [], ◌∷◌, ◌++◌, Text, text_eq, text_eq_refl,
  arith, ok, Ends, select, find, any, ◌==◌, Bool-cases, inl, inr,
}
use homelink_monitor.Domain.{Time, User}
use homelink_monitor.Store.Stamp.{ts, stamp_lt}
use homelink_monitor.Store.Schema.{Db, UserRow, SessionRow}
use homelink_monitor.Store.Schema.Rules.{execute-Ends}
use homelink_monitor.Store.Users.{
  is_live, join_users, session_user, user_by_session, create_session, add_session, scan_user,
  scan_user_row,
}
use homelink_monitor.Auth.{session_time}

-- No session of the hash, so none that is live.
select-is_live :
    (digest : Text → Text) (token : Text) (later : Time) (sessions : List SessionRow)
    → any (λ s. text_eq s.token_hash (digest token)) sessions ≡ false
    → (new : SessionRow) → is_live digest token later new ≡ true
    → select (is_live digest token later) (sessions ++ new ∷ []) ≡ new ∷ []
select-is_live digest token later [] free new live = rw live refl
select-is_live digest token later (s ∷ sessions) free new live =
    let other : text_eq s.token_hash (digest token) ≡ false = ground arith in
    let rest : any (λ s. text_eq s.token_hash (digest token)) sessions ≡ false = ground arith in
    rw other (select-is_live digest token later sessions rest new live)

abbrev new_session : (Text → Text) → Text → Time → ℕ → ℕ → SessionRow
new_session digest token now user_id n = record {
  id = n;
  token_hash = digest token;
  user_id = user_id;
  created_at = ts now;
  expires_at = ts (now + session_time);
}

module _ {F : Type 0} (digest : Text → Text) (token : Text) (now later : Time)
    (live : stamp_lt (ts later) (ts (now + session_time)) ≡ true) where
  -- The session of the token is that of the user.
  abbrev pub IsOpen : User → Db F → Type 0
  IsOpen u s = (r : UserRow) × (session_user digest token later s ≡ some r) × (scan_user r ≡ ok u)

  add_session-IsOpen :
      (u : User) (r : UserRow) (d : Db F)
      → any (λ s. text_eq s.token_hash (digest token)) d.sessions.rows ≡ false
      → find (λ x. x.id == u.id) d.users.rows ≡ some r
      → scan_user r ≡ ok u
      → IsOpen u (add_session digest token u.id now (now + session_time) d)
  unfolding add_session session_user join_users
  add_session-IsOpen u r d free found scanned = (
    r,
    rw
        (
          session_user,
          select-is_live digest token later d.sessions.rows free
              (new_session digest token now u.id (d.sessions.last_id + 1)) fresh,
          join_users,
          found,
        )
        refl,
    scanned,
  )
    where
      fresh :
          (text_eq (digest token) (digest token) && stamp_lt (ts later) (ts (now + session_time)))
          ≡ true
      fresh = rw (text_eq_refl (digest token)) live

  pub create_session-IsOpen :
      (u : User) (r : UserRow) (rows : List UserRow) (d : Db F)
      → d.users.rows ≡ rows
      → find (λ x. x.id == u.id) rows ≡ some r
      → scan_user r ≡ ok u
      → Ends
          (λ _ s. IsOpen u s)
          (λ s. Unit)
          (create_session digest token u.id now (now + session_time) d)
  unfolding create_session
  create_session-IsOpen u r rows d same found scanned =
      execute-Ends (λ s. s.users.rows ≡ rows) (λ s. Unit) (λ (_ : Unit {0}) s. IsOpen u s) _
        d.faults d (λ s faults h. h) (λ s h. tt)
        (λ s h. elim (Bool-cases (any (λ x. text_eq x.token_hash (digest token)) s.sessions.rows)) [
          | inl taken ↦ rw taken tt
          | inr free ↦ rw free (add_session-IsOpen u r s free (rw h found) scanned)
        ])
        same

  pub user_by_session-IsOpen :
      (u : User) (d : Db F)
      → IsOpen u d
      → d.faults ≡ []
      → user_by_session digest token later d ≡ (ok (some u), d)
  unfolding user_by_session scan_user_row session_user
  user_by_session-IsOpen u d (r, found, scanned) quiet =
      rw (user_by_session, quiet, found, scan_user_row, scanned) refl
