-- ===== src/HttpApi/Users/Login.antt =====
-- A session that a login has made is let through by `authMiddleware`.
mod Found
mod Opened
use homelink_monitor.Base.{
  ℕ, ◌+◌, ◌≡◌, refl, Bool, true, false, some, List, [], Text, text_eq, is_empty, trim_space, arith,
  Result, ok, err, Ends, handle, proceed-Ends, find,
}
use homelink_monitor.Domain.{Time, User}
use homelink_monitor.Store.Stamp.{ts, stamp_lt}
use homelink_monitor.Store.Schema.{Db, UserRow, returns}
use homelink_monitor.Store.Schema.Rules.{execute-Ends}
use homelink_monitor.Store.Users.{
  UserWithPassword, user_by_session, user_by_username, delete_expired_sessions, create_session,
  scan_user,
}
use homelink_monitor.Store.Users.Accounts.{IsDistinct}
use homelink_monitor.Auth.{
  Bcrypt, session_time, session_cookie, check_password, login, user_for_request,
}
use homelink_monitor.HttpApi.Users.{
  Response, write_error, logged_in, login_handler, auth_middleware,
}
use homelink_monitor.HttpApi.Users.Login.Found.{
  find_by_key, IsFound, user_by_username-IsFound, check_password-IsFound, scan_user-id,
}
use homelink_monitor.HttpApi.Users.Login.Opened.{
  IsOpen, create_session-IsOpen, user_by_session-IsOpen,
}

-- The user of the row with the name, whose hash the password matches.
abbrev pub IsKnown : Bcrypt → Text → Text → List UserRow → User → Type 0
IsKnown bcrypt username password rows u =
    (r : UserRow) × (find (λ x. text_eq x.username (trim_space username)) rows ≡ some r)
    × (scan_user r ≡ ok u)
    × (bcrypt.matches r.password_hash password ≡ true)

module _ {F : Type 0} (bcrypt : Bcrypt) (digest : Text → Text) (username password token : Text)
    (now later : Time) (live : stamp_lt (ts later) (ts (now + session_time)) ≡ true) where
  -- After a login the token's session is that of such a user.
  abbrev IsAdmitted : List UserRow → Text × User → Db F → Type 0
  IsAdmitted rows x s =
      (x.0 ≡ token)
      × IsKnown bcrypt username password rows x.1
      × IsOpen digest token now later live x.1 s

  session_made :
      (u : UserWithPassword) (rows : List UserRow) (d : Db F)
      → IsDistinct rows
      → IsFound (trim_space username) rows (some u) × (d.users.rows ≡ rows)
      → Ends
          (λ _ s. IsOpen digest token now later live u.user s)
          (λ s. Unit)
          (create_session digest token u.user.id now (now + session_time) d)
  session_made u rows d distinct ((r, found, scanned, _), same) =
      let key : u.user.id ≡ r.id = scan_user-id r u.user scanned in
      create_session-IsOpen digest token now later live u.user r rows d same
        (rw key (find_by_key _ rows r distinct found)) scanned

  login-IsAdmitted :
      (d : Db F)
      → IsDistinct d.users.rows
      → Ends
          (λ x s. IsAdmitted d.users.rows x s)
          (λ s. Unit)
          (login bcrypt digest username password now (ok token) d)
  unfolding login delete_expired_sessions
  login-IsAdmitted d distinct =
      let rows = d.users.rows in
      let name = trim_space username in
      proceed-Ends (λ (_ : Unit {0}) s. s.users.rows ≡ rows) (λ x s. IsAdmitted d.users.rows x s)
        (λ s. Unit) (delete_expired_sessions now d) _
        (execute-Ends (λ s. s.users.rows ≡ rows) (λ s. Unit)
          (λ (_ : Unit {0}) s. s.users.rows ≡ rows) _ d.faults d (λ s faults h. h) (λ s h. tt)
          (λ s h. h) refl)
        (λ _ s same.
          proceed-Ends (λ found t. IsFound name rows found × (t.users.rows ≡ rows))
            (λ x t. IsAdmitted d.users.rows x t) (λ t. Unit) (user_by_username name s) _
            (user_by_username-IsFound name rows s same)
            (λ found t h.
              proceed-Ends
                (λ u v.
                  IsFound name rows (some u)
                  × (bcrypt.matches u.password_hash password ≡ true)
                  × (v.users.rows ≡ rows))
                (λ x v. IsAdmitted d.users.rows x v) (λ v. Unit)
                (returns (check_password bcrypt password found) t) _
                (check_password-IsFound name rows bcrypt password found t h)
                (λ u v k.
                  proceed-Ends (λ (_ : Unit {0}) w. IsOpen digest token now later live u.user w)
                    (λ x w. IsAdmitted d.users.rows x w) (λ w. Unit)
                    (create_session digest token u.user.id now (now + session_time) v) _
                    (session_made u rows v distinct (k.0, k.2))
                    (λ _ w open_. (refl, (k.0.0, k.0.1, k.0.2, rw (k.0.3) k.1), open_)))))

  module _ {A : Type 0} (secure : Bool) (rows : List UserRow) (refuse : ℕ → Text → A)
      (next : User → Db F → A × Db F) where
    -- The guard lets the user in with the cookie of the answer.
    abbrev pub IsLetIn : Response × Db F → Type 0
    IsLetIn x =
        (u : User) × IsKnown bcrypt username password rows u
        × (x.0.cookie ≡ some (session_cookie secure token))
        × (auth_middleware refuse (user_for_request digest (some token) later) next x.1
            ≡ next u x.1)

    answered-IsLetIn :
        (r : Result (Text × User) × Db F)
        → Ends (λ x s. IsAdmitted rows x s) (λ s. Unit) r
        → is_empty token ≡ false
        → (handle r
            (λ e s. (write_error 401 e, s))
            (λ found s. (logged_in secure found.0 found.1, s))).0.code
          ≡ 200
        → (handle r
            (λ e s. (write_error 401 e, s))
            (λ found s. (logged_in secure found.0 found.1, s))).1.faults
          ≡ []
        → IsLetIn (
            handle r
              (λ e s. (write_error 401 e, s))
              (λ found s. (logged_in secure found.0 found.1, s)))
    unfolding auth_middleware user_for_request
    answered-IsLetIn (err e, s) h given done quiet = absurd (ground arith)
    answered-IsLetIn (ok (t, u), s) (same, known, open_) given done quiet = (
      u,
      known,
      rw same refl,
      rw
          (
            user_for_request,
            given,
            user_by_session-IsOpen digest token now later live u s open_ quiet,
          )
          refl,
    )

-- If no key stands twice among the users, the random token is not empty, and the text of `later` comes
-- before that of the session's end, 30 days after the login: when `login` replies 200 and no later
-- statement fails, its cookie has the token, and `authMiddleware` lets a request with it through at
-- `later`, as the user whose row has the given name and a hash that the password matches.
pub login_handler-IsLetIn :
    {F A : Type 0} (bcrypt : Bcrypt) (digest : Text → Text) (username password token : Text)
    (now later : Time) (live : stamp_lt (ts later) (ts (now + session_time)) ≡ true) (secure : Bool)
    (d : Db F) (refuse : ℕ → Text → A) (next : User → Db F → A × Db F)
    → IsDistinct d.users.rows
    → is_empty token ≡ false
    → (login_handler bcrypt digest secure (ok (username, password)) now (ok token) d).0.code ≡ 200
    → (login_handler bcrypt digest secure (ok (username, password)) now (ok token) d).1.faults ≡ []
    → IsLetIn bcrypt digest username password token now later live secure d.users.rows refuse next
        (login_handler bcrypt digest secure (ok (username, password)) now (ok token) d)
unfolding login_handler
login_handler-IsLetIn bcrypt digest username password token now later live secure d refuse next
      distinct given done quiet =
    answered-IsLetIn bcrypt digest username password token now later live secure d.users.rows refuse
      next (login bcrypt digest username password now (ok token) d)
      (login-IsAdmitted bcrypt digest username password token now later live d distinct) given done
      quiet
